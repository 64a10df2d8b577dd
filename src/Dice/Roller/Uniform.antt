-- ===== src/Dice/Roller/Uniform.antt =====
-- How often a value of two bytes shows a face of the die (dice/roller.go).
use native.Mathlib.Decide.{dec_le}
use native.Mathlib.Nat.{mul-add-mod_self_right, mod-eq_of_lt, div-add-mod'}
use ztg.Prelude.{
  sym, fun_ext, ◌∙◌, ap, ℕ, zero, suc, ◌+◌, ◌-◌, ◌*◌, ◌/◌, ◌%◌, ◌≤◌, ◌<◌, ◌≡◌, refl, Bool, ◌&&◌,
  arith, ok, List, [], ◌∷◌, false, if◌then◌else◌, ◌==◌, ltb,
}
use ztg.Dice.Roller.{Roller, max, new_roller, roll_loop}

-- A list that is this face alone.
abbrev pub is_face : ℕ → List ℕ → Bool
is_face face (v ∷ []) = v == face
is_face face _ = false

-- How many numbers below `n` pass the test.
unfoldable pub count_below : ℕ → (ℕ → Bool) → ℕ
count_below zero p = 0
count_below (suc n) p = (if p n then 1 else 0) + count_below n p

-- The one roll of the die from a value of two bytes, the high one first, is this face.
abbrev pub shows : Roller → ℕ → ℕ → Bool
shows r face v = is_face face (roll_loop r 1 ((v / 256) ∷ (v % 256) ∷ []))

-- The value is accepted and shows this face.
abbrev accepts : Roller → ℕ → ℕ → Bool
accepts r face v = ltb v r.roll_value_limit && (v % r.sides + 1 == face)

one_roll :
    (r : Roller) (face a b : ℕ)
    → is_face face (roll_loop r 1 (a ∷ b ∷ [])) ≡ accepts r face (a * 256 + b)
unfolding roll_loop
one_roll r face a b = ground arith

shows-accepts : (r : Roller) (face : ℕ) → shows r face ≡ accepts r face
shows-accepts r face =
    fun_ext (λ v. one_roll r face (v / 256) (v % 256) ∙ ap (accepts r face) (div-add-mod' v 256))

count_block :
    (s f q k : ℕ)
    → f < s
    → k ≤ s
    → count_below (q * s + k) (λ v. v % s == f)
      ≡ count_below (q * s) (λ v. v % s == f) + (if ltb f k then 1 else 0)
unfolding count_below
count_block s f q zero h k =
    ground (arith, ap (λ n. count_below n (λ v. v % s == f)) (zero_right q s))
  where
    zero_right : (q s : ℕ) → q * s + 0 ≡ q * s
    zero_right q s = omega arith
count_block s f q (suc k) h b =
    rw (shift q s k) (ground (arith, rest, count_block s f q k h (omega arith)))
  where
    shift : (q s k : ℕ) → q * s + suc k ≡ suc (q * s + k)
    shift q s k = omega arith

    rest : (q * s + k) % s ≡ k
    rest = mul-add-mod_self_right q s k ∙ mod-eq_of_lt b

-- Each residue is met once in each block of `s` numbers.
count_blocks : (s f q : ℕ) → f < s → count_below (q * s) (λ v. v % s == f) ≡ q
count_blocks s f zero h = rw (zero_left s) (unfold count_below in refl)
  where
    zero_left : (s : ℕ) → 0 * s ≡ 0
    zero_left s = omega arith
count_blocks s f (suc q) h =
    rw (shift q s) (ground (arith, count_block s f q s h (omega arith), count_blocks s f q h))
  where
    shift : (q s : ℕ) → suc q * s ≡ q * s + s
    shift q s = omega arith

-- Numbers from the limit on are not counted.
count_limited :
    (l n : ℕ) (p : ℕ → Bool)
    → l ≤ n
    → count_below n (λ v. ltb v l && p v) ≡ count_below l (λ v. ltb v l && p v)
unfolding count_below
count_limited l zero p h = let e : l ≡ 0 = omega arith in rw e
count_limited l (suc n) p h = elim (dec_le l n) [
  | yes le ↦ ground (arith, le, count_limited l n p le)
  | no gt ↦ let e : l ≡ suc n = omega arith in rw e
]

count_within :
    (l n : ℕ) (p : ℕ → Bool) → n ≤ l → count_below n (λ v. ltb v l && p v) ≡ count_below n p
unfolding count_below
count_within l zero p h = refl
count_within l (suc n) p h = ground (arith, count_within l n p (omega arith))

same_face : (s f : ℕ) → ◌≡◌ {A = ℕ → Bool} (λ v. v % s + 1 == suc f) (λ v. v % s == f)
same_face s f = fun_ext (λ v. ground arith)

new_roller-ok :
    (sides : ℕ) (r : Roller)
    → new_roller sides ≡ ok r
    → (r.sides ≡ sides) × (0 < sides) × (sides ≤ 20) × (r.roll_value_limit ≡ max - max % sides)
unfolding new_roller
new_roller-ok sides r h = ground arith

limit-mul : (s : ℕ) → max - max % s ≡ (max / s) * s
limit-mul s = omega (arith, div-add-mod' max s)

fair_below :
    (n l s f q : ℕ)
    → l ≤ n
    → f < s
    → l ≡ q * s
    → count_below n (λ v. ltb v l && (v % s + 1 == suc f)) ≡ q
fair_below n l s f q h k e =
    count_limited l n (λ v. v % s + 1 == suc f) h
    ∙ count_within l l (λ v. v % s + 1 == suc f) (omega arith)
    ∙ ap (count_below l) (same_face s f)
    ∙ ap (λ x. count_below x (λ v. v % s == f)) e
    ∙ count_blocks s f q k

-- Of the 65536 pairs of bytes, each face of a new die is what the loop over the bytes of a hash rolls
-- from equally many, the quotient of 65535 by the number of sides.
pub new_roller-fair :
    (sides f : ℕ) (r : Roller)
    → new_roller sides ≡ ok r
    → f < sides
    → count_below 65536 (shows r (suc f)) ≡ max / sides
new_roller-fair sides f r h k =
    let facts = new_roller-ok sides r h in
    ap (count_below 65536) (shows-accepts r (suc f))
    ∙ fair_below 65536 r.roll_value_limit r.sides f (max / sides) (omega (arith, facts.3))
        (omega (arith, facts.0))
        (facts.3 ∙ limit-mul sides ∙ ap (λ s. max / sides * s) (sym facts.0))
