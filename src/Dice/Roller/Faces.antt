-- ===== src/Dice/Roller/Faces.antt =====
-- The rolls that a hash stands for (dice/roller.go).
use ztg.Prelude.{
  sym, ◌∙◌, ℕ, zero, suc, ◌+◌, ◌*◌, ◌%◌, ◌≤◌, ◌<◌, ◌≡◌, refl, Bool, true, false, List, [], ◌∷◌,
  arith, Result, ok, panic, if◌then◌else◌, ◌==◌, ltb, leb, length, All, take, length-take,
}
use ztg.Dice.Roller.{Roller, roll_loop, roll}

-- The big-endian numbers in a list of bytes.
abbrev pub words : List ℕ → List ℕ
words (a ∷ b ∷ bs) = (a * 256 + b) ∷ words bs
words (a ∷ []) = []
words [] = []

-- The words below the limit, as faces of the die.
abbrev pub faces : Roller → List ℕ → List ℕ
faces r [] = []
faces r (v ∷ vs) = if ltb v r.roll_value_limit then (v % r.sides + 1) ∷ faces r vs else faces r vs

roll_loop-take :
    (r : Roller) (n : ℕ) (sum : List ℕ) → roll_loop r n sum ≡ take n (faces r (words sum))
unfolding roll_loop
roll_loop-take r zero sum = refl
roll_loop-take r (suc n) [] = refl
roll_loop-take r (suc n) (a ∷ []) = refl
roll_loop-take r (suc n) (a ∷ b ∷ sum) =
    ground (arith, roll_loop-take r n sum, roll_loop-take r (suc n) sum)

eight : (xs : List ℕ) → (length (take 8 xs) == 8) ≡ leb 8 (length xs)
eight xs = rw (length-take 8 xs) (ground arith)

-- A roll gives the faces of the first eight big-endian values below the limit, and panics exactly
-- if the hash has fewer than eight of them.
pub roll-take :
    {E : Type 0} (r : Roller) (sum : List ℕ)
    → roll {E = E} r sum
      ≡ (if leb 8 (length (faces r (words sum))) then ok (take 8 (faces r (words sum))) else panic)
unfolding roll
roll-take r sum = rw (roll_loop-take r 8 sum, eight (faces r (words sum)))

enough : (xs : List ℕ) → leb 8 (length xs) ≡ true → length (take 8 xs) ≡ 8
enough xs h = rw (length-take 8 xs) (ground (arith, h))

abbrev pub IsFace : Roller → ℕ → Type 0
IsFace r v = (1 ≤ v) × (v ≤ r.sides)

faces-IsFace : (r : Roller) (vs : List ℕ) → 0 < r.sides → All (IsFace r) (faces r vs)
faces-IsFace r [] h = tt
faces-IsFace r (v ∷ vs) h = ground (arith, faces-IsFace r vs h)

pub take-All : {A : Type 0} (P : A → Type 0) (n : ℕ) (xs : List A) → All P xs → All P (take n xs)
take-All P zero xs h = tt
take-All P (suc n) [] h = tt
take-All P (suc n) (x ∷ xs) h = (h.0, take-All P n xs h.1)

-- A roll that does not panic is eight faces of the die.
pub roll-IsFace :
    {E : Type 0} (r : Roller) (sum : List ℕ) (rolls : List ℕ)
    → 0 < r.sides
    → roll {E = E} r sum ≡ ok rolls
    → (length rolls ≡ 8) × All (IsFace r) rolls
roll-IsFace {E} r sum rolls h e = go (leb 8 (length fs)) refl (sym (roll-take r sum) ∙ e)
  where
    fs : List ℕ
    fs = faces r (words sum)

    go :
        (b : Bool)
        → leb 8 (length fs) ≡ b
        → (◌≡◌ {A = Result E (List ℕ)} (if b then ok (take 8 fs) else panic) (ok rolls))
        → (length rolls ≡ 8) × All (IsFace r) rolls
    go true q p =
        let same : take 8 fs ≡ rolls = cc in
        rw (← same) (enough fs q, take-All _ 8 fs (faces-IsFace r _ h))
    go false q p = cc
