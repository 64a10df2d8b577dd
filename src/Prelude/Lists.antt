-- ===== src/Prelude/Lists.antt =====
-- Lists measured by native numbers, loops that append to a slice, and predicates on all elements.
use Prim.Native.Nat.{ℕ, zero, suc, ◌+◌, min}
use mathlib.Core.Path.{◌≡◌, refl}
use mathlib.Core.Bool.{Bool, true, false, ◌||◌}
use mathlib.Core.List.{List, [], ◌∷◌, ◌++◌}
use native.Mathlib.Omega.{arith}
use mathlib.Core.Logic.{◌⊎◌, inl, inr}
use ztg.Prelude.Tests.{Bool-cases}

module _ {ℓ} {A : Type ℓ} where
  abbrev pub length : List A → ℕ
  length [] = 0
  length (x ∷ xs) = suc (length xs)

  pub length-append : (xs ys : List A) → length (xs ++ ys) ≡ length xs + length ys
  length-append [] ys = omega arith
  length-append (x ∷ xs) ys = omega (arith, length-append xs ys)

  abbrev pub take : ℕ → List A → List A
  take zero xs = []
  take (suc n) [] = []
  take (suc n) (x ∷ xs) = x ∷ take n xs

  abbrev pub replicate : ℕ → A → List A
  replicate zero a = []
  replicate (suc n) a = a ∷ replicate n a

  pub length-take : (n : ℕ) (xs : List A) → length (take n xs) ≡ min n (length xs)
  length-take zero xs = omega arith
  length-take (suc n) [] = omega arith
  length-take (suc n) (x ∷ xs) = omega (arith, length-take n xs)

  -- `slices.ContainsFunc`
  abbrev pub any : List A → (A → Bool) → Bool
  any [] p = false
  any (x ∷ xs) p = p x || any xs p

  -- Every element satisfies the predicate.
  abbrev pub All {κ} : (A → Type κ) → List A → Type κ
  All P [] = Unit
  All P (x ∷ xs) = P x × All P xs

  pub All-append {κ} : (P : A → Type κ) (xs ys : List A) → All P xs → All P ys → All P (xs ++ ys)
  All-append P [] ys hx hy = hy
  All-append P (x ∷ xs) ys hx hy = (hx.0, All-append P xs ys hx.1 hy)

  pub All-map {κ μ} :
      (P : A → Type κ) (Q : A → Type μ)
      → ((x : A) → P x → Q x)
      → (xs : List A) → All P xs
      → All Q xs
  All-map P Q f [] h = tt
  All-map P Q f (x ∷ xs) h = (f x h.0, All-map P Q f xs h.1)

  pub All-any {κ} :
      (P : A → Type κ) (p : A → Bool) (xs : List A)
      → All P xs
      → any xs p ≡ true
      → (x : A) × P x × (p x ≡ true)
  All-any P p [] h e = cc
  All-any P p (x ∷ xs) h e = elim (Bool-cases (p x)) [
    | inl q ↦ (x, h.0, q)
    | inr q ↦ All-any P p xs h.1 (rw q at e)
  ]

module _ {ℓ κ} {A : Type ℓ} {B : Type κ} where
  -- A loop whose body appends its own elements to the result.
  abbrev pub flat_map : (A → List B) → List A → List B
  flat_map f [] = []
  flat_map f (x ∷ xs) = f x ++ flat_map f xs

  pub All-flat_map {μ ν} :
      (P : A → Type μ) (Q : B → Type ν) (f : A → List B)
      → ((x : A) → P x → All Q (f x))
      → (xs : List A) → All P xs
      → All Q (flat_map f xs)
  All-flat_map P Q f h [] p = tt
  All-flat_map P Q f h (x ∷ xs) p =
      All-append Q (f x) (flat_map f xs) (h x p.0) (All-flat_map P Q f h xs p.1)

-- A predicate that holds of everything the body of a loop appends holds of the result.
pub flat_map-All {ℓ κ μ} :
    {A : Type ℓ} {B : Type κ} (Q : B → Type μ) (f : A → List B)
    → ((x : A) → All Q (f x))
    → (xs : List A) → All Q (flat_map f xs)
flat_map-All Q f h [] = tt
flat_map-All Q f h (x ∷ xs) = All-append Q (f x) (flat_map f xs) (h x) (flat_map-All Q f h xs)

module _ {A : Type 0} where
  -- The element stands in the list.
  abbrev pub In : A → List A → Type 0
  In a [] = ⊥
  In a (x ∷ xs) = (a ≡ x) ⊎ In a xs

  pub All-In {κ} : (P : A → Type κ) (a : A) (xs : List A) → All P xs → In a xs → P a
  All-In P a [] h i = absurd i
  All-In P a (x ∷ xs) h (inl e) = rw e h.0
  All-In P a (x ∷ xs) h (inr i) = All-In P a xs h.1 i

  pub In-append_left : (a : A) (xs ys : List A) → In a xs → In a (xs ++ ys)
  In-append_left a [] ys i = absurd i
  In-append_left a (x ∷ xs) ys (inl e) = inl e
  In-append_left a (x ∷ xs) ys (inr i) = inr (In-append_left a xs ys i)

  pub In-append_right : (a : A) (xs ys : List A) → In a ys → In a (xs ++ ys)
  In-append_right a [] ys i = i
  In-append_right a (x ∷ xs) ys i = inr (In-append_right a xs ys i)

  pub In-any : (p : A → Bool) (a : A) (xs : List A) → In a xs → p a ≡ true → any xs p ≡ true
  In-any p a [] i h = absurd i
  In-any p a (x ∷ xs) (inl e) h = let q : p x ≡ true = rw e at h in rw q
  In-any p a (x ∷ xs) (inr i) h = ground (arith, In-any p a xs i h)

pub In-flat_map :
    {A B : Type 0} (f : A → List B) (a : A) (b : B) (xs : List A)
    → In a xs
    → In b (f a)
    → In b (flat_map f xs)
In-flat_map f a b [] i j = absurd i
In-flat_map f a b (x ∷ xs) (inl e) j =
    let j' : In b (f x) = rw e at j in In-append_left b (f x) (flat_map f xs) j'
In-flat_map f a b (x ∷ xs) (inr i) j =
    In-append_right b (f x) (flat_map f xs) (In-flat_map f a b xs i j)

pub any-In :
    {A : Type 0} (p : A → Bool) (xs : List A) → any xs p ≡ true → (x : A) × In x xs × (p x ≡ true)
any-In p [] h = cc
any-In p (x ∷ xs) h = elim (Bool-cases (p x)) [
  | inl q ↦ (x, inl refl, q)
  | inr q ↦ let (y, i, e) = any-In p xs (rw q at h) in (y, inr i, e)
]
