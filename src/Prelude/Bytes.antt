-- ===== src/Prelude/Bytes.antt =====
-- Byte slices as lists of numbers below 256.
use Prim.Native.Char.{code}
use Prim.Native.Nat.{ℕ, compare, Ordering}
use Prim.Native.String.{String}
use mathlib.Core.Path.{◌≡◌, refl}
use mathlib.Core.Bool.{Bool, true, false, ◌&&◌, ◌||◌}
use mathlib.Core.List.{List, [], ◌∷◌}
use native.Mathlib.Omega.{arith}
use ztg.Prelude.Tests.{◌==◌}

-- `[]byte(s)` for an ASCII text.
abbrev pub codes : String → List ℕ
codes String.[] = []
codes (String.◌∷◌ c s) = code c ∷ codes s

-- `bytes.Equal`, also `==` on arrays.
abbrev pub bytes_eq : List ℕ → List ℕ → Bool
bytes_eq [] [] = true
bytes_eq (a ∷ as') (b ∷ bs) = a == b && bytes_eq as' bs
bytes_eq _ _ = false

-- `strings.HasSuffix`, the suffix first.
abbrev pub has_suffix : List ℕ → List ℕ → Bool
has_suffix suffix [] = bytes_eq [] suffix
has_suffix suffix (x ∷ xs) = bytes_eq (x ∷ xs) suffix || has_suffix suffix xs

-- `bytes.Compare(a, b) > 0`
abbrev pub bytes_gt : List ℕ → List ℕ → Bool
bytes_gt [] _ = false
bytes_gt (a ∷ as') [] = true
bytes_gt (a ∷ as') (b ∷ bs) = elim (compare a b) [
  | Ordering.lt ↦ false
  | Ordering.gt ↦ true
  | Ordering.eq ↦ bytes_gt as' bs
]

pub bytes_eq_sound : (a b : List ℕ) → bytes_eq a b ≡ true → a ≡ b
bytes_eq_sound [] [] h = refl
bytes_eq_sound [] (_ ∷ _) h = cc
bytes_eq_sound (_ ∷ _) [] h = cc
bytes_eq_sound (a ∷ as') (b ∷ bs) h = ground (arith, bytes_eq_sound as' bs)

pub bytes_eq_refl : (a : List ℕ) → bytes_eq a a ≡ true
bytes_eq_refl [] = refl
bytes_eq_refl (a ∷ as') = ground (arith, bytes_eq_refl as')

pub bytes_gt_asym : (a b : List ℕ) → bytes_gt a b ≡ true → bytes_gt b a ≡ false
bytes_gt_asym [] b h = cc
bytes_gt_asym (a ∷ as') [] h = refl
bytes_gt_asym (a ∷ as') (b ∷ bs) h = ground (arith, bytes_gt_asym as' bs)

pub bytes_gt_antisym : (a b : List ℕ) → bytes_gt a b ≡ false → bytes_gt b a ≡ false → a ≡ b
bytes_gt_antisym [] [] h k = refl
bytes_gt_antisym [] (_ ∷ _) h k = cc
bytes_gt_antisym (_ ∷ _) [] h k = cc
bytes_gt_antisym (a ∷ as') (b ∷ bs) h k = ground (arith, bytes_gt_antisym as' bs)
