-- ===== src/Prelude/Dict.antt =====
-- A Go map with string keys, as an association list.
use Prim.Native.String.{String}
use mathlib.Core.Path.{◌≡◌, refl}
use mathlib.Core.Bool.{Bool}
use mathlib.Core.List.{List, [], ◌∷◌}
use mathlib.Core.Option.{Option, none, some}
use native.Mathlib.Omega.{arith}
use text.Mathlib.Text.{◌==◌}
use text.Mathlib.TextEquality.{eq_iff}
use mathlib.Core.Logic.{inl, inr}
use ztg.Prelude.Tests.{if◌then◌else◌, Bool-cases}

abbrev pub Dict {ℓ} : Type ℓ → Type ℓ
Dict V = List (String × V)

module _ {ℓ} {V : Type ℓ} where
  -- `v, ok := m[k]`
  unfoldable pub lookup : String → Dict V → Option V
  lookup key ((head, value) ∷ rest) = if head == key then some value else lookup key rest
  lookup _ [] = none

  -- `m[k] = v`
  unfoldable pub insert : String → V → Dict V → Dict V
  insert key new ((head, old) ∷ rest) =
      if head == key then (key, new) ∷ rest else (head, old) ∷ insert key new rest
  insert key new [] = (key, new) ∷ []

  -- `delete(m, k)`: a map holds a key once, but every entry of the list under it goes.
  unfoldable pub delete : String → Dict V → Dict V
  delete key ((head, value) ∷ rest) =
      if head == key then delete key rest else (head, value) ∷ delete key rest
  delete _ [] = []

  -- A loop over the map that deletes the entries whose value fails the test.
  unfoldable pub retain : (V → Bool) → Dict V → Dict V
  retain keep ((head, value) ∷ rest) =
      if keep value then (head, value) ∷ retain keep rest else retain keep rest
  retain _ [] = []

  pub lookup-insert :
      (key other : String) (new : V) (dict : Dict V)
      → lookup other (insert key new dict) ≡ (if key == other then some new else lookup other dict)
  unfolding lookup insert
  lookup-insert key other new ((head, _) ∷ rest) = ground (
    arith,
    lookup-insert key other new rest,
    eq_iff head key,
    eq_iff head other,
    eq_iff key other,
  )
  lookup-insert _ _ _ [] = refl

  pub lookup-delete :
      (key other : String) (dict : Dict V)
      → lookup other (delete key dict) ≡ (if key == other then none else lookup other dict)
  unfolding lookup delete
  lookup-delete _ _ [] = ground arith
  lookup-delete key other ((head, _) ∷ rest) =
      ground
        (arith, lookup-delete key other rest, eq_iff head key, eq_iff head other, eq_iff key other)

-- A predicate on the keys and values of a map.
module _ {ℓ κ} {V : Type ℓ} (P : String → V → Type κ) where
  abbrev pub AllEntries : Dict V → Type κ
  AllEntries [] = Unit
  AllEntries ((head, value) ∷ rest) = P head value × AllEntries rest

  pub AllEntries-insert :
      (key : String) (new : V) (dict : Dict V)
      → P key new
      → AllEntries dict
      → AllEntries (insert key new dict)
  unfolding insert
  AllEntries-insert key new [] p h = (p, tt)
  AllEntries-insert key new ((head, old) ∷ rest) p h = elim (Bool-cases (head == key)) [
    | inl e ↦ rw e (p, h.1)
    | inr e ↦ rw e (h.0, AllEntries-insert key new rest p h.1)
  ]

  pub AllEntries-delete :
      (key : String) (dict : Dict V) → AllEntries dict → AllEntries (delete key dict)
  unfolding delete
  AllEntries-delete key [] h = tt
  AllEntries-delete key ((head, value) ∷ rest) h = elim (Bool-cases (head == key)) [
    | inl e ↦ rw e (AllEntries-delete key rest h.1)
    | inr e ↦ rw e (h.0, AllEntries-delete key rest h.1)
  ]
