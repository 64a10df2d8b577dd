-- ===== src/Prelude/Exec.antt =====
-- Code that changes a state and may fail. The state comes back after an error too, since what was
-- written stays written.
use mathlib.Core.Path.{◌≡◌}
use native.Mathlib.Omega.{arith}
use ztg.Prelude.Fallible.{
  Result, ok, err, panic, wrap_err, Result-cases, succeeded, failed, panicked,
}

abbrev pub Exec : Type 0 → Type 0 → Type 0 → Type 0
Exec S E A = S → Result E A × S

infixl 5 ◌>>=◌ ◌>>◌
abbrev pub ◌>>=◌ : {S E A B : Type 0} → Exec S E A → (A → Exec S E B) → Exec S E B
◌>>=◌ m f s =
    let (r, s') = m s in elim r [ ok a ↦ f a s' | err e ↦ (err e, s') | panic ↦ (panic, s') ]

abbrev pub ◌>>◌ : {S E B : Type 0} → Exec S E (Unit {0}) → Exec S E B → Exec S E B
m >> k = m >>= λ _. k

module _ {S E : Type 0} where
  abbrev pub pure : {A : Type 0} → A → Exec S E A
  pure a s = (ok a, s)

  abbrev pub lift : {A : Type 0} → Result E A → Exec S E A
  lift r s = (r, s)

  abbrev pub gets : {A : Type 0} → (S → A) → Exec S E A
  gets f s = (ok (f s), s)

  abbrev pub modify : (S → S) → Exec S E (Unit {0})
  modify f s = (ok tt, f s)

-- `return fmt.Errorf("…: %w", err)`
abbrev pub wrapping : {S E F A : Type 0} → (E → F) → Exec S E A → Exec S F A
wrapping w m s = let (r, s') = m s in (wrap_err w r, s')

-- A call of something outside, which has a state of its own beside the state here.
abbrev pub outside : {S W E A : Type 0} → Exec W E A → Exec (S × W) E A
outside m (s, w) = let (r, w') = m w in (r, (s, w'))

-- The same of something here, beside a state of the outside.
abbrev pub inside : {S W E A : Type 0} → Exec S E A → Exec (S × W) E A
inside m (s, w) = let (r, s') = m s in (r, (s', w))

-- The inversion of a chain that succeeds: its first part succeeds, and the chain goes on from there.
pub >>=-eq-ok :
    {S E A B : Type 0} (m : Exec S E A) (f : A → Exec S E B) (s : S) (b : B)
    → ((m >>= f) s).0 ≡ ok b
    → (a : A) × ((m s).0 ≡ ok a) × ((m >>= f) s ≡ f a (m s).1)
>>=-eq-ok m f s b h = elim (Result-cases (m s).0) [
  | succeeded a e ↦ (a, e, ground (arith, e))
  | failed e q ↦ absurd (ground (arith, q, h))
  | panicked q ↦ absurd (ground (arith, q, h))
]
