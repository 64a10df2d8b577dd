-- ===== src/Prelude/Turns.antt =====
-- Two sides that go on in any order, each by a partial function on the state that they share.
use mathlib.Core.Path.{◌≡◌, refl, sym, subst}
use mathlib.Core.Logic.{◌⊎◌, inl, inr}
use mathlib.Core.Option.{Option, none, some}
use native.Mathlib.Omega.{arith}
use Prim.Native.Nat.{ℕ, zero, suc, ◌+◌}

module _ {S : Type 0} (first second : S → Option S) where
  pub data Turn (s t : S) : Type 0 where
    by_first : first s ≡ some t → Turn s t
    by_second : second s ≡ some t → Turn s t

  -- A run of this many steps.
  pub data Turns : ℕ → S → S → Type 0 where
    here : {s : S} → Turns zero s s
    next : {n : ℕ} {s t u : S} → Turn s t → Turns n t u → Turns (suc n) s u

  pub Turns-append : {k n : ℕ} {s t u : S} → Turns k s t → Turns n t u → Turns (k + n) s u
  Turns-append {n = n} {s} {t} {u} here r = subst (λ m. Turns m s u) (omega arith) r
  Turns-append {k = suc k} {n} {s} {t} {u} (next st rest) r =
      subst (λ m. Turns m s u) (omega arith) (next st (Turns-append rest r))

  -- Neither side can go on.
  pub record IsStuck (s : S) : Type 0 where
    pub first_waits : first s ≡ none
    pub second_waits : second s ≡ none

  IsStuck-Turn : {s t : S} {A : Type 0} → IsStuck s → Turn s t → A
  IsStuck-Turn h (by_first e) = absurd (ground (arith, e, h.first_waits))
  IsStuck-Turn h (by_second e) = absurd (ground (arith, e, h.second_waits))

  -- Steps of different sides may be made in either order.
  abbrev pub Commute : Type 0
  Commute =
      (s t u : S)
      → first s ≡ some t
      → second s ≡ some u
      → (v : S) × (second t ≡ some v) × (first u ≡ some v)

  module _ (diamond : Commute) where
    -- Two steps from one state end in one state, or in states that are one step from a common one.
    Turn-Turn : {s t u : S} → Turn s t → Turn s u → (t ≡ u) ⊎ ((v : S) × Turn t v × Turn u v)
    Turn-Turn (by_first a) (by_first b) = inl (ground (arith, a, b))
    Turn-Turn (by_second a) (by_second b) = inl (ground (arith, a, b))
    Turn-Turn {s} {t} {u} (by_first a) (by_second b) =
        let d = diamond s t u a b in inr (d.0, by_second d.1, by_first d.2)
    Turn-Turn {s} {t} {u} (by_second a) (by_first b) =
        let d = diamond s u t b a in inr (d.0, by_first d.2, by_second d.1)

    -- A run to a stuck state begins with any step that the first state has.
    Turns-Turn :
        {n : ℕ} {s t f : S}
        → IsStuck f
        → Turns n s f
        → Turn s t
        → (m : ℕ) × (n ≡ suc m) × Turns m t f
    Turns-Turn stuck here st = IsStuck-Turn stuck st
    Turns-Turn {n = suc n} {s} {t} {f} stuck (next first rest) st = elim (Turn-Turn first st) [
      | inl e ↦ (n, refl, subst (λ x. Turns n x f) e rest)
      | inr (v, down, across) ↦
          let (m, e, left) = Turns-Turn stuck rest down in
          (n, refl, subst (λ k. Turns k t f) (sym e) (next across left))
    ]

    -- If some run of `n` steps ends in a stuck state, then every run from the same start has at most
    -- `n` steps, and the steps that are left lead to the same stuck state.
    pub Turns-Turns :
        {k : ℕ} {s t : S}
        → Turns k s t
        → {n : ℕ} {f : S} → IsStuck f
        → Turns n s f
        → (m : ℕ) × (k + m ≡ n) × Turns m t f
    Turns-Turns here {n} stuck whole = (n, omega arith, whole)
    Turns-Turns {k = suc k} (next st rest) stuck whole =
        let (m, e, after) = Turns-Turn stuck whole st in
        let (l, q, left) = Turns-Turns rest stuck after in (l, omega (arith, e, q), left)
