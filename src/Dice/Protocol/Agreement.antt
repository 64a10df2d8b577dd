-- ===== src/Dice/Protocol/Agreement.antt =====
-- The rolls of two players, and the order in which their secrets are hashed (dice/roller.go).
use ztg.Prelude.{
  ℕ, ◌≡◌, ap, ◌∙◌, List, inl, inr, ok, arith, Bool-cases, Result, Result-cases, succeeded, failed,
  panicked,
}
use ztg.Prelude.Bytes.{bytes_gt, bytes_gt_asym, bytes_gt_antisym}
use ztg.Dice.Roller.{Roller, roll}
use ztg.Dice.Protocol.{Trace, Peer, Error, Context, roll_sum, exchange, confirm_roll, roll_with}

module _ (sha256 : List ℕ → List ℕ) where
  -- The hash does not depend on which player computes it.
  pub roll_sum_comm : (a b : List ℕ) → roll_sum sha256 a b ≡ roll_sum sha256 b a
  unfolding roll_sum
  roll_sum_comm a b = elim (Bool-cases (bytes_gt a b)) [
    | inl h ↦ rw (h, bytes_gt_asym a b h)
    | inr h ↦ elim (Bool-cases (bytes_gt b a)) [
      | inl k ↦ rw (h, k)
      | inr k ↦ rw (bytes_gt_antisym a b h k)
    ]
  ]

  -- The rolls are those of the secret that the exchange brought.
  rolled :
      (r : Roller) (p : Peer) (ctx : Context) (s x rolls : List ℕ) (tr : Trace)
      → (exchange sha256 p ctx s tr).0 ≡ ok x
      → (roll_with sha256 p r ctx s tr).0 ≡ ok rolls
      → ◌≡◌ {A = Result Error (List ℕ)} (roll r (roll_sum sha256 s x)) (ok rolls)
  unfolding roll_with
  rolled r p ctx s x rolls tr q h =
      let mid = (exchange sha256 p ctx s tr).1 in
      let result : Result Error (List ℕ) = roll r (roll_sum sha256 s x) in
      elim (Result-cases result) [
        | failed e u ↦ absurd (ground (arith, q, u, h))
        | panicked u ↦ absurd (ground (arith, q, u, h))
        | succeeded rs u ↦ elim (Result-cases (confirm_roll sha256 p rs mid).0) [
          | failed e v ↦ absurd (ground (arith, q, u, v, h))
          | panicked v ↦ absurd (ground (arith, q, u, v, h))
          | succeeded _ v ↦ let same : rs ≡ rolls = ground (arith, q, u, v, h) in u ∙ ap ok same
        ]
      ]

  -- Two players with the same die whose rolls succeed, and whose exchanges brought each of them the
  -- secret of the other, hold the same rolls.
  pub roll_with-agree :
      (r : Roller) (p q : Peer) (ctx ctx' : Context) (a b rolls rolls' : List ℕ) (tr tr' : Trace)
      → (exchange sha256 p ctx a tr).0 ≡ ok b
      → (exchange sha256 q ctx' b tr').0 ≡ ok a
      → (roll_with sha256 p r ctx a tr).0 ≡ ok rolls
      → (roll_with sha256 q r ctx' b tr').0 ≡ ok rolls'
      → rolls ≡ rolls'
  roll_with-agree r p q ctx ctx' a b rolls rolls' tr tr' e f h k =
      let x = rolled r p ctx a b rolls tr e h in
      let y = rolled r q ctx' b a rolls' tr' f k in cc (x, y, roll_sum_comm a b)
