-- ===== src/Dice/Protocol/Secrecy.antt =====
-- When a secret is sent (dice/roller.go).
use ztg.Prelude.{
  ℕ, ◌≡◌, refl, inl, inr, List, [], ◌∷◌, arith, Result, Result-cases, succeeded, failed, panicked,
  Option-cases, In, ◌==◌, ==_iff, Bool-cases,
}
use ztg.Dice.Message.{Message, commitment, secret, roll_confirmation}
use ztg.Dice.Roller.{Roller, roll}
use ztg.Dice.Protocol.{
  sent, received, Trace, Peer, Error, Context, msg, calculate_commitment, roll_sum, exchange,
  encode_rolls, confirm_roll, roll_with,
}

abbrev pub HasCommitment : Trace → Type 0
HasCommitment tr = (c : Message) × In (received c) tr × (c.type ≡ commitment)

-- Each secret in the trace was sent after a commitment had been received.
abbrev pub CommitFirst : Trace → Type 0
CommitFirst [] = Unit
CommitFirst (received m ∷ tr) = CommitFirst tr
CommitFirst (sent m ∷ tr) = (m.type ≡ secret → HasCommitment tr) × CommitFirst tr

module _ (sha256 : List ℕ → List ℕ) (p : Peer) (ctx : Context) (s : List ℕ) where
  -- The traces that an exchange may leave, however it ends.
  exchange-CommitFirst : (tr : Trace) → CommitFirst tr → CommitFirst (exchange sha256 p ctx s tr).1
  unfolding exchange
  exchange-CommitFirst tr h =
      let own = msg commitment (calculate_commitment sha256 s) in
      let tr1 = sent own ∷ tr in
      elim (Option-cases (p.send tr own)) [
        | inr (e, q) ↦ leave tr (ground (arith, q)) h
        | inl q ↦ elim (Result-cases (p.recv tr1)) [
          | failed e r ↦ leave tr1 (ground (arith, q, r)) (opened h)
          | panicked r ↦ leave tr1 (ground (arith, q, r)) (opened h)
          | succeeded c r ↦ elim (Bool-cases (c.type == commitment)) [
            | inr t ↦ leave (received c ∷ tr1) (ground (arith, q, r, t)) (opened h)
            | inl t ↦ elim (Option-cases (p.send (received c ∷ tr1) (msg secret s))) [
              | inr (e, u) ↦ leave (received c ∷ tr1) (ground (arith, q, r, t, u)) (opened h)
              | inl u ↦
                  let tr2 = sent (msg secret s) ∷ received c ∷ tr1 in
                  let known : CommitFirst tr2 =
                    ((λ _. (c, inl refl, (==_iff c.type commitment).0 t)), opened h) in
                  elim (Result-cases (p.recv tr2)) [
                    | failed e v ↦ leave tr2 (ground (arith, q, r, t, u, v)) known
                    | panicked v ↦ leave tr2 (ground (arith, q, r, t, u, v)) known
                    | succeeded d v ↦ leave (received d ∷ tr2) (ground (arith, q, r, t, u, v)) known
                  ]
            ]
          ]
        ]
      ]
    where
      opened :
          CommitFirst tr → CommitFirst (sent (msg commitment (calculate_commitment sha256 s)) ∷ tr)
      opened c = ((λ e. absurd (omega arith)), c)

      leave :
          (x : Trace)
          → (exchange sha256 p ctx s tr).1 ≡ x
          → CommitFirst x
          → CommitFirst (exchange sha256 p ctx s tr).1
      leave x e c = rw e c

  confirm_roll-CommitFirst :
      (rolls : List ℕ) (tr : Trace)
      → CommitFirst tr
      → CommitFirst (confirm_roll sha256 p rolls tr).1
  unfolding confirm_roll
  confirm_roll-CommitFirst rolls tr h =
      let own = msg roll_confirmation (encode_rolls rolls) in
      elim (Option-cases (p.send tr own)) [
        | inr (e, q) ↦ leave tr (ground (arith, q)) h
        | inl q ↦ elim (Result-cases (p.recv (sent own ∷ tr))) [
          | failed e r ↦ leave (sent own ∷ tr) (ground (arith, q, r)) said
          | panicked r ↦ leave (sent own ∷ tr) (ground (arith, q, r)) said
          | succeeded m r ↦ leave (received m ∷ sent own ∷ tr) (ground (arith, q, r)) said
        ]
      ]
    where
      said : CommitFirst (sent (msg roll_confirmation (encode_rolls rolls)) ∷ tr)
      said = ((λ e. absurd (omega arith)), h)

      leave :
          (x : Trace)
          → (confirm_roll sha256 p rolls tr).1 ≡ x
          → CommitFirst x
          → CommitFirst (confirm_roll sha256 p rolls tr).1
      leave x e c = rw e c

  -- However a roll ends and whatever the peer does, each secret that was sent was sent after a
  -- commitment of the peer had been received.
  pub roll_with-CommitFirst : (r : Roller) → CommitFirst (roll_with sha256 p r ctx s []).1
  unfolding roll_with
  roll_with-CommitFirst r =
      let mid = (exchange sha256 p ctx s []).1 in
      let kept : CommitFirst mid = exchange-CommitFirst [] tt in
      elim (Result-cases (exchange sha256 p ctx s []).0) [
        | failed e q ↦ leave mid (ground (arith, q)) kept
        | panicked q ↦ leave mid (ground (arith, q)) kept
        | succeeded x q ↦
            let rolled : Result Error (List ℕ) = roll r (roll_sum sha256 s x) in
            elim (Result-cases rolled) [
              | failed e u ↦ leave mid (ground (arith, q, u)) kept
              | panicked u ↦ leave mid (ground (arith, q, u)) kept
              | succeeded rs u ↦
                  leave (confirm_roll sha256 p rs mid).1 (ground (arith, q, u))
                    (confirm_roll-CommitFirst rs mid kept)
            ]
      ]
    where
      leave :
          (x : Trace)
          → (roll_with sha256 p r ctx s []).1 ≡ x
          → CommitFirst x
          → CommitFirst (roll_with sha256 p r ctx s []).1
      leave x e c = rw e c
