-- ===== src/Dice/Exchange/Talk.antt =====
-- What the goroutine of an exchange sends and receives (dice/roller.go).
use ztg.Prelude.{
  ℕ, ◌≡◌, refl, List, [], ◌∷◌, Option, some, String, panic, arith, Result-cases, succeeded, failed,
  panicked, Option-cases, inl, inr, true, Bool-cases, ◌==◌, ==_iff, ◌⊎◌, ap,
}
use ztg.Dice.Message.{commitment, secret}
use ztg.Dice.Protocol.{
  Trace, Peer, sent, received, msg, send_commitment_failed, receive_commitment_failed,
  unexpected_commitment, send_secret_failed, receive_secret_failed, unexpected_secret,
  send_commitment_failed, receive_commitment_failed, unexpected_commitment, send_secret_failed,
  receive_secret_failed, unexpected_secret,
}
use ztg.Dice.Protocol.Secrecy.{CommitFirst}
use ztg.Dice.Exchange.Invariant.{is_talking, over, own_commitment, Committed, Stage}
use ztg.Dice.Exchange.{
  Worker, sending_commitment, receiving_commitment, sending_secret, receiving_secret,
  offering_secret, offering_commitment, offering_error, finished, Collector, returned, State, work,
}

module _ (sha256 : List ℕ → List ℕ) (peer : Option String → Peer) (own : List ℕ) where
  -- A step of the goroutine that leaves the function alone.
  pub record Went (c : Collector) (t : State Trace) : Type 0 where
    pub stage : Stage sha256 peer own t.worker t.world
    pub first : CommitFirst t.world
    pub same : (t.collector ≡ c) ⊎ (t.collector ≡ returned panic)

  gone_on :
      {c : Collector} {t : State Trace} (y : Worker) (d : Option String) (w : Trace)
      → record { worker = y; collector = c; done = d; world = w } ≡ t
      → Stage sha256 peer own y w
      → CommitFirst w
      → Went c t
  gone_on y d w h a b = rw (← h) (record { stage = a; first = b; same = inl refl })

  ended_by_panic :
      {c : Collector} {t : State Trace} (d : Option String) (w : Trace)
      → record { worker = finished; collector = returned panic; done = d; world = w } ≡ t
      → CommitFirst w
      → Went c t
  ended_by_panic d w h b = rw (← h) (record { stage = tt; first = b; same = inr refl })

  -- The secret may be sent.
  Committed-CommitFirst :
      {c : List ℕ} {w : Trace}
      → Committed sha256 peer own [] c w
      → CommitFirst w
      → CommitFirst (sent (msg secret own) ∷ w)
  Committed-CommitFirst k first =
      ((λ _. (k.commitment_msg, rw k.order (inl refl), k.is_commitment)), first)

  pub work-Went :
      (x : Worker) (c : Collector) (d : Option String) (w : Trace) (t : State Trace)
      → work sha256
          (over sha256 peer own)
          own
          (record { worker = x; collector = c; done = d; world = w })
        ≡ some t
      → Stage sha256 peer own x w
      → CommitFirst w
      → Went c t
  unfolding work
  work-Went sending_commitment c d w t h a b =
      elim (Option-cases ((peer d).send w (own_commitment sha256 peer own))) [
        | inr (e, q) ↦
            gone_on (offering_error (send_commitment_failed e)) d w (ground (arith, q, h)) tt b
        | inl q ↦
            gone_on receiving_commitment d (sent (own_commitment sha256 peer own) ∷ w)
              (ground (arith, q, h)) (rw a refl) ((λ e. absurd (omega arith)), b)
      ]
  work-Went receiving_commitment c d w t h a b = elim (Result-cases ((peer d).recv w)) [
    | failed e q ↦
        gone_on (offering_error (receive_commitment_failed e)) d w (ground (arith, q, h)) tt b
    | panicked q ↦ ended_by_panic d w (ground (arith, q, h)) b
    | succeeded m q ↦ elim (Bool-cases (m.type == commitment)) [
      | inr u ↦
          gone_on (offering_error (unexpected_commitment m.type)) d (received m ∷ w)
            (ground (arith, q, u, h)) tt b
      | inl u ↦
          gone_on (sending_secret m.data') d (received m ∷ w) (ground (arith, q, u, h))
            (record {
              commitment_msg = m;
              is_commitment = (==_iff m.type commitment).0 u;
              committed = refl;
              order = rw a refl;
            })
            b
    ]
  ]
  work-Went (sending_secret y) c d w t h a b =
      elim (Option-cases ((peer d).send w (msg secret own))) [
        | inr (e, q) ↦
            gone_on (offering_error (send_secret_failed e)) d w (ground (arith, q, h)) tt b
        | inl q ↦
            gone_on (receiving_secret y) d (sent (msg secret own) ∷ w) (ground (arith, q, h))
              (record {
                commitment_msg = a.commitment_msg;
                is_commitment = a.is_commitment;
                committed = a.committed;
                order = ap (λ z. sent (msg secret own) ∷ z) a.order;
              })
              (Committed-CommitFirst a b)
      ]
  work-Went (receiving_secret y) c d w t h a b = elim (Result-cases ((peer d).recv w)) [
    | failed e q ↦
        gone_on (offering_error (receive_secret_failed e)) d w (ground (arith, q, h)) tt b
    | panicked q ↦ ended_by_panic d w (ground (arith, q, h)) b
    | succeeded m q ↦ elim (Bool-cases (m.type == secret)) [
      | inr u ↦
          gone_on (offering_error (unexpected_secret m.type)) d (received m ∷ w)
            (ground (arith, q, u, h)) tt b
      | inl u ↦
          gone_on (offering_secret m.data' y) d (received m ∷ w) (ground (arith, q, u, h))
            (record {
              commitment_msg = a.commitment_msg;
              secret_msg = m;
              is_commitment = a.is_commitment;
              committed = a.committed;
              is_secret = (==_iff m.type secret).0 u;
              revealed = refl;
              order = ap (λ z. received m ∷ z) a.order;
            })
            b
    ]
  ]
  work-Went (offering_secret _ _) c d w t h a b = absurd (ground (arith, h))
  work-Went (offering_commitment _) c d w t h a b = absurd (ground (arith, h))
  work-Went (offering_error _) c d w t h a b = absurd (ground (arith, h))
  work-Went finished c d w t h a b = absurd (ground (arith, h))

  pub work-is_talking :
      (x : Worker) (c : Collector) (d : Option String) (w : Trace) (t : State Trace)
      → work sha256
          (over sha256 peer own)
          own
          (record { worker = x; collector = c; done = d; world = w })
        ≡ some t
      → is_talking x ≡ true
  unfolding work
  work-is_talking (offering_secret _ _) c d w t h = absurd (ground (arith, h))
  work-is_talking (offering_commitment _) c d w t h = absurd (ground (arith, h))
  work-is_talking (offering_error _) c d w t h = absurd (ground (arith, h))
  work-is_talking finished c d w t h = absurd (ground (arith, h))
  work-is_talking x c d w t h = refl
