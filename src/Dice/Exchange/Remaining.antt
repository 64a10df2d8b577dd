-- ===== src/Dice/Exchange/Remaining.antt =====
-- What is left of an exchange whose context is not done (dice/roller.go).
use ztg.Prelude.{
  ℕ, zero, ◌<◌, ◌≡◌, ◌⊎◌, inl, inr, refl, List, Option, none, some, String, Result, ok, err, panic,
  arith, ◌>>=◌, Result-cases, succeeded, failed, panicked, Bool-cases, ◌==◌,
}
use ztg.Dice.Message.{commitment, secret}
use ztg.Dice.Protocol.{
  Error, send_commitment_failed, send_secret_failed, receive_commitment_failed,
  receive_secret_failed, unexpected_commitment, unexpected_secret, msg, expect,
  calculate_commitment, verify_commitment,
}
use ztg.Dice.Process.{open_ended, Endpoint, Process, send, recv, stop, after, exchange_process, run}
use ztg.Dice.Exchange.{
  Worker, sending_commitment, receiving_commitment, sending_secret, receiving_secret,
  offering_secret, offering_commitment, offering_error, finished, Collector, awaiting_secret,
  awaiting_commitment, returned, State, work, hand_over, Progress, works, hands_over,
}

module _ {W : Type 0} (sha256 : List ℕ → List ℕ) (peer : Option String → Endpoint W)
    (own : List ℕ) where
  -- The exchange as one function that talks to the peer.
  abbrev pub in_one : W → Result Error (List ℕ) × W
  in_one w = run (peer none) (exchange_process sha256 open_ended own λ p. stop (ok p)) w

  -- What is left of it.
  abbrev verified : List ℕ → List ℕ → Process
  verified p c = after (verify_commitment sha256 p c) λ _. stop (ok p)

  abbrev remaining : Worker → Process
  remaining sending_commitment = exchange_process sha256 open_ended own λ p. stop (ok p)
  remaining receiving_commitment = recv receive_commitment_failed λ c.
      after (expect commitment unexpected_commitment c) λ _.
        send send_secret_failed (msg secret own) (
          recv receive_secret_failed
            λ p. after (expect secret unexpected_secret p) λ _. verified p.data' c.data')
  remaining (sending_secret c) = send send_secret_failed (msg secret own) (
      recv receive_secret_failed
        λ p. after (expect secret unexpected_secret p) λ _. verified p.data' c)
  remaining (receiving_secret c) =
      recv receive_secret_failed
        λ p. after (expect secret unexpected_secret p) λ _. verified p.data' c
  remaining (offering_secret p c) = verified p c
  remaining (offering_error e) = stop (err e)
  remaining _ = stop panic

  -- An exchange that is to end with the outcome `o`.
  abbrev pub At : Worker → Collector → W → Result Error (List ℕ) × W → Type 0
  At (offering_commitment c) (awaiting_commitment p) w o = run (peer none) (verified p c) w ≡ o
  At (offering_commitment c) _ w o = ⊥
  At finished (returned r) w o = (r, w) ≡ o
  At finished _ w o = ⊥
  At x awaiting_secret w o = run (peer none) (remaining x) w ≡ o
  At x _ w o = ⊥

  pub record Is (o : Result Error (List ℕ) × W) (s : State W) : Type 0 where
    pub at : At s.worker s.collector s.world o
    pub undone : s.done ≡ none

  -- How many steps are left at most.
  abbrev pub left : Worker → ℕ
  left sending_commitment = 6
  left receiving_commitment = 5
  left (sending_secret _) = 4
  left (receiving_secret _) = 3
  left (offering_secret _ _) = 2
  left (offering_commitment _) = 1
  left (offering_error _) = 1
  left finished = 0

  -- A state with its next one.
  pub record Goes (o : Result Error (List ℕ) × W) (s : State W) : Type 0 where
    pub next : State W
    pub step : Progress sha256 peer own s next
    pub is : Is o next
    pub fewer : left next.worker < left s.worker

  gone_on :
      {o : Result Error (List ℕ) × W} (x y : Worker) (w v : W)
      → work sha256 peer own
          (record { worker = x; collector = awaiting_secret; done = none; world = w })
        ≡ some (record { worker = y; collector = awaiting_secret; done = none; world = v })
      → At y awaiting_secret v o
      → left y < left x
      → (x ≡ finished)
        ⊎ Goes o (record { worker = x; collector = awaiting_secret; done = none; world = w })
  gone_on x y w v h a l = inr (record {
    next = record { worker = y; collector = awaiting_secret; done = none; world = v };
    step = works h;
    is = record { at = a; undone = refl };
    fewer = l;
  })

  ended_by_panic :
      {o : Result Error (List ℕ) × W} (x : Worker) (w v : W)
      → work sha256 peer own
          (record { worker = x; collector = awaiting_secret; done = none; world = w })
        ≡ some (record { worker = finished; collector = returned panic; done = none; world = v })
      → (panic, v) ≡ o
      → zero < left x
      → (x ≡ finished)
        ⊎ Goes o (record { worker = x; collector = awaiting_secret; done = none; world = w })
  ended_by_panic x w v h a l = inr (record {
    next = record { worker = finished; collector = returned panic; done = none; world = v };
    step = works h;
    is = record { at = a; undone = refl };
    fewer = l;
  })

  At-verified :
      (p c : List ℕ) (w : W) (o : Result Error (List ℕ) × W)
      → run (peer none) (verified p c) w ≡ o
      → (verify_commitment sha256 p c >>= λ _. ok p, w) ≡ o
  unfolding run
  At-verified p c w o a = elim (Result-cases (verify_commitment sha256 p c)) [
    | succeeded _ q ↦ ground (arith, q, a)
    | failed e q ↦ ground (arith, q, a)
    | panicked q ↦ ground (arith, q, a)
  ]

  pub At-Goes :
      (x : Worker) (c : Collector) (w : W) (o : Result Error (List ℕ) × W)
      → At x c w o
      → (x ≡ finished) ⊎ Goes o (record { worker = x; collector = c; done = none; world = w })
  unfolding work hand_over run
  At-Goes sending_commitment awaiting_secret w o a =
      let m = msg commitment (calculate_commitment sha256 own) in
      let v = ((peer none).send m w).1 in
      elim (Result-cases ((peer none).send m w).0) [
        | succeeded _ q ↦
            gone_on sending_commitment receiving_commitment w v (ground (arith, q))
              (ground (arith, q, a)) (omega arith)
        | failed e q ↦
            gone_on sending_commitment (offering_error (send_commitment_failed e)) w v
              (ground (arith, q)) (ground (arith, q, a)) (omega arith)
        | panicked q ↦
            ended_by_panic sending_commitment w v (ground (arith, q)) (ground (arith, q, a))
              (omega arith)
      ]
  At-Goes receiving_commitment awaiting_secret w o a =
      let v = ((peer none).recv w).1 in
      elim (Result-cases ((peer none).recv w).0) [
        | succeeded m q ↦ elim (Bool-cases (m.type == commitment)) [
          | inl u ↦
              gone_on receiving_commitment (sending_secret m.data') w v (ground (arith, q, u))
                (ground (arith, q, a, u)) (omega arith)
          | inr u ↦
              gone_on receiving_commitment (offering_error (unexpected_commitment m.type)) w v
                (ground (arith, q, u)) (ground (arith, q, a, u)) (omega arith)
        ]
        | failed e q ↦
            gone_on receiving_commitment (offering_error (receive_commitment_failed e)) w v
              (ground (arith, q)) (ground (arith, q, a)) (omega arith)
        | panicked q ↦
            ended_by_panic receiving_commitment w v (ground (arith, q)) (ground (arith, q, a))
              (omega arith)
      ]
  At-Goes (sending_secret y) awaiting_secret w o a =
      let m = msg secret own in
      let v = ((peer none).send m w).1 in
      elim (Result-cases ((peer none).send m w).0) [
        | succeeded _ q ↦
            gone_on (sending_secret y) (receiving_secret y) w v (ground (arith, q))
              (ground (arith, q, a)) (omega arith)
        | failed e q ↦
            gone_on (sending_secret y) (offering_error (send_secret_failed e)) w v
              (ground (arith, q)) (ground (arith, q, a)) (omega arith)
        | panicked q ↦
            ended_by_panic (sending_secret y) w v (ground (arith, q)) (ground (arith, q, a))
              (omega arith)
      ]
  At-Goes (receiving_secret y) awaiting_secret w o a =
      let v = ((peer none).recv w).1 in
      elim (Result-cases ((peer none).recv w).0) [
        | succeeded m q ↦ elim (Bool-cases (m.type == secret)) [
          | inl u ↦
              gone_on (receiving_secret y) (offering_secret m.data' y) w v (ground (arith, q, u))
                (ground (arith, q, a, u)) (omega arith)
          | inr u ↦
              gone_on (receiving_secret y) (offering_error (unexpected_secret m.type)) w v
                (ground (arith, q, u)) (ground (arith, q, a, u)) (omega arith)
        ]
        | failed e q ↦
            gone_on (receiving_secret y) (offering_error (receive_secret_failed e)) w v
              (ground (arith, q)) (ground (arith, q, a)) (omega arith)
        | panicked q ↦
            ended_by_panic (receiving_secret y) w v (ground (arith, q)) (ground (arith, q, a))
              (omega arith)
      ]
  At-Goes (offering_secret p y) awaiting_secret w o a = inr (record {
    next = record {
      worker = offering_commitment y;
      collector = awaiting_commitment p;
      done = none;
      world = w;
    };
    step = hands_over refl;
    is = record { at = a; undone = refl };
    fewer = omega arith;
  })
  At-Goes (offering_commitment y) (awaiting_commitment p) w o a = inr (record {
    next = record {
      worker = finished;
      collector = returned (verify_commitment sha256 p y >>= λ _. ok p);
      done = none;
      world = w;
    };
    step = hands_over refl;
    is = record { at = At-verified p y w o a; undone = refl };
    fewer = omega arith;
  })
  At-Goes (offering_error e) awaiting_secret w o a = inr (record {
    next = record { worker = finished; collector = returned (err e); done = none; world = w };
    step = hands_over refl;
    is = record { at = a; undone = refl };
    fewer = omega arith;
  })
  At-Goes finished (returned r) w o a = inl refl
  At-Goes x c w o a = absurd a
