-- ===== src/Dice/Exchange/Leak.antt =====
-- What is left of an exchange whose caller has gone (dice/roller.go).
use ztg.Prelude.{
  ℕ, ◌≡◌, ◌⊎◌, inl, inr, refl, Bool, true, false, List, Option, none, some, String, panic, arith,
  ap, ◌∙◌, Result-cases, succeeded, failed, panicked,
}
use ztg.Dice.Message.{commitment, secret}
use ztg.Dice.Protocol.{msg, calculate_commitment}
use ztg.Dice.Process.{Endpoint}
use ztg.Dice.Exchange.{
  Worker, sending_commitment, receiving_commitment, sending_secret, receiving_secret,
  offering_secret, offering_commitment, offering_error, finished, Collector, returned, State,
  started, work, hand_over, give_up, leave, works, hands_over, Step, progresses, gives_up, leaves,
  is_done, Reach, here, later,
}

abbrev pub has_finished : Worker → Bool
has_finished finished = true
has_finished _ = false

abbrev pub has_returned : Collector → Bool
has_returned (returned _) = true
has_returned _ = false

module _ {W : Type 0} (sha256 : List ℕ → List ℕ) (peer : Option String → Endpoint W)
    (own : List ℕ) where
  -- The goroutine's own steps leave the function alone and do not end the goroutine, but for a panic.
  work-cases :
      (x : Worker) (c : Collector) (d : Option String) (w : W) (t : State W)
      → work sha256 peer own (record { worker = x; collector = c; done = d; world = w }) ≡ some t
      → ((t.collector ≡ c) × (has_finished t.worker ≡ false)) ⊎ (t.collector ≡ returned panic)
  unfolding work
  work-cases sending_commitment c d w t h =
      elim (Result-cases ((peer d).send (msg commitment (calculate_commitment sha256 own)) w).0) [
        | succeeded _ q ↦ inl (ground (arith, q, h), ground (arith, q, h))
        | failed e q ↦ inl (ground (arith, q, h), ground (arith, q, h))
        | panicked q ↦ inr (ground (arith, q, h))
      ]
  work-cases receiving_commitment c d w t h = elim (Result-cases ((peer d).recv w).0) [
    | succeeded _ q ↦ inl (ground (arith, q, h), ground (arith, q, h))
    | failed e q ↦ inl (ground (arith, q, h), ground (arith, q, h))
    | panicked q ↦ inr (ground (arith, q, h))
  ]
  work-cases (sending_secret y) c d w t h =
      elim (Result-cases ((peer d).send (msg secret own) w).0) [
        | succeeded _ q ↦ inl (ground (arith, q, h), ground (arith, q, h))
        | failed e q ↦ inl (ground (arith, q, h), ground (arith, q, h))
        | panicked q ↦ inr (ground (arith, q, h))
      ]
  work-cases (receiving_secret y) c d w t h = elim (Result-cases ((peer d).recv w).0) [
    | succeeded _ q ↦ inl (ground (arith, q, h), ground (arith, q, h))
    | failed e q ↦ inl (ground (arith, q, h), ground (arith, q, h))
    | panicked q ↦ inr (ground (arith, q, h))
  ]
  work-cases (offering_secret _ _) c d w t h = absurd (ground (arith, h))
  work-cases (offering_commitment _) c d w t h = absurd (ground (arith, h))
  work-cases (offering_error _) c d w t h = absurd (ground (arith, h))
  work-cases finished c d w t h = absurd (ground (arith, h))

  -- A function that has returned takes no part in a step.
  hand_over-returned :
      (x : Worker) (c : Collector) (d : Option String) (w : W)
      → has_returned c ≡ true
      → hand_over sha256 peer own (record { worker = x; collector = c; done = d; world = w }) ≡ none
  unfolding hand_over
  hand_over-returned (offering_secret _ _) c d w h = ground arith
  hand_over-returned (offering_commitment _) c d w h = ground arith
  hand_over-returned (offering_error _) c d w h = ground arith
  hand_over-returned x c d w h = ground arith

  leave-returned :
      (x : Worker) (c : Collector) (d : Option String) (w : W)
      → has_returned c ≡ true
      → leave sha256 peer own (record { worker = x; collector = c; done = d; world = w }) ≡ none
  unfolding leave
  leave-returned x c d w h = ground arith

  give_up-cases :
      (x : Worker) (c : Collector) (d : Option String) (w : W) (t : State W)
      → give_up sha256 peer own (record { worker = x; collector = c; done = d; world = w }) ≡ some t
      → (t.collector ≡ c) × (has_finished t.worker ≡ false)
  unfolding give_up
  give_up-cases (offering_secret _ _) c d w t h = ground (arith, h)
  give_up-cases (offering_commitment _) c d w t h = ground (arith, h)
  give_up-cases x c d w t h = absurd (ground (arith, h))

  -- The function has returned and the goroutine has not ended.
  pub record IsAbandoned (s : State W) : Type 0 where
    pub gone : has_returned s.collector ≡ true
    pub left : has_finished s.worker ≡ false

  abbrev pub AbandonedOrPanic : State W → Type 0
  AbandonedOrPanic s = IsAbandoned s ⊎ (s.collector ≡ returned panic)

  Step-AbandonedOrPanic :
      {s t : State W} → Step sha256 peer own s t → AbandonedOrPanic s → AbandonedOrPanic t
  Step-AbandonedOrPanic {s} {t} (progresses (works h)) p =
      elim (work-cases s.worker s.collector s.done s.world t h) [
        | inr e ↦ inr e
        | inl (same, going) ↦ elim p [
          | inl a ↦ inl (record { gone = rw same a.gone; left = going })
          | inr e ↦ inr (same ∙ e)
        ]
      ]
  Step-AbandonedOrPanic {s} {t} (progresses (hands_over h)) p =
      absurd (ground (arith, h, hand_over-returned s.worker s.collector s.done s.world, p))
  Step-AbandonedOrPanic {s} {t} (gives_up h) p =
      let (same, going) = give_up-cases s.worker s.collector s.done s.world t h in
      elim p [
        | inl a ↦ inl (record { gone = rw same a.gone; left = going })
        | inr e ↦ inr (same ∙ e)
      ]
  Step-AbandonedOrPanic {s} {t} (leaves h) p =
      absurd (ground (arith, h, leave-returned s.worker s.collector s.done s.world, p))
  Step-AbandonedOrPanic {s} {t} (is_done e n h) p =
      rw h (elim p [ inl a ↦ inl (record { gone = a.gone; left = a.left }) | inr e ↦ inr e ])

  Reach-AbandonedOrPanic :
      {s t : State W} → Reach sha256 peer own s t → AbandonedOrPanic s → AbandonedOrPanic t
  Reach-AbandonedOrPanic here p = p
  Reach-AbandonedOrPanic (later r st) p = Step-AbandonedOrPanic st (Reach-AbandonedOrPanic r p)

  -- The goroutine ends only where the function returns.
  hand_over-waits :
      (x : Worker) (c : Collector) (d : Option String) (w : W) (t : State W)
      → hand_over sha256 peer own (record { worker = x; collector = c; done = d; world = w })
        ≡ some t
      → has_returned t.collector ≡ false
      → has_finished t.worker ≡ false
  unfolding hand_over
  hand_over-waits (offering_secret _ _) c d w t h k = ground (arith, h, k)
  hand_over-waits (offering_commitment _) c d w t h k = absurd (ground (arith, h, k))
  hand_over-waits (offering_error _) c d w t h k = absurd (ground (arith, h, k))
  hand_over-waits x c d w t h k = absurd (ground (arith, h))

  leave-cases :
      (x : Worker) (c : Collector) (d : Option String) (w : W) (t : State W)
      → leave sha256 peer own (record { worker = x; collector = c; done = d; world = w }) ≡ some t
      → (has_returned t.collector ≡ true) × (has_returned c ≡ false) × (t.worker ≡ x)
  unfolding leave
  leave-cases x c d w t h = ground (arith, h)

  Step-waits :
      {s t : State W}
      → Step sha256 peer own s t
      → (has_returned s.collector ≡ false → has_finished s.worker ≡ false)
      → has_returned t.collector ≡ false
      → has_finished t.worker ≡ false
  Step-waits {s} {t} (progresses (works h)) before k =
      elim (work-cases s.worker s.collector s.done s.world t h) [
        | inl (_, going) ↦ going
        | inr e ↦ absurd (ground (arith, e, k))
      ]
  Step-waits {s} {t} (progresses (hands_over h)) before k =
      hand_over-waits s.worker s.collector s.done s.world t h k
  Step-waits {s} {t} (gives_up h) before k =
      (give_up-cases s.worker s.collector s.done s.world t h).1
  Step-waits {s} {t} (leaves h) before k =
      absurd (ground (arith, k, leave-cases s.worker s.collector s.done s.world t h))
  Step-waits {s} {t} (is_done e n h) before k = rw h (before (rw h at k))

  Reach-waits :
      {w : W} {t : State W}
      → Reach sha256 peer own (started w) t
      → has_returned t.collector ≡ false
      → has_finished t.worker ≡ false
  Reach-waits here k = refl
  Reach-waits (later r st) k = Step-waits st (Reach-waits r) k

  -- Once the waiting function has left because the context is done, the goroutine never ends, in
  -- whatever order the steps are made, unless the peer panics.
  pub leave-abandons :
      (w : W) (t u v : State W)
      → Reach sha256 peer own (started w) t
      → leave sha256 peer own t ≡ some u
      → Reach sha256 peer own u v
      → (has_finished v.worker ≡ false) ⊎ (v.collector ≡ returned panic)
  leave-abandons w t u v before left after =
      let (gone, waited, same) = leave-cases t.worker t.collector t.done t.world u left in
      let abandoned : IsAbandoned u = record {
        gone = gone;
        left = ap has_finished same ∙ Reach-waits before waited;
      } in
      elim (Reach-AbandonedOrPanic after (inl abandoned)) [ inl a ↦ inl a.left | inr e ↦ inr e ]
