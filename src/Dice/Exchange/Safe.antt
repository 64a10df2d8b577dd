-- ===== src/Dice/Exchange/Safe.antt =====
-- What the goroutine of an exchange and the function that waits for it do together, in any order of
-- their steps (dice/roller.go).
use ztg.Prelude.{
  ℕ, ◌≡◌, refl, List, [], Option, some, String, ok, err, panic, arith, Result-cases, succeeded,
  failed, panicked, inl, inr,
}
use ztg.Dice.Protocol.{Trace, Peer, context_done, verify_commitment}
use ztg.Dice.Protocol.Secrecy.{CommitFirst}
use ztg.Dice.Exchange.Invariant.{
  over, Stage, Held, Exchanged, Inv, Held-is_talking, Both-IsExchange, Held-offering_error,
  Held-panic, Held-Exchanged,
}
use ztg.Dice.Exchange.Talk.{work-Went, work-is_talking}
use ztg.Dice.Exchange.{
  Worker, offering_secret, offering_commitment, offering_error, finished, Collector,
  awaiting_secret, awaiting_commitment, returned, State, started, hand_over, give_up, leave, works,
  hands_over, Step, progresses, gives_up, leaves, is_done, Reach, here, later,
}

module _ (sha256 : List ℕ → List ℕ) (peer : Option String → Peer) (own : List ℕ) where
  inv :
      {t : State Trace} (y : Worker) (c : Collector) (d : Option String) (w : Trace)
      → record { worker = y; collector = c; done = d; world = w } ≡ t
      → Stage sha256 peer own y w
      → Held sha256 peer own c y w
      → CommitFirst w
      → Inv sha256 peer own t
  inv y c d w h a k b = rw (← h) (record { stage = a; held = k; first = b })

  hand_over-Inv :
      (x : Worker) (c : Collector) (d : Option String) (w : Trace) (t : State Trace)
      → hand_over sha256
          (over sha256 peer own)
          own
          (record { worker = x; collector = c; done = d; world = w })
        ≡ some t
      → Stage sha256 peer own x w
      → Held sha256 peer own c x w
      → CommitFirst w
      → Inv sha256 peer own t
  unfolding hand_over
  hand_over-Inv (offering_secret p y) awaiting_secret d w t h a k b =
      inv (offering_commitment y) (awaiting_commitment p) d w (ground (arith, h)) tt a b
  hand_over-Inv (offering_commitment y) (awaiting_commitment p) d w t h a k b =
      elim (Result-cases (verify_commitment sha256 p y)) [
        | succeeded u q ↦
            inv finished (returned (ok p)) d w (ground (arith, q, h)) tt
              (Both-IsExchange sha256 peer own k q) b
        | failed e q ↦ inv finished (returned (err e)) d w (ground (arith, q, h)) tt tt b
        | panicked q ↦ inv finished (returned panic) d w (ground (arith, q, h)) tt tt b
      ]
  hand_over-Inv (offering_error e) awaiting_secret d w t h a k b =
      inv finished (returned (err e)) d w (ground (arith, h)) tt tt b
  hand_over-Inv (offering_error e) (awaiting_commitment p) d w t h a k b =
      inv finished (returned (err e)) d w (ground (arith, h)) tt tt b
  hand_over-Inv x c d w t h a k b = absurd (ground (arith, h))

  give_up-Inv :
      (x : Worker) (c : Collector) (d : Option String) (w : Trace) (t : State Trace)
      → give_up sha256
          (over sha256 peer own)
          own
          (record { worker = x; collector = c; done = d; world = w })
        ≡ some t
      → Held sha256 peer own c x w
      → CommitFirst w
      → Inv sha256 peer own t
  unfolding give_up
  give_up-Inv (offering_secret p y) c (some e) w t h k b =
      inv (offering_error (context_done e)) c (some e) w (ground (arith, h)) tt
        (Held-offering_error sha256 peer own c (offering_secret p y) _ w refl k) b
  give_up-Inv (offering_commitment y) c (some e) w t h k b =
      inv (offering_error (context_done e)) c (some e) w (ground (arith, h)) tt
        (Held-offering_error sha256 peer own c (offering_commitment y) _ w refl k) b
  give_up-Inv x c d w t h k b = absurd (ground (arith, h))

  leave-Inv :
      (x : Worker) (c : Collector) (d : Option String) (w : Trace) (t : State Trace)
      → leave sha256
          (over sha256 peer own)
          own
          (record { worker = x; collector = c; done = d; world = w })
        ≡ some t
      → Stage sha256 peer own x w
      → CommitFirst w
      → Inv sha256 peer own t
  unfolding leave
  leave-Inv x awaiting_secret (some e) w t h a b =
      inv x (returned (err (context_done e))) (some e) w (ground (arith, h)) a tt b
  leave-Inv x (awaiting_commitment p) (some e) w t h a b =
      inv x (returned (err (context_done e))) (some e) w (ground (arith, h)) a tt b
  leave-Inv x c d w t h a b = absurd (ground (arith, h))

  Step-Inv :
      {s t : State Trace}
      → Step sha256 (over sha256 peer own) own s t
      → Inv sha256 peer own s
      → Inv sha256 peer own t
  Step-Inv {s} {t} (progresses (works h)) i =
      let moved =
        work-Went sha256 peer own s.worker s.collector s.done s.world t h i.stage i.first in
      let talks = work-is_talking sha256 peer own s.worker s.collector s.done s.world t h in
      record {
        stage = moved.stage;
        first = moved.first;
        held = elim moved.same [
          | inl same ↦ rw same (
              Held-is_talking sha256 peer own s.collector s.worker t.worker s.world t.world talks
                i.held)
          | inr same ↦ Held-panic sha256 peer own t.worker t.world same
        ];
      }
  Step-Inv {s} {t} (progresses (hands_over h)) i =
      hand_over-Inv s.worker s.collector s.done s.world t h i.stage i.held i.first
  Step-Inv {s} {t} (gives_up h) i =
      give_up-Inv s.worker s.collector s.done s.world t h i.held i.first
  Step-Inv {s} {t} (leaves h) i = leave-Inv s.worker s.collector s.done s.world t h i.stage i.first
  Step-Inv {s} {t} (is_done e n h) i =
      rw h (record { stage = i.stage; held = i.held; first = i.first })

  Reach-Inv :
      {s t : State Trace}
      → Reach sha256 (over sha256 peer own) own s t
      → Inv sha256 peer own s
      → Inv sha256 peer own t
  Reach-Inv here i = i
  Reach-Inv (later r st) i = Step-Inv st (Reach-Inv r i)

  -- In whatever order the goroutine and the waiting function make their steps, whenever the context
  -- is done and whatever the peer does: each secret that was sent was sent after a commitment of the
  -- peer had been received, and a waiting function that has returned a secret without an error has
  -- seen the four messages of the protocol in their order, with that secret under the commitment.
  pub Reach-Exchanged :
      (t : State Trace)
      → Reach sha256 (over sha256 peer own) own (started []) t
      → CommitFirst t.world × Exchanged sha256 peer own t.collector t.world
  Reach-Exchanged t r =
      let i = Reach-Inv r (record { stage = refl; held = tt; first = tt }) in
      (i.first, Held-Exchanged sha256 peer own t.collector t.worker t.world i.held)
