-- ===== src/Dice/Exchange.antt =====
-- The exchange of a roll (`startExchange` of dice/roller.go) with its two sides: the goroutine that
-- talks to the peer, and the function that waits for what the goroutine hands over. The channels
-- between them have no place, so a hand-over is one step of both. The context may be done at any time.
pub mod Invariant
pub mod Talk
pub mod Safe
pub mod Remaining
pub mod Finishes
pub mod Leak
mod Tests
use ztg.Prelude.{
  ℕ, zero, suc, ◌≡◌, List, Option, none, some, String, Result, ok, err, panic, ◌>>=◌, ◌==◌,
  if◌then◌else◌,
}
use ztg.Dice.Message.{Message, MsgType, commitment, secret}
use ztg.Dice.Protocol.{
  Error, send_commitment_failed, receive_commitment_failed, send_secret_failed,
  receive_secret_failed, unexpected_commitment, unexpected_secret, context_done, msg,
  calculate_commitment, verify_commitment,
}
use ztg.Dice.Process.{Endpoint}

-- Where the goroutine is, with the data of the peer's messages that it still needs.
pub data Worker : Type 0 where
  sending_commitment receiving_commitment : Worker
  sending_secret receiving_secret : List ℕ → Worker
  offering_secret : List ℕ → List ℕ → Worker
  offering_commitment : List ℕ → Worker
  offering_error : Error → Worker
  finished : Worker

-- Where the function is that the goroutine hands over to.
pub data Collector : Type 0 where
  awaiting_secret : Collector
  awaiting_commitment : List ℕ → Collector
  returned : Result Error (List ℕ) → Collector

-- `done` is the error of the context once it is done.
pub record State (W : Type 0) : Type 0 where
  pub worker : Worker
  pub collector : Collector
  pub done : Option String
  pub world : W

abbrev pub started : {W : Type 0} → W → State W
started w = record {
  worker = sending_commitment;
  collector = awaiting_secret;
  done = none;
  world = w;
}

module _ {W : Type 0} where
  -- A panic of the peer ends the program.
  abbrev pub after_sending :
      (String → Error) → Worker → State W → Result String (Unit {0}) × W → State W
  after_sending wrap next s (ok _, w) = record s { worker = next; world = w }
  after_sending wrap next s (err e, w) = record s { worker = offering_error (wrap e); world = w }
  after_sending wrap next s (panic, w) = record s {
    worker = finished;
    collector = returned panic;
    world = w;
  }

  abbrev pub after_receiving :
      (String → Error)
      → MsgType
      → (MsgType → Error)
      → (List ℕ → Worker)
      → State W
      → Result String Message × W
      → State W
  after_receiving wrap t unexpected next s (ok m, w) = record s {
    worker = if m.type == t then next m.data' else offering_error (unexpected m.type);
    world = w;
  }
  after_receiving wrap t unexpected next s (err e, w) = record s {
    worker = offering_error (wrap e);
    world = w;
  }
  after_receiving wrap t unexpected next s (panic, w) = record s {
    worker = finished;
    collector = returned panic;
    world = w;
  }

  -- The peer sees the context, too.
  module _ (sha256 : List ℕ → List ℕ) (peer : Option String → Endpoint W) (own : List ℕ) where
    abbrev pub work_at : Worker → State W → Option (State W)
    work_at sending_commitment s = some (
        after_sending send_commitment_failed receiving_commitment s
          ((peer s.done).send (msg commitment (calculate_commitment sha256 own)) s.world))
    work_at receiving_commitment s = some (
        after_receiving receive_commitment_failed commitment unexpected_commitment sending_secret s
          ((peer s.done).recv s.world))
    work_at (sending_secret c) s = some (
        after_sending send_secret_failed (receiving_secret c) s
          ((peer s.done).send (msg secret own) s.world))
    work_at (receiving_secret c) s = some (
        after_receiving receive_secret_failed secret unexpected_secret (λ p. offering_secret p c) s
          ((peer s.done).recv s.world))
    work_at _ s = none

    -- The goroutine talks to the peer.
    unfoldable pub work : State W → Option (State W)
    work s = work_at s.worker s

    abbrev pub hand_over_at : Worker → Collector → State W → Option (State W)
    hand_over_at (offering_secret p c) awaiting_secret s =
        some (record s { worker = offering_commitment c; collector = awaiting_commitment p })
    hand_over_at (offering_commitment c) (awaiting_commitment p) s = some (record s {
      worker = finished;
      collector = returned (verify_commitment sha256 p c >>= λ _. ok p);
    })
    hand_over_at (offering_error e) awaiting_secret s =
        some (record s { worker = finished; collector = returned (err e) })
    hand_over_at (offering_error e) (awaiting_commitment p) s =
        some (record s { worker = finished; collector = returned (err e) })
    hand_over_at _ _ s = none

    -- Both sides of a channel go on.
    unfoldable pub hand_over : State W → Option (State W)
    hand_over s = hand_over_at s.worker s.collector s

    abbrev pub give_up_at : Worker → Option String → State W → Option (State W)
    give_up_at (offering_secret p c) (some e) s =
        some (record s { worker = offering_error (context_done e) })
    give_up_at (offering_commitment c) (some e) s =
        some (record s { worker = offering_error (context_done e) })
    give_up_at _ _ s = none

    -- The goroutine sees that the context is done.
    unfoldable pub give_up : State W → Option (State W)
    give_up s = give_up_at s.worker s.done s

    abbrev pub leave_at : Collector → Option String → State W → Option (State W)
    leave_at awaiting_secret (some e) s =
        some (record s { collector = returned (err (context_done e)) })
    leave_at (awaiting_commitment p) (some e) s =
        some (record s { collector = returned (err (context_done e)) })
    leave_at _ _ s = none

    -- The waiting function sees it.
    unfoldable pub leave : State W → Option (State W)
    leave s = leave_at s.collector s.done s

    -- What can happen while the context is not done.
    pub data Progress (s t : State W) : Type 0 where
      works : work s ≡ some t → Progress s t
      hands_over : hand_over s ≡ some t → Progress s t

    pub data Step (s t : State W) : Type 0 where
      progresses : Progress s t → Step s t
      gives_up : give_up s ≡ some t → Step s t
      leaves : leave s ≡ some t → Step s t
      is_done : (e : String) → s.done ≡ none → t ≡ record s { done = some e } → Step s t

    pub data Reach (s : State W) : State W → Type 0 where
      here : Reach s s
      later : {t u : State W} → Reach s t → Step t u → Reach s u
