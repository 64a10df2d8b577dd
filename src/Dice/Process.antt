-- ===== src/Dice/Process.antt =====
-- A roll (dice/roller.go) as the messages that it sends and waits for, one at a time, and how it runs
-- over a peer with a state of its own.
pub mod Equivalent
pub mod Faces
use ztg.Prelude.{
  ℕ, List, [], ◌∷◌, String, Result, ok, err, panic, none, some, if◌then◌else◌, ◌||◌, ◌==◌, ltb,
}
use ztg.Prelude.Bytes.{bytes_eq}
use ztg.Prelude.Exec.{Exec, ◌>>=◌, ◌>>◌, lift, wrapping}
use ztg.Dice.Message.{Message, commitment, secret, roll_confirmation}
use ztg.Dice.Roller.{Roller, roll}
use ztg.Dice.Protocol.{
  Trace, Event, Peer, Error, send_commitment_failed, receive_commitment_failed, send_secret_failed,
  receive_secret_failed, send_confirmation_failed, receive_confirmation_failed,
  unexpected_commitment, unexpected_secret, unexpected_confirmation, confirm_failed, Context,
  not_done, expect, msg, after_send, after_recv, encode_rolls, calculate_commitment,
  verify_commitment, roll_sum, bad_count, get,
}

-- The functions wrap an error of the peer.
pub data Process : Type 0 where
  send : (String → Error) → Message → Process → Process
  recv : (String → Error) → (Message → Process) → Process
  stop : Result Error (List ℕ) → Process

-- `if err != nil { return …, err }`
abbrev pub after : {A : Type 0} → Result Error A → (A → Process) → Process
after (ok a) k = k a
after (err e) k = stop (err e)
after panic k = stop panic

module _ (sha256 : List ℕ → List ℕ) (ctx : Context) (s : List ℕ) where
  -- What the exchange does once both messages of the peer are there.
  abbrev pub finish_exchange : Message → Message → (List ℕ → Process) → Process
  finish_exchange commitment_msg secret_msg k = after (not_done ctx.at_secret) λ _.
      after (not_done ctx.at_commit) λ _.
        after (verify_commitment sha256 secret_msg.data' commitment_msg.data')
          λ _. k secret_msg.data'

  abbrev pub exchange_process : (List ℕ → Process) → Process
  exchange_process k =
      send send_commitment_failed (msg commitment (calculate_commitment sha256 s)) (
        recv receive_commitment_failed λ commitment_msg.
          after (expect commitment unexpected_commitment commitment_msg) λ _.
            send send_secret_failed (msg secret s) (
              recv receive_secret_failed λ secret_msg.
                after (expect secret unexpected_secret secret_msg)
                  λ _. finish_exchange commitment_msg secret_msg k))

abbrev pub confirm_process : List ℕ → Process
confirm_process rolls = send send_confirmation_failed (msg roll_confirmation (encode_rolls rolls)) (
    recv receive_confirmation_failed λ m.
      after (expect roll_confirmation unexpected_confirmation m) λ _.
        if bytes_eq (encode_rolls rolls) m.data'
        then stop (ok rolls)
        else stop (err confirm_failed))

-- The goroutine of `Roll`.
unfoldable pub roll_process : (List ℕ → List ℕ) → Roller → Context → List ℕ → Process
roll_process sha256 r ctx s =
    exchange_process sha256 ctx s
      λ peer_secret. after (roll r (roll_sum sha256 s peer_secret)) confirm_process

-- A context that is never done.
abbrev pub open_ended : Context
open_ended = record { at_secret = none; at_commit = none }

-- The interface `Peer`, over a state.
pub record Endpoint (W : Type 0) : Type 0 where
  pub send : Message → Exec W String (Unit {0})
  pub recv : Exec W String Message

unfoldable pub run : {W : Type 0} → Endpoint W → Process → Exec W Error (List ℕ)
run e (send w m k) = wrapping w (e.send m) >> run e k
run e (recv w k) = wrapping w e.recv >>= λ m. run e (k m)
run e (stop r) = lift r

-- A peer that answers by the trace, with the trace as its state.
abbrev pub trace_endpoint : Peer → Endpoint Trace
trace_endpoint p = record {
  send = λ m tr. elim (p.send tr m) [ none ↦ (ok tt, Event.sent m ∷ tr) | some e ↦ (err e, tr) ];
  recv = λ tr. elim (p.recv tr) [
    | ok m ↦ (ok m, Event.received m ∷ tr)
    | err e ↦ (err e, tr)
    | panic ↦ (panic, tr)
  ];
}

-- What `Roll` takes from outside beside its peer: the hash, the random secret, and the context, which
-- may be done where the exchange looks at it.
pub record Host (W : Type 0) : Type 0 where
  pub sha256 : List ℕ → List ℕ
  pub random : W → List ℕ × W
  pub context : W → Context

-- The same beside the state of a peer.
abbrev pub on_peer : {V W : Type 0} → Host W → Host (V × W)
on_peer {V} {W} h = record {
  sha256 = h.sha256;
  random = λ (x : V × W). (let (s, w) = h.random x.1 in (s, (x.0, w)));
  context = λ (x : V × W). h.context x.1;
}

-- `RollSync` over any peer. The roll is started before the number of dice is checked.
unfoldable pub roll_sync_over :
    {W : Type 0} → Host W → Roller → Endpoint W → ℕ → Exec W Error (List ℕ)
roll_sync_over h r e n w =
    let (s, drawn) = h.random w in
    let (result, w') = run e (roll_process h.sha256 r (h.context w) s) drawn in
    if n == 0 || ltb 8 n
    then (err bad_count, w')
    else (lift result >>= λ rolls. lift (get n rolls)) w'

-- What `GetOne` makes of the same result.
abbrev pub first_roll : List ℕ → ℕ
first_roll [] = 0
first_roll (x ∷ rolls) = x

abbrev pub get_one : List ℕ → Result Error ℕ
get_one result = elim (get 1 result) [
  | ok rolls ↦ ok (first_roll rolls)
  | err e ↦ err e
  | panic ↦ panic
]
