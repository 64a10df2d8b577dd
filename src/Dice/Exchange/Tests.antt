-- ===== src/Dice/Exchange/Tests.antt =====
-- An exchange on concrete values (dice/roller.go).
use ztg.Dice.Exchange.{
  err, Message, Result, returned, State, started, work, hand_over, give_up, leave, works,
  hands_over, progresses, gives_up, is_done, Reach, here, later,
}
use ztg.Prelude.{
  ℕ, ◌≡◌, ◌⊎◌, ◌≤◌, refl, false, List, [], ◌∷◌, Option, none, some, String, ok, panic,
}
use ztg.Dice.Message.{commitment, secret}
use ztg.Dice.Protocol.{Trace, Peer, calculate_commitment, msg, verify_commitment, sent, received}
use ztg.Dice.Protocol.Secrecy.{CommitFirst}
use ztg.Dice.Process.{Endpoint}
use ztg.Dice.Exchange.Leak.{has_finished, leave-abandons}
use ztg.Dice.Exchange.Invariant.{Exchanged, over}
use ztg.Dice.Exchange.Safe.{Reach-Exchanged}
use ztg.Dice.Exchange.Remaining.{in_one}
use ztg.Dice.Exchange.Finishes.{Progresses, stay, on, IsEnd, started-ends}

abbrev same_bytes : List ℕ → List ℕ
same_bytes bs = bs

abbrev their_secret : List ℕ
their_secret = 7 ∷ []

-- A peer that keeps to the protocol, whatever the context says.
abbrev their_messages : Trace → Result String Message
their_messages (received _ ∷ _) = err "closed"
their_messages (sent _ ∷ received _ ∷ _) = ok (msg secret their_secret)
their_messages _ = ok (msg commitment (calculate_commitment same_bytes their_secret))

abbrev peer : Option String → Peer
peer _ = record { send = λ _ _. none; recv = their_messages }

abbrev own : List ℕ
own = 3 ∷ []

-- What is done step by step.
abbrev or_else : {A : Type 0} → A → Option A → A
or_else a none = a
or_else a (some b) = b

abbrev endpoint : Option String → Endpoint Trace
endpoint = over same_bytes peer own

abbrev go : State Trace → State Trace
go s = or_else s (work same_bytes endpoint own s)

abbrev hand : State Trace → State Trace
hand s = or_else s (hand_over same_bytes endpoint own s)

abbrev cancel : State Trace → State Trace
cancel s = record s { done = some "canceled" }

abbrev s0 : State Trace
s0 = started []

abbrev talked : State Trace
talked = go (go (go (go s0)))

abbrev both_done : State Trace
both_done = hand (hand talked)

-- The goroutine has gone on after the function has left, and waits for it.
abbrev cancelled : State Trace
cancelled = cancel talked

abbrev left : State Trace
left = or_else cancelled (leave same_bytes endpoint own cancelled)

abbrev stuck : State Trace
stuck = or_else left (give_up same_bytes endpoint own left)

talked-Reach : Reach same_bytes endpoint own s0 talked
unfolding work
talked-Reach =
    later
      (later (later (later here (progresses (works refl))) (progresses (works refl)))
        (progresses (works refl)))
      (progresses (works refl))

stuck-has_finished : has_finished stuck.worker ≡ false
unfolding work leave give_up
stuck-has_finished = refl

leave-abandons_example : (has_finished stuck.worker ≡ false) ⊎ (stuck.collector ≡ returned panic)
unfolding work leave give_up
leave-abandons_example =
    leave-abandons same_bytes endpoint own [] cancelled left stuck
      (later talked-Reach (is_done "canceled" refl refl)) refl (later here (gives_up refl))

Reach-Exchanged_example :
    CommitFirst both_done.world × Exchanged same_bytes peer own both_done.collector both_done.world
unfolding work hand_over verify_commitment
Reach-Exchanged_example =
    Reach-Exchanged same_bytes peer own both_done
      (later (later talked-Reach (progresses (hands_over refl))) (progresses (hands_over refl)))

started-ends_example :
    (4 ≤ 6)
    × (m : ℕ) × (u : State Trace) × Progresses same_bytes endpoint own m talked u
    × IsEnd same_bytes endpoint own (in_one same_bytes endpoint own []) u
unfolding work
started-ends_example =
    started-ends same_bytes endpoint own [] 4 talked
      (on (works refl) (on (works refl) (on (works refl) (on (works refl) stay))))

both_done-collector : both_done.collector ≡ returned (ok their_secret)
unfolding work hand_over verify_commitment calculate_commitment
both_done-collector = refl
