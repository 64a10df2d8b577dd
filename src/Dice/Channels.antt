-- ===== src/Dice/Channels.antt =====
-- Two rolls that run side by side over two channels of one place each (dice/channel_peer.go): a
-- send waits while its channel is full, a receive while it is empty. Any of the two that can go on
-- may go on next.
pub mod Confluent
pub mod Complete
mod Tests
use ztg.Prelude.{ℕ, Option, none, some}
use ztg.Prelude.Turns.{Turns}
use ztg.Dice.Message.{Message}
use ztg.Dice.Process.{Process, send, recv, stop}

-- `in1` holds what the first peer is to receive, `in2` what the second is to receive.
pub record System : Type 0 where
  pub first : Process
  pub second : Process
  pub in1 : Option Message
  pub in2 : Option Message

-- `NewChannelPeers`, with a process on each of the peers.
abbrev pub new_channel_peers : Process → Process → System
new_channel_peers p q = record { first = p; second = q; in1 = none; in2 = none }

-- One `Send` or `Recv`, with the channels `in` and `out` of the peer; `none` waits, or has stopped.
unfoldable pub act :
    Process → Option Message → Option Message → Option (Process × Option Message × Option Message)
act (send w m k) inbox none = some (k, inbox, some m)
act (send w m k) inbox (some _) = none
act (recv w k) (some m) outbox = some (k m, none, outbox)
act (recv w k) none outbox = none
act (stop r) inbox outbox = none

unfoldable pub first_step : System → Option System
first_step s = elim (act s.first s.in1 s.in2) [
  | none ↦ none
  | some (p, inbox, outbox) ↦ some (record s { first = p; in1 = inbox; in2 = outbox })
]

unfoldable pub second_step : System → Option System
second_step s = elim (act s.second s.in2 s.in1) [
  | none ↦ none
  | some (p, inbox, outbox) ↦ some (record s { second = p; in2 = inbox; in1 = outbox })
]

-- A run of this many steps.
abbrev pub Runs : ℕ → System → System → Type 0
Runs = Turns first_step second_step
