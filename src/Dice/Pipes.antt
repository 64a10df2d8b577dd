-- ===== src/Dice/Pipes.antt =====
-- Two rolls that run side by side over two pipes (dice/pipe_peer.go). A send hands its message to the
-- goroutine that writes to the pipe, which waits until all bytes are read before it takes the next
-- one; a receive reads what the pipe has, the byte of the type first.
pub mod Confluent
pub mod Wire
pub mod Complete
mod Tests
use ztg.Prelude.{
  ℕ, zero, suc, ◌-◌, List, [], ◌∷◌, ◌++◌, Option, none, some, String, err, if◌then◌else◌, ◌==◌,
  length, take,
}
use ztg.Prelude.Turns.{Turns}
use ztg.Dice.Message.{Message, ReadError, unknown_message_type, is_msg_type, bytes}
use ztg.Dice.Protocol.{msg, Error}
use ztg.Dice.Process.{Process, send, recv, stop}

-- One side: what it does, and the bytes that it has read of the message it waits for.
pub record Player : Type 0 where
  pub process : Process
  pub read : List ℕ

-- `pipe1` holds the bytes that its writer still waits to have read by the first peer, `pipe2` the same
-- for the second; a writer whose pipe is empty waits for a message.
pub record System : Type 0 where
  pub first : Player
  pub second : Player
  pub pipe1 : List ℕ
  pub pipe2 : List ℕ

-- `NewPipePeers`, with a process on each of the peers.
abbrev pub new_pipe_peers : Process → Process → System
new_pipe_peers p q = record {
  first = record { process = p; read = [] };
  second = record { process = q; read = [] };
  pipe1 = [];
  pipe2 = [];
}

abbrev pub drop : ℕ → List ℕ → List ℕ
drop zero bs = bs
drop (suc n) [] = []
drop (suc n) (b ∷ bs) = drop n bs

-- The text of an error of `ReadMessage`.
module _ (describe : ReadError → String) where
  -- One `Read` of `ReadMessage` on a pipe that has bytes.
  unfoldable pub receive :
      (String → Error) → (Message → Process) → List ℕ → List ℕ → Player × List ℕ
  receive w k read [] = (record { process = recv w k; read = read }, [])
  receive w k [] (b ∷ pipe) =
      if is_msg_type b then (record { process = recv w k; read = b ∷ [] }, pipe) else (
        record { process = stop (err (w (describe (unknown_message_type b)))); read = [] },
        pipe,
      )
  receive w k (t ∷ data_read) (b ∷ pipe) =
      let missing = 32 - length data_read in
      let data_now = data_read ++ take missing (b ∷ pipe) in
      if length data_now == 32
      then (record { process = k (msg t data_now); read = [] }, drop missing (b ∷ pipe))
      else (record { process = recv w k; read = t ∷ data_now }, drop missing (b ∷ pipe))

  -- One `Send` or one `Read` of a process that has read so much, with the pipes that it reads and
  -- writes; `none` waits, or has stopped.
  unfoldable pub act : Process → List ℕ → List ℕ → List ℕ → Option (Player × List ℕ × List ℕ)
  act (send w m k) read inbox [] = some (record { process = k; read = read }, inbox, bytes m)
  act (send w m k) read inbox (_ ∷ _) = none
  act (recv w k) read [] outbox = none
  act (recv w k) read (b ∷ inbox) outbox =
      let (p, inbox') = receive w k read (b ∷ inbox) in some (p, inbox', outbox)
  act (stop r) read inbox outbox = none

  unfoldable pub first_step : System → Option System
  first_step s = elim (act s.first.process s.first.read s.pipe1 s.pipe2) [
    | none ↦ none
    | some (p, inbox, outbox) ↦ some (record s { first = p; pipe1 = inbox; pipe2 = outbox })
  ]

  unfoldable pub second_step : System → Option System
  second_step s = elim (act s.second.process s.second.read s.pipe2 s.pipe1) [
    | none ↦ none
    | some (p, inbox, outbox) ↦ some (record s { second = p; pipe2 = inbox; pipe1 = outbox })
  ]

  -- A run of this many steps.
  abbrev pub Runs : ℕ → System → System → Type 0
  Runs = Turns first_step second_step
