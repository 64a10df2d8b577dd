-- ===== src/Dice/Pipes/Tests.antt =====
-- Two players over pipes at concrete inputs.
use ztg.Prelude.{ℕ, ◌+◌, ◌≡◌, refl, List, none, some, String, Result, ok, replicate}
use ztg.Prelude.Turns.{here, next, by_first, by_second}
use ztg.Dice.Message.{ReadError, eof, unexpected_eof, unknown_message_type}
use ztg.Dice.Roller.{Roller, roll, roll_loop}
use ztg.Dice.Protocol.{Error, roll_sum}
use ztg.Dice.Process.{roll_process}
use ztg.Dice.Pipes.{System, Runs, first_step, second_step, act}
use ztg.Dice.Pipes.Complete.{started, finished, started-Runs-finished}

abbrev describe : ReadError → String
describe eof = "EOF"
describe unexpected_eof = "unexpected EOF"
describe (unknown_message_type t) = "unknown MessageType"

-- A hash that has always the same 32 bytes.
abbrev constant_hash : List ℕ → List ℕ
constant_hash _ = replicate 32 17

abbrev one_die : Roller
one_die = record { sides = 6; roll_value_limit = 65532 }

abbrev first_secret : List ℕ
first_secret = replicate 32 200

abbrev second_secret : List ℕ
second_secret = replicate 32 7

abbrev eight_rolls : List ℕ
eight_rolls = replicate 8 2

rolled :
    ◌≡◌ {A = Result Error (List ℕ)}
      (roll one_die (roll_sum constant_hash first_secret second_secret))
      (ok eight_rolls)
unfolding roll roll_loop roll_sum
rolled = refl

abbrev at_start : System
at_start = started describe constant_hash one_die first_secret second_secret eight_rolls

abbrev sent_one : System
sent_one = elim (second_step describe at_start) [ none ↦ at_start | some t ↦ t ]

-- The first player has read the type of the commitment.
abbrev read_type : System
read_type = elim (first_step describe sent_one) [ none ↦ sent_one | some t ↦ t ]

two_steps : Runs describe 2 at_start read_type
unfolding first_step second_step act roll_process
two_steps = next (by_second refl) (next (by_first refl) here)

started-Runs-finished_example :
    (m : ℕ) × (2 + m ≡ 18)
    × Runs describe m read_type
        (finished describe constant_hash one_die first_secret second_secret eight_rolls)
started-Runs-finished_example =
    started-Runs-finished describe constant_hash one_die first_secret second_secret eight_rolls
      rolled (λ _. refl) refl refl 2 read_type two_steps
