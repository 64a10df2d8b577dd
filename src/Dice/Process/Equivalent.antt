-- ===== src/Dice/Process/Equivalent.antt =====
-- The two models of a roll (dice/roller.go).
use ztg.Prelude.{ℕ, ◌≡◌, List, arith}
use ztg.Dice.Roller.{Roller}
use ztg.Dice.Protocol.{Trace, Peer, Context, exchange, confirm_roll, roll_with}
use ztg.Dice.Process.{roll_process, run, trace_endpoint}

-- Running the process of a roll over a peer that answers by the trace is the roll.
pub run-roll_process :
    (sha256 : List ℕ → List ℕ) (p : Peer) (r : Roller) (ctx : Context) (s : List ℕ) (tr : Trace)
    → run (trace_endpoint p) (roll_process sha256 r ctx s) tr ≡ roll_with sha256 p r ctx s tr
unfolding run roll_process roll_with exchange confirm_roll
run-roll_process sha256 p r ctx s tr = ground arith
