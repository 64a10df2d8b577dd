-- ===== src/Dice/Channels/Tests.antt =====
-- Two players over channels at concrete inputs, with a hash that keeps 32 bytes.
use ztg.Prelude.{ℕ, ◌+◌, ◌≡◌, refl, List, ◌∷◌, [], ◌++◌, Result, ok, none, some, take, replicate}
use ztg.Prelude.Turns.{here, next, by_second}
use ztg.Dice.Roller.{Roller, roll, roll_loop}
use ztg.Dice.Protocol.{Error, roll_sum}
use ztg.Dice.Process.{roll_process}
use ztg.Dice.Channels.{System, Runs, second_step, act}
use ztg.Dice.Channels.Complete.{started, finished, started-Runs}

abbrev toy_hash : List ℕ → List ℕ
toy_hash bs = take 32 (bs ++ replicate 32 17)

abbrev die : Roller
die = record { sides = 6; roll_value_limit = 65532 }

abbrev one_secret : List ℕ
one_secret = replicate 32 200

abbrev other_secret : List ℕ
other_secret = replicate 32 7

abbrev the_rolls : List ℕ
the_rolls = 2 ∷ 6 ∷ 1 ∷ 1 ∷ 4 ∷ 6 ∷ 6 ∷ 6 ∷ []

rolled :
    ◌≡◌ {A = Result Error (List ℕ)}
      (roll die (roll_sum toy_hash one_secret other_secret))
      (ok the_rolls)
unfolding roll roll_loop roll_sum
rolled = refl

abbrev at_start : System
at_start = started toy_hash die one_secret other_secret the_rolls

-- The second player has sent its commitment.
abbrev after_one : System
after_one = elim (second_step at_start) [ none ↦ at_start | some t ↦ t ]

one_step : Runs 1 at_start after_one
unfolding second_step act roll_process
one_step = next (by_second refl) here

started-Runs_example :
    (m : ℕ) × (1 + m ≡ 12)
    × Runs m after_one (finished toy_hash die one_secret other_secret the_rolls)
started-Runs_example =
    started-Runs toy_hash die one_secret other_secret the_rolls rolled 1 after_one one_step
