-- ===== src/Dice/Tests.antt =====
-- Runs of the dice protocol at concrete inputs, with a hash that keeps 32 bytes.
use ztg.Prelude.{
  ℕ, ◌≡◌, refl, List, [], ◌∷◌, ◌++◌, none, ok, take, replicate, length, ◌/◌, All, arith,
}
use ztg.Dice.Message.{Message}
use ztg.Dice.Roller.{Roller, new_roller, roll, roll_loop}
use ztg.Dice.Roller.Faces.{IsFace, roll-IsFace}
use ztg.Dice.Roller.Uniform.{count_below, shows, new_roller-fair}
use ztg.Dice.Protocol.{
  Trace, Peer, Context, sent, received, Error, exchange, confirm_roll, roll_with,
  calculate_commitment, verify_commitment, roll_sum, encode_rolls,
}
use ztg.Dice.Protocol.Outcome.{IsRoll, roll_with-IsRoll}
use ztg.Dice.Protocol.Agreement.{roll_with-agree}
use ztg.Dice.Protocol.Secrecy.{CommitFirst, roll_with-CommitFirst}

abbrev toy_hash : List ℕ → List ℕ
toy_hash bs = take 32 (bs ++ replicate 32 17)

abbrev die : Roller
die = record { sides = 6; roll_value_limit = 65532 }

abbrev open_context : Context
open_context = record { at_secret = none; at_commit = none }

abbrev a_secret : List ℕ
a_secret = replicate 32 200

-- A peer that sends back what it receives.
abbrev echo_answer : Trace → Message
echo_answer (sent m ∷ _) = m
echo_answer (received m ∷ _) = m
echo_answer [] = record { type = 0; data' = [] }

abbrev echo : Peer
echo = record { send = λ _ _. none; recv = λ tr. ok (echo_answer tr) }

abbrev a_message : Message
a_message = record { type = 1; data' = a_secret }

abbrev sum_bytes : List ℕ
sum_bytes = toy_hash (calculate_commitment toy_hash a_secret)

abbrev fives : List ℕ
fives = replicate 8 5

hash_rolls : roll {E = Error} die a_secret ≡ ok fives
unfolding roll roll_loop
hash_rolls = refl

roll-IsFace_example : (length fives ≡ 8) × All (IsFace die) fives
roll-IsFace_example = roll-IsFace die a_secret fives (omega arith) hash_rolls

die_of_six : new_roller 6 ≡ ok (record { sides = 6; roll_value_limit = 65532 })
unfolding new_roller
die_of_six = refl

new_roller-fair_example :
    count_below 65536 (shows (record { sides = 6; roll_value_limit = 65532 }) 3) ≡ 65535 / 6
new_roller-fair_example = new_roller-fair 6 2 _ die_of_six (omega arith)

abbrev echo_rolls : List ℕ
echo_rolls = 2 ∷ 6 ∷ 1 ∷ 1 ∷ 4 ∷ 6 ∷ 1 ∷ 5 ∷ []

echo-exchange : (exchange toy_hash echo open_context a_secret []).0 ≡ ok a_secret
unfolding exchange verify_commitment calculate_commitment
echo-exchange = refl

echo_roll : (roll_with toy_hash echo die open_context a_secret []).0 ≡ ok echo_rolls
unfolding roll_with exchange verify_commitment calculate_commitment roll_sum roll roll_loop
    confirm_roll encode_rolls
echo_roll = refl

roll_with-IsRoll_example :
    IsRoll toy_hash echo die a_secret echo_rolls []
      (roll_with toy_hash echo die open_context a_secret []).1
roll_with-IsRoll_example =
    roll_with-IsRoll toy_hash echo die open_context a_secret echo_rolls [] echo_roll

roll_with-agree_example : echo_rolls ≡ echo_rolls
roll_with-agree_example =
    roll_with-agree toy_hash die echo echo open_context open_context a_secret a_secret echo_rolls
      echo_rolls [] [] echo-exchange echo-exchange echo_roll echo_roll

roll_with-CommitFirst_example : CommitFirst (roll_with toy_hash echo die open_context a_secret []).1
roll_with-CommitFirst_example = roll_with-CommitFirst toy_hash echo open_context a_secret die
