-- ===== src/Factorfight/Duel/Tests.antt =====
-- A match at concrete inputs.
use ztg.Prelude.{
  ◌==◌, subst, ap, if◌then◌else◌, String, Result, arith, Bool-cases, inl, inr, Option, ℕ, ◌≡◌, refl,
  Bool, true, false, List, [], ◌∷◌, some, any, ok, err, panic,
}
use ztg.Prelude.Int.{pos, ◌+ℤ◌, ◌-ℤ◌, ◌*ℤ◌, quot, rem}
use ztg.Prelude.Int64.{wrap64}
use ztg.Factorfight.Expr.{value, eval, eval_with_max, apply_op}
use ztg.Factorfight.Pawn.{
  plain_move, pawn_moves, pawn_moves_zero_dice, pawn_moves_one_die, pawn_moves_two_dice,
  two_dice_pair, two_dice_body, try_expr,
}
use ztg.Factorfight.Board.{win, lose, move, peer_move}
use ztg.Factorfight.Moves.{
  Move, generate_moves, all_allocations, allocation_moves, combine, bump_status_p1, bump_status_p2,
}
use ztg.Factorfight.Session.{
  play_with_initiative, roll_initiative, Session, validate_move, check_move, add_game_log_entry,
  play_loop, play_round, take_turn, other_turn, Error, State, same_move, play,
}
use ztg.Factorfight.Duel.{IsFair, Delivers, Agrees}
use ztg.Factorfight.Duel.Opening.{IsDice}
use ztg.Factorfight.Duel.Initiative.{play_with_initiative-Agrees}

-- The dice of a turn, and the two results of its move.
record ScriptedTurn : Type 0 where
  dice : List ℕ
  made : Move

abbrev to : ℕ → ℕ → Move
to a b = record {
  pawn1 = plain_move (value (pos a)) (pos a);
  pawn2 = plain_move (value (pos b)) (pos b);
}

-- Three turns: the first player has both pawns on the goal after its second one.
abbrev the_script : List ScriptedTurn
the_script =
    record { dice = 20 ∷ 5 ∷ []; made = to 20 5 }
    ∷ record { dice = 1 ∷ 2 ∷ []; made = to 1 2 }
    ∷ record { dice = 81 ∷ 96 ∷ []; made = to 101 101 }
    ∷ []

-- Each player follows the script.
abbrev rolls : ℕ → List ScriptedTurn → Result String (List ℕ)
rolls n [] = err "closed"
rolls n (t ∷ _) = if n == 1 then ok (7 ∷ []) else ok t.dice

abbrev received : List ScriptedTurn → Result String Move
received [] = err "closed"
received (t ∷ _) = ok t.made

abbrev chosen : List Move → List ScriptedTurn → Result ⊥ Move
chosen ms [] = panic
chosen ms (t ∷ _) = if any ms (same_move t.made) then ok t.made else panic

abbrev after_turn : List ScriptedTurn → List ScriptedTurn
after_turn [] = []
after_turn (_ ∷ ts) = ts

abbrev follows : Session (List ScriptedTurn)
follows = record {
  roll_sync = λ n w. (rolls n w, w);
  recv_move = λ w. (received w, after_turn w);
  send_move = λ _ w. (ok tt, after_turn w);
  choose_move = λ _ ms w. (chosen ms w, w);
}

chosen-made :
    (ms : List Move) (t : ScriptedTurn) (ts : List ScriptedTurn) (m : Move)
    → chosen ms (t ∷ ts) ≡ ok m
    → (any ms (same_move t.made) ≡ true) × (t.made ≡ m)
chosen-made ms t ts m h = elim (Bool-cases (any ms (same_move t.made))) [
  | inl e ↦ (e, ground (arith, h, e))
  | inr e ↦ absurd (ground (arith, h, e))
]

follows-IsFair : IsFair follows
follows-IsFair st ms [] m h = absurd (ground (arith, h))
follows-IsFair st ms (t ∷ ts) m h =
    let (e, made) = chosen-made ms t ts m h in subst (λ z. any ms (same_move z) ≡ true) made e

abbrev SameScript : List ScriptedTurn → List ScriptedTurn → Type 0
SameScript w v = w ≡ v

follows-Delivers : Delivers follows follows SameScript SameScript
follows-Delivers [] v e rs st ms m h k l = absurd (ground (arith, h))
follows-Delivers (t ∷ ts) v e rs st ms m h k l =
    let (_, made) = chosen-made ms t ts m k in rw (← e) (h, ap ok made, refl)

abbrev first_game : Result Error (Option Bool) × (State × List ScriptedTurn)
first_game = play_with_initiative follows 2 true the_script

abbrev second_game : Result Error (Option Bool) × (State × List ScriptedTurn)
second_game = play_with_initiative follows 1 false the_script

first_wins : first_game.0 ≡ ok (some true)
unfolding play_with_initiative roll_initiative play play_loop play_round take_turn other_turn
    validate_move check_move same_move add_game_log_entry win lose move peer_move generate_moves
    all_allocations allocation_moves pawn_moves pawn_moves_zero_dice pawn_moves_one_die
    pawn_moves_two_dice two_dice_pair two_dice_body try_expr eval_with_max eval apply_op combine
    bump_status_p1 bump_status_p2 wrap64 ◌+ℤ◌ ◌-ℤ◌ ◌*ℤ◌ quot rem
first_wins = refl

second_loses : second_game.0 ≡ ok (some false)
unfolding play_with_initiative roll_initiative play play_loop play_round take_turn other_turn
    validate_move check_move same_move add_game_log_entry win lose move peer_move generate_moves
    all_allocations allocation_moves pawn_moves pawn_moves_zero_dice pawn_moves_one_die
    pawn_moves_two_dice two_dice_pair two_dice_body try_expr eval_with_max eval apply_op combine
    bump_status_p1 bump_status_p2 wrap64 ◌+ℤ◌ ◌-ℤ◌ ◌*ℤ◌ quot rem
second_loses = refl

first_rolls-IsDice : IsDice (20, 5)
first_rolls-IsDice = record {
  one = omega arith;
  one_most = omega arith;
  two = omega arith;
  two_most = omega arith;
}

play_with_initiative-Agrees_example : Agrees first_game second_game true false
play_with_initiative-Agrees_example =
    play_with_initiative-Agrees follows follows SameScript SameScript follows-IsFair follows-IsFair
      follows-Delivers follows-Delivers 2 1 the_script the_script true 7 (20, 5) [] true false refl
      refl refl refl refl refl first_rolls-IsDice first_wins second_loses
