-- ===== src/Factorfight/Tests.antt =====
-- Games of the session at concrete inputs.
use ztg.Factorfight.Board.{win, Board, peer_move}
use ztg.Factorfight.Session.{
  add_game_log_entry, start_board, start_state, other_turn, take_turn, Session, play,
}
use ztg.Prelude.{some, inl, ◌≡◌, ◌≢◌, refl, String, [], ◌∷◌, ok, none, All, In, arith, true, false}
use ztg.Prelude.Int.{◌+ℤ◌, pos}
use ztg.Factorfight.Expr.{value, node, add, eval, eval_with_max, apply_op}
use ztg.Factorfight.Pawn.{
  no_bump, bumped_self, bumped_peer2, plain_move, pawn_moves, pawn_moves_zero_dice,
  pawn_moves_two_dice, two_dice_pair, two_dice_body, try_expr,
}
use ztg.Prelude.Int64.{wrap64}
use ztg.Factorfight.Moves.{
  Move, generate_moves, all_allocations, allocation_moves, combine, bump_status_p1, bump_status_p2,
}
use ztg.Factorfight.Legal.{IsLegal, generate_moves-IsLegal}
use ztg.Factorfight.ChannelPeer.{new_channel_peers, send_move, recv_move}
use ztg.Factorfight.ChannelPeer.InOrder.{
  History, Reach, begun, sends1, sends2, receives2, IsInOrder, Reach-IsInOrder,
}
use ztg.Factorfight.Mirror.{mirror}
use ztg.Factorfight.Strategy.{choose_move, IsLastBest, Climbs, choose_move-Climbs, choose_move-In}
use ztg.Factorfight.Print.{game_log_string, entries_string, expr_string, joined}
use ztg.Factorfight.Session.Log.{IsCertified, allowed_moves}
use ztg.Factorfight.Session.Together.{other_turn-take_turn}
use ztg.Factorfight.Session.Certificate.{IsHonest, Verdict, play-IsCertified, play-Verdict}
use ztg.Factorfight.Session.Safe.{IsSound, IsCertified-IsSound}
use ztg.Factorfight.Progress.{generate_moves-nonempty}

abbrev a_board : Board
a_board = record {
  pawn1_pos = pos 10;
  pawn2_pos = pos 20;
  peer_pawn1_pos = pos 30;
  peer_pawn2_pos = pos 13;
}

-- The second pawn goes to the square of the first.
abbrev a_move : Move
a_move = record {
  pawn1 = plain_move (value (pos 5)) (pos 5);
  pawn2 = record { expr = none; result = pos 5; bump = bumped_self };
}

abbrev a_later_move : Move
a_later_move = record {
  pawn1 = plain_move (value (pos 4)) (pos 4);
  pawn2 = plain_move (value (pos 6)) (pos 6);
}

-- Every roll is a six and a five, the peer always sends the same move, and the strategy is the
-- default.
abbrev script : Session (Unit {0})
script = record {
  roll_sync = λ _ w. (ok (6 ∷ 5 ∷ []), w);
  recv_move = λ w. (ok a_move, w);
  send_move = λ _ w. (ok tt, w);
  choose_move = λ _ ms w. (choose_move ms, w);
}

script-IsHonest : IsHonest script
script-IsHonest st ms w m h = choose_move-In ms m h

generate_moves-IsLegal_example :
    All
      (IsLegal (pos 10) (pos 20) (pos 3) (pos 4))
      (generate_moves (pos 10) (pos 20) (pos 3) (pos 4) (pos 30) (pos 13))
generate_moves-IsLegal_example =
    generate_moves-IsLegal (pos 10) (pos 20) (pos 3) (pos 4) (pos 30) (pos 13)

generate_moves-nonempty_example :
    generate_moves (pos 100) (pos 101) (pos 3) (pos 4) (pos 30) (pos 13) ≢ []
generate_moves-nonempty_example =
    generate_moves-nonempty (pos 100) (pos 101) (pos 30) (pos 13) 3 4 (omega arith, omega arith)
      (omega arith, omega arith) (λ e. ground (arith, e.0)) (omega arith) (omega arith)
      (omega arith) (omega arith)

choose_move-Climbs_example :
    (b : Move) × (choose_move {E = ⊥} (a_move ∷ a_later_move ∷ []) ≡ ok b)
    × Climbs a_move (a_later_move ∷ []) b
    × IsLastBest b (a_move ∷ a_later_move ∷ [])
choose_move-Climbs_example = choose_move-Climbs a_move (a_later_move ∷ [])

play-IsCertified_example : IsCertified (play script 2 false tt).1.0
play-IsCertified_example = play-IsCertified script script-IsHonest 2 false tt

play-Verdict_example : Verdict (play script 2 true tt).0 (play script 2 true tt).1.0.board
play-Verdict_example = play-Verdict script 2 true tt

IsCertified-IsSound_example : IsSound (play script 2 true tt).1.0.board
IsCertified-IsSound_example =
    IsCertified-IsSound (play script 2 true tt).1.0
      (play-IsCertified script script-IsHonest 2 true tt)

-- The first move from the start by a six and a five; the idle pawn stands on the start of the peer.
abbrev opening : Move
opening = record {
  pawn1 = record { expr = some (value (pos 0)); result = pos 0; bump = bumped_peer2 };
  pawn2 = record {
    expr = some (node add (node add (value (pos 0)) (value (pos 6))) (value (pos 5)));
    result = pos 11;
    bump = no_bump;
  };
}

-- This player always opens, and the other receives it.
abbrev opens : Session (Unit {0})
opens = record script { recv_move = λ w. (ok opening, w); choose_move = λ _ _ w. (ok opening, w) }

opening-In : In opening (allowed_moves false start_board (6, 5))
unfolding generate_moves all_allocations allocation_moves pawn_moves pawn_moves_zero_dice
    pawn_moves_two_dice two_dice_pair two_dice_body try_expr eval_with_max eval apply_op combine
    bump_status_p1 bump_status_p2 wrap64 ◌+ℤ◌
opening-In = inl refl

-- A log of this move, with every number printed as an n.
printed :
    game_log_string (λ _. "n") (add_game_log_entry opening 1 true (6 ∷ 5 ∷ []) start_state).game_log
    ≡ joined (
        "Game Log (n moves):\n================\nTurn n - Peer (peer):\n  Rolls: [n, n]\n"
        ∷ "  Pawn1: n → n (BumpedPeer2)\n  Pawn2: ((n + n) + n) → n (NoBump)\n"
        ∷ "   From: P1=n, P2=n | PeerP1=n, PeerP2=n\n  State: P1=n, P2=n | PeerP1=n, PeerP2=n\n\nLose!\n"
        ∷ [])
unfolding game_log_string entries_string expr_string add_game_log_entry win peer_move
printed = refl

start-mirror : start_board ≡ mirror start_board
unfolding mirror
start-mirror = refl

other_turn-take_turn_example :
    ((other_turn opens 0 (start_state, tt)).0 ≡ ok tt)
    × ((other_turn opens 0 (start_state, tt)).1.0.board
        ≡ mirror (take_turn opens 0 (start_state, tt)).1.0.board)
other_turn-take_turn_example =
    other_turn-take_turn opens opens 0 0 start_state start_state tt tt 6 5 [] opening start-mirror
      refl refl refl opening-In refl

abbrev a_name : String
a_name = "first"

abbrev another_name : String
another_name = "second"

-- The first peer sends a move, the second receives it and sends one.
abbrev two_moves : History
two_moves = record {
  store = record { in1 = some a_later_move; in2 = none };
  sent1 = a_move ∷ [];
  sent2 = a_later_move ∷ [];
  got1 = [];
  got2 = a_move ∷ [];
}

two_moves-Reach : Reach a_name another_name two_moves
unfolding new_channel_peers send_move recv_move
two_moves-Reach = sends2 a_later_move _ refl (receives2 a_move _ refl (sends1 a_move _ refl begun))

Reach-IsInOrder_example : IsInOrder two_moves
Reach-IsInOrder_example = Reach-IsInOrder a_name another_name two_moves two_moves-Reach

-- A second move waits for the first to be received.
waits :
    send_move
      (new_channel_peers a_name another_name).0
      a_move
      (record { in1 = none; in2 = some a_move })
    ≡ none
unfolding new_channel_peers send_move
waits = refl

-- Each peer rolls with the peer of the dice that the other brings.
swapped : (new_channel_peers a_name another_name).0.dice_peer ≡ another_name
unfolding new_channel_peers
swapped = refl
