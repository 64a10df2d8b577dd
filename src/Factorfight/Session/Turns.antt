-- ===== src/Factorfight/Session/Turns.antt =====
-- What the two kinds of turn do when every call that they make succeeds.
use ztg.Prelude.{wrap_err, ℕ, ◌≡◌, true, false, List, [], ◌∷◌, arith, ok}
use ztg.Factorfight.Moves.{Move}
use ztg.Factorfight.Board.{move, peer_move}
use ztg.Factorfight.Session.{
  State, Session, add_game_log_entry, validate_move, first_two, other_turn, take_turn,
  require_moves, error_sending,
}
use ztg.Factorfight.Session.Log.{allowed_moves}

module _ {W : Type 0} (s : Session W) where
  -- A turn whose roll and move arrive and pass the validation succeeds, and is logged and made.
  pub other_turn_accepts :
      (n : ℕ) (st : State) (w : W) (rolls : List ℕ) (m : Move)
      → (s.roll_sync 2 w).0 ≡ ok rolls
      → (s.recv_move (s.roll_sync 2 w).1).0 ≡ ok m
      → validate_move rolls st.board m ≡ ok tt
      → other_turn s n (st, w) ≡ (
        ok tt,
        (
          record (add_game_log_entry m n true rolls st) { board = peer_move m st.board },
          (s.recv_move (s.roll_sync 2 w).1).1,
        ),
      )
  unfolding other_turn add_game_log_entry
  other_turn_accepts n st w rolls m e f g = ground (arith, e, f, g)

  -- A turn for which the strategy chose a move ends as sending the move ends, and the move is
  -- logged and made in either case.
  pub take_turn_moves :
      (n : ℕ) (st : State) (w : W) (rolls : List ℕ) (d : ℕ × ℕ) (m : Move)
      → (s.roll_sync 2 w).0 ≡ ok rolls
      → first_two rolls ≡ ok d
      → require_moves (allowed_moves false st.board d) ≡ ok tt
      → (s.choose_move st (allowed_moves false st.board d) (s.roll_sync 2 w).1).0 ≡ ok m
      → let sent =
          s.send_move m (s.choose_move st (allowed_moves false st.board d) (s.roll_sync 2 w).1).1 in
        take_turn s n (st, w) ≡ (
          wrap_err error_sending sent.0,
          (
            record (add_game_log_entry m n false (d.0 ∷ d.1 ∷ []) st) { board = move m st.board },
            sent.1,
          ),
        )
  unfolding take_turn add_game_log_entry
  take_turn_moves n st w rolls d m e f g h = ground (arith, e, f, g, h)
