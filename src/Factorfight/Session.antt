-- ===== src/Factorfight/Session.antt =====
-- A session of the game (factorfight/game.go): turns, the game log and the loop of a game. The
-- peer, the roller and the strategy are interfaces in the source; here they act on a world `W`.
pub mod Log
pub mod Turns
pub mod Certificate
pub mod Safe
pub mod Together
use ztg.Prelude.{
  ℕ, zero, suc, ◌+◌, ◌≡◌, Bool, true, false, ◌&&◌, List, [], ◌∷◌, ◌++◌, Option, none, some, String,
  Result, ok, err, panic, any, if◌then◌else◌, ltb, leb, length, ◌==◌, not,
}
use ztg.Prelude.Int.{ℤ, pos, ◌==ℤ◌}
use ztg.Prelude.Exec.{Exec, ◌>>=◌, ◌>>◌, pure, lift, gets, modify, wrapping, outside}
use ztg.Factorfight.Pawn.{BumpStatus, no_bump, bumped_peer1, bumped_peer2, bumped_self, unknown}
use ztg.Factorfight.Moves.{Move, generate_moves}
use ztg.Factorfight.Board.{Board, move, peer_move, win, lose}

-- The states of an entry have no log of their own, so they are boards.
pub record GameLogEntry : Type 0 where
  pub player : String
  pub move : Move
  pub turn_num : ℕ
  pub is_peer : Bool
  pub from_state : Board
  pub state : Board
  pub rolls : ℕ × ℕ

pub record State : Type 0 where
  pub board : Board
  pub game_log : List GameLogEntry

abbrev pub start_board : Board
start_board = record {
  pawn1_pos = pos 0;
  pawn2_pos = pos 0;
  peer_pawn1_pos = pos 0;
  peer_pawn2_pos = pos 0;
}

abbrev pub start_state : State
start_state = record { board = start_board; game_log = [] }

-- `[2]uint16` holds two zeros until two rolls are there.
abbrev pub rolls_array : List ℕ → ℕ × ℕ
rolls_array (a ∷ b ∷ _) = (a, b)
rolls_array _ = (0, 0)

-- The board after a move of the peer or of this player.
abbrev pub after_move : Bool → Move → Board → Board
after_move is_peer m b = if is_peer then peer_move m b else move m b

unfoldable pub add_game_log_entry : Move → ℕ → Bool → List ℕ → State → State
add_game_log_entry m turn_num is_peer rolls s = record s {
  game_log =
      s.game_log
      ++ record {
        player = if is_peer then "Peer" else "Self";
        move = m;
        turn_num = turn_num;
        is_peer = is_peer;
        from_state = s.board;
        state = after_move is_peer m s.board;
        rolls = rolls_array rolls;
      }
        ∷ [];
}

pub data Error : Type 0 where
  error_rolling error_receiving error_sending : String → Error
  no_valid_moves invalid_move : Error
  unexpected_rolls : ℕ → Error

-- What the session calls and the game does not implement, over the state of the outside world. A
-- strategy returns no error, but it may panic.
pub record Session (W : Type 0) : Type 0 where
  pub roll_sync : ℕ → Exec W String (List ℕ)
  pub recv_move : Exec W String Move
  pub send_move : Move → Exec W String (Unit {0})
  pub choose_move : State → List Move → Exec W ⊥ Move

abbrev pub no_error : ⊥ → Error
no_error e = absurd e

-- `==` on the codes of two statuses.
abbrev pub bump_eq : BumpStatus → BumpStatus → Bool
bump_eq no_bump no_bump = true
bump_eq bumped_peer1 bumped_peer1 = true
bump_eq bumped_peer2 bumped_peer2 = true
bump_eq bumped_self bumped_self = true
bump_eq (unknown a) (unknown b) = a ==ℤ b
bump_eq _ _ = false

-- The test on a generated move `m` and the move that the peer sent.
unfoldable pub same_move : Move → Move → Bool
same_move sent m =
    m.pawn1.result ==ℤ sent.pawn1.result
    && m.pawn2.result ==ℤ sent.pawn2.result
    && bump_eq m.pawn1.bump sent.pawn1.bump
    && bump_eq m.pawn2.bump sent.pawn2.bump

unfoldable pub check_move : List Move → Move → Result Error (Unit {0})
check_move [] m = err no_valid_moves
check_move (x ∷ xs) m = if any (x ∷ xs) (same_move m) then ok tt else err invalid_move

-- `int(rolls[0]), int(rolls[1])` panics on fewer than two rolls.
unfoldable pub validate_move : List ℕ → Board → Move → Result Error (Unit {0})
unfolding check_move
validate_move (d1 ∷ d2 ∷ _) b m =
    check_move
      (generate_moves b.peer_pawn1_pos b.peer_pawn2_pos (pos d1) (pos d2) b.pawn1_pos b.pawn2_pos) m
validate_move (d1 ∷ []) b m = panic
validate_move [] b m = panic

abbrev pub first_two : List ℕ → Result Error (ℕ × ℕ)
first_two (d1 ∷ d2 ∷ _) = ok (d1, d2)
first_two _ = panic

-- `if len(moves) == 0 { return errors.New("no valid moves") }`
abbrev pub require_moves : List Move → Result Error (Unit {0})
require_moves [] = err no_valid_moves
require_moves (_ ∷ _) = ok tt

module _ {W : Type 0} (s : Session W) where
  -- An action on the game's state and the world.
  abbrev pub Turn : Type 0 → Type 0
  Turn A = Exec (State × W) Error A

  abbrev pub get_state : Turn State
  get_state = gets (λ (st : State × W). st.0)

  abbrev pub modify_state : (State → State) → Turn (Unit {0})
  modify_state f = modify (λ (st : State × W). (f st.0, st.1))

  unfoldable pub other_turn : ℕ → Turn (Unit {0})
  other_turn turn_num = do
    rolls ← outside (wrapping error_rolling (s.roll_sync 2))
    peer_move' ← outside (wrapping error_receiving s.recv_move)
    state ← get_state
    lift (validate_move rolls state.board peer_move')
    modify_state (add_game_log_entry peer_move' turn_num true rolls)
    modify_state (λ st. record st { board = peer_move peer_move' st.board })

  unfoldable pub take_turn : ℕ → Turn (Unit {0})
  take_turn turn_num = do
    rolls ← outside (wrapping error_rolling (s.roll_sync 2))
    dice ← lift (first_two rolls)
    state ← get_state
    let b = state.board
    let moves =
        generate_moves b.pawn1_pos b.pawn2_pos (pos dice.0) (pos dice.1) b.peer_pawn1_pos
          b.peer_pawn2_pos
    lift (require_moves moves)
    m ← outside (wrapping no_error (s.choose_move state moves))
    modify_state (add_game_log_entry m turn_num false (dice.0 ∷ dice.1 ∷ []))
    modify_state (λ st. record st { board = move m st.board })
    outside (wrapping error_sending (s.send_move m))

  -- One round of the loop of `Play`; `none` goes on to the next round.
  unfoldable pub play_round : ℕ → Turn (Option Bool)
  play_round turn_num = do
    take_turn turn_num
    mine ← get_state
    if win mine.board then pure (some true) else do
      other_turn turn_num
      theirs ← get_state
      if lose theirs.board then pure (some false) else pure none

  -- The loop of `Play`; `none` is a game that is still going on when the fuel runs out.
  unfoldable pub play_loop : ℕ → ℕ → Turn (Option Bool)
  play_loop zero turn_num = pure none
  play_loop (suc fuel) turn_num = do
    result ← play_round turn_num
    elim result [ some w ↦ pure (some w) | none ↦ play_loop fuel (turn_num + 1) ]

  -- `Play` starts from an empty state; the log that it returns is that of the final state.
  unfoldable pub play : ℕ → Bool → W → Result Error (Option Bool) × (State × W)
  play fuel go_first w =
      ((if go_first then pure tt else other_turn 0) >> play_loop fuel 0) (start_state, w)

  -- This player wants 6 to 10 if `high`, otherwise 1 to 5.
  abbrev pub goes_first : Bool → List ℕ → Result Error Bool
  goes_first high (r ∷ []) = ok (if high then ltb 5 r else leb r 5)
  goes_first high rolls = err (unexpected_rolls (length rolls))

  unfoldable pub roll_initiative : Bool → Exec W Error Bool
  roll_initiative high = do
    rolls ← wrapping error_rolling (s.roll_sync 1)
    lift (goes_first high rolls)

  unfoldable pub play_with_initiative : ℕ → Bool → W → Result Error (Option Bool) × (State × W)
  play_with_initiative fuel high w =
      let (r, w') = roll_initiative high w in
      elim r [
        | ok first ↦ play fuel first w'
        | err e ↦ (err e, (start_state, w'))
        | panic ↦ (panic, (start_state, w'))
      ]
