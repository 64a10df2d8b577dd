-- ===== src/Factorfight/Duel.antt =====
-- Two games of one match: what the strategies and the connection of the two players do, and what it is
-- for the two games to agree (factorfight/game.go).
pub mod Shared
pub mod Rounds
pub mod Opening
pub mod Agreement
pub mod Initiative
mod Tests
use ztg.Prelude.{
  if◌then◌else◌, subst, ℕ, zero, suc, ◌+◌, ◌≤◌, ◌≡◌, refl, sym, ap, ◌∙◌, Bool, true, false, not,
  List, [], ◌∷◌, Option, none, some, any, Result, ok, err, panic, Result-cases, succeeded, failed,
  panicked, arith, Bool-cases, inl, inr,
}
use ztg.Factorfight.Moves.{Move}
use ztg.Factorfight.Board.{Board, move, peer_move, win, lose}
use ztg.Factorfight.Mirror.{mirror, mirror-move, win-mirror}
use ztg.Factorfight.Session.{
  State, Session, Turn, Error, start_state, start_board, same_move, check_move, validate_move,
  first_two, require_moves, other_turn, take_turn, play_round, play_loop, play, get_state,
}
use ztg.Prelude.Exec.{◌>>=◌, ◌>>◌, pure}
use ztg.Factorfight.Session.Log.{allowed_moves}
use ztg.Factorfight.Session.Turns.{other_turn_accepts, take_turn_moves}

-- The strategy chooses a move that agrees with one of those it is given.
abbrev pub IsFair : {W : Type 0} → Session W → Type 0
IsFair {W} s =
    (st : State) (ms : List Move) (w : W) (m : Move)
    → (s.choose_move st ms w).0 ≡ ok m
    → any ms (same_move m) ≡ true

-- When worlds are the same before a turn of `s`, and the turn has rolled and sent its move, then
-- the other player sees the same rolls and this move, and the worlds are the same before its turn.
abbrev pub Delivers :
    {W V : Type 0} → Session W → Session V → (W → V → Type 0) → (V → W → Type 0) → Type 0
Delivers {W} {V} s s' same same' =
    (w : W) (v : V)
    → same w v
    → (rolls : List ℕ) (st : State) (ms : List Move) (m : Move) → (s.roll_sync 2 w).0 ≡ ok rolls
    → (s.choose_move st ms (s.roll_sync 2 w).1).0 ≡ ok m
    → (s.send_move m (s.choose_move st ms (s.roll_sync 2 w).1).1).0 ≡ ok tt
    → ((s'.roll_sync 2 v).0 ≡ ok rolls)
      × ((s'.recv_move (s'.roll_sync 2 v).1).0 ≡ ok m)
      × same' (s'.recv_move (s'.roll_sync 2 v).1).1
          (s.send_move m (s.choose_move st ms (s.roll_sync 2 w).1).1).1

-- One player says that it has won and the other that it has lost, on boards that mirror each other.
pub record Agrees {W V : Type 0} (x : Result Error (Option Bool) × (State × W))
    (y : Result Error (Option Bool) × (State × V)) (b c : Bool) : Type 0 where
  pub opposite : c ≡ not b
  pub mirrored : y.1.0.board ≡ mirror x.1.0.board
