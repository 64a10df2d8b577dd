-- ===== src/Factorfight/Print.antt =====
-- The texts of expressions, statuses and game logs (factorfight/move.go, factorfight/game.go).
-- `strconv.Itoa` is a parameter, which `%d` prints as well.
use Prim.Native.String.{◌++◌ as str_append}
use ztg.Prelude.{List, [], ◌∷◌, Option, none, some, String, if◌then◌else◌, length}
use ztg.Prelude.Int.{ℤ, pos}
use ztg.Factorfight.Expr.{Op, add, sub, mul, div, other, Expr, value, node}
use ztg.Factorfight.Pawn.{
  BumpStatus, no_bump, bumped_peer1, bumped_peer2, bumped_self, unknown, PawnMove,
}
use ztg.Factorfight.Board.{Board, win}
use ztg.Factorfight.Session.{GameLogEntry}

abbrev pub op_string : Op → String
op_string add = "+"
op_string sub = "-"
op_string mul = "*"
op_string div = "/"
op_string (other s) = s

abbrev pub bump_string : BumpStatus → String
bump_string no_bump = "NoBump"
bump_string bumped_peer1 = "BumpedPeer1"
bump_string bumped_peer2 = "BumpedPeer2"
bump_string bumped_self = "BumpedSelf"
bump_string (unknown _) = "Unknown"

-- The texts one after the other.
abbrev pub joined : List String → String
joined [] = ""
joined (s ∷ ss) = str_append s (joined ss)

module _ (itoa : ℤ → String) where
  unfoldable pub expr_string : Expr → String
  expr_string (value n) = itoa n
  expr_string (node op l r) = str_append "(" (
      str_append (expr_string l) (
        str_append " "
          (str_append (op_string op) (str_append " " (str_append (expr_string r) ")")))))

  -- An empty expression prints its absent operands as the `fmt` package prints nil.
  abbrev pub optional_string : Option Expr → String
  optional_string none = "(<nil>  <nil>)"
  optional_string (some e) = expr_string e

  abbrev pub pawn_line : String → PawnMove → String
  pawn_line name p = joined (
      name
      ∷ optional_string p.expr
      ∷ " → "
      ∷ itoa p.result
      ∷ " ("
      ∷ bump_string p.bump
      ∷ ")\n"
      ∷ [])

  abbrev pub board_line : String → Board → String
  board_line name b = joined (
      name
      ∷ "P1="
      ∷ itoa b.pawn1_pos
      ∷ ", P2="
      ∷ itoa b.pawn2_pos
      ∷ " | PeerP1="
      ∷ itoa b.peer_pawn1_pos
      ∷ ", PeerP2="
      ∷ itoa b.peer_pawn2_pos
      ∷ "\n"
      ∷ [])

  abbrev pub entry_string : GameLogEntry → String
  entry_string e = joined (
      "Turn "
      ∷ itoa (pos e.turn_num)
      ∷ " - "
      ∷ e.player
      ∷ (if e.is_peer then " (peer)" else "")
      ∷ ":\n  Rolls: ["
      ∷ itoa (pos e.rolls.0)
      ∷ ", "
      ∷ itoa (pos e.rolls.1)
      ∷ "]\n"
      ∷ pawn_line "  Pawn1: " e.move.pawn1
      ∷ pawn_line "  Pawn2: " e.move.pawn2
      ∷ board_line "   From: " e.from_state
      ∷ board_line "  State: " e.state
      ∷ "\n"
      ∷ [])

  -- The loop over the entries, and the line about the last of them.
  unfoldable pub entries_string : GameLogEntry → List GameLogEntry → String
  entries_string e [] = str_append (entry_string e) (if win e.state then "Win!\n" else "Lose!\n")
  entries_string e (e' ∷ es) = str_append (entry_string e) (entries_string e' es)

  unfoldable pub game_log_string : List GameLogEntry → String
  game_log_string [] = "No moves logged yet."
  game_log_string (e ∷ es) = joined (
      "Game Log ("
      ∷ itoa (pos (length (e ∷ es)))
      ∷ " moves):\n================\n"
      ∷ entries_string e es
      ∷ [])
