-- ===== src/Factorfight/Duel/Opening.antt =====
-- No first turn of a game wins (factorfight/game.go, factorfight/move.go).
use ztg.Prelude.{
  ok, Result-cases, succeeded, failed, panicked, List, ◌∷◌, any-In, In-any, Bool-cases, inl, inr,
  ◌⊎◌, ◌≢◌, ◌<◌, ◌≤◌, arith, ℕ, zero, suc, ◌≡◌, refl, Bool, true, false, ◌&&◌, ◌||◌, List, ◌∷◌, any,
}
use ztg.Prelude.Int.{pos, ◌==ℤ◌, ◌+ℤ◌, ◌-ℤ◌, ◌*ℤ◌, quot, rem}
use ztg.Prelude.Int64.{wrap64}
use ztg.Factorfight.Expr.{eval, eval_with_max, apply_op}
use ztg.Factorfight.Board.{Board, bump, move, win}
use ztg.Factorfight.Session.{Session, start_board, start_state, same_move, require_moves, take_turn}
use ztg.Factorfight.Session.Turns.{take_turn_moves}
use ztg.Factorfight.Duel.{IsFair}
use ztg.Factorfight.Session.Log.{allowed_moves}
use ztg.Factorfight.Session.Safe.{same_move-move}
use ztg.Factorfight.Pawn.{
  BumpStatus, no_bump, bumped_peer1, bumped_peer2, bumped_self, unknown, goal, pawn_moves,
  pawn_moves_zero_dice, pawn_moves_one_die, pawn_moves_two_dice, two_dice_pair, two_dice_body,
  try_expr,
}
use ztg.Factorfight.Moves.{
  Move, generate_moves, all_allocations, allocation_moves, combine, bump_status_p1, bump_status_p2,
}

abbrev reaches : Move → Bool
reaches m = m.pawn1.result ==ℤ goal && m.pawn2.result ==ℤ goal

-- Some number from 1 to the bound has the property.
abbrev up_to : (ℕ → Bool) → ℕ → Bool
up_to p zero = false
up_to p (suc n) = p (suc n) || up_to p n

up_to-false : (p : ℕ → Bool) (n d : ℕ) → up_to p n ≡ false → 0 < d → d ≤ n → p d ≡ false
up_to-false p zero d h a b = absurd (omega (arith, a, b))
up_to-false p (suc n) d h a b = elim (cases d (suc n)) [
  | inl e ↦ rw e (ground (arith, h))
  | inr e ↦ up_to-false p n d (ground (arith, h)) a (omega (arith, b, e))
]
  where
    cases : (x y : ℕ) → (x ≡ y) ⊎ (x ≢ y)
    cases x y = omega arith

-- A first turn with these dice has a move that brings both pawns to the goal.
abbrev opens_with : ℕ → ℕ → Bool
opens_with d1 d2 = any (generate_moves (pos 0) (pos 0) (pos d1) (pos d2) (pos 0) (pos 0)) reaches

no_opening : up_to (λ d1. up_to (opens_with d1) 20) 20 ≡ false
unfolding generate_moves all_allocations allocation_moves pawn_moves pawn_moves_zero_dice
    pawn_moves_one_die pawn_moves_two_dice two_dice_pair two_dice_body try_expr eval_with_max eval
    apply_op combine bump_status_p1 bump_status_p2 wrap64 ◌+ℤ◌ ◌-ℤ◌ ◌*ℤ◌ quot rem
no_opening = refl

-- A bump takes pawns back to the start.
win-bump : (b : BumpStatus) (s : Board) → win (bump b s) ≡ true → win s ≡ true
unfolding win
win-bump no_bump s h = h
win-bump bumped_peer1 s h = h
win-bump bumped_peer2 s h = h
win-bump bumped_self s h = absurd (ground (arith, h))
win-bump (unknown n) s h = h

win-move : (x : Move) (s : Board) → win (move x s) ≡ true → reaches x ≡ true
unfolding move
win-move x s h =
    let once = win-bump x.pawn2.bump _ h in
    let both = win-bump x.pawn1.bump _ once in unfold win in both

-- Two dice of at most twenty sides.
pub record IsDice (d : ℕ × ℕ) : Type 0 where
  pub one : 0 < d.0
  pub one_most : d.0 ≤ 20
  pub two : 0 < d.1
  pub two_most : d.1 ≤ 20

start_board-open :
    (m : Move) (d : ℕ × ℕ)
    → IsDice d
    → any (allowed_moves false start_board d) (same_move m) ≡ true
    → win (move m start_board) ≡ false
start_board-open m d dice h = elim (Bool-cases (win (move m start_board))) [
  | inr e ↦ e
  | inl e ↦
      let (x, i, agrees) = any-In (same_move m) (allowed_moves false start_board d) h in
      let won : win (move x start_board) ≡ true = rw (same_move-move m x start_board agrees) at e in
      let some_reaches =
        In-any reaches x (allowed_moves false start_board d) i (win-move x start_board won) in
      let row =
        up_to-false (λ d1. up_to (opens_with d1) 20) 20 d.0 no_opening dice.one dice.one_most in
      let none_reaches = up_to-false (opens_with d.0) 20 d.1 row dice.two dice.two_most in
      absurd (ground (arith, some_reaches, none_reaches))
]

-- A first turn by such dice and a fair strategy does not win.
pub take_turn-open :
    {W : Type 0} (s : Session W) (n : ℕ) (w : W) (d : ℕ × ℕ) (rest : List ℕ)
    → IsFair s
    → (s.roll_sync 2 w).0 ≡ ok (d.0 ∷ d.1 ∷ rest)
    → IsDice d
    → win (take_turn s n (start_state, w)).1.0.board ≡ false
take_turn-open s n w d rest fair e dice =
    let ms = allowed_moves false start_board d in
    elim (Result-cases (require_moves ms)) [
      | failed _ g ↦ unfold take_turn in ground (arith, e, g, start_board-same)
      | panicked g ↦ unfold take_turn in ground (arith, e, g, start_board-same)
      | succeeded _ g ↦ elim (Result-cases (s.choose_move start_state ms (s.roll_sync 2 w).1).0) [
        | failed never _ ↦ absurd never
        | panicked c ↦ unfold take_turn in ground (arith, e, g, c, start_board-same)
        | succeeded m c ↦
            let made = take_turn_moves s n start_state w _ d m e refl g c in
            rw made (start_board-open m d dice (fair start_state ms _ m c))
      ]
    ]
  where
    start_board-same : win start_board ≡ false
    start_board-same = unfold win in refl
