-- ===== src/Factorfight/Pawn.antt =====
-- The moves of one pawn by none, one or two dice (factorfight/move.go).
use ztg.Prelude.{
  Bool, true, false, ◌&&◌, ◌||◌, List, [], ◌∷◌, ◌++◌, Option, none, some, flat_map, if◌then◌else◌,
}
use ztg.Prelude.Int.{ℤ, pos}
use ztg.Factorfight.Expr.{Op, add, sub, mul, div, Expr, value, node, eval_with_max}

-- `unknown` is a status that is none of the four constants; only a peer can send one.
pub data BumpStatus : Type 0 where
  no_bump bumped_peer1 bumped_peer2 bumped_self : BumpStatus
  unknown : ℤ → BumpStatus

-- An absent expression is the empty `&Expr{}` of a move that came over the network.
pub record PawnMove : Type 0 where
  pub expr : Option Expr
  pub result : ℤ
  pub bump : BumpStatus

abbrev pub goal : ℤ
goal = pos 101

-- `PawnMove{Expr: expr, Result: res}`
abbrev pub plain_move : Expr → ℤ → PawnMove
plain_move e r = record { expr = some e; result = r; bump = no_bump }

-- `if res, ok := expr.EvalWithMax(goal); ok { moves = append(moves, …) }`
unfoldable pub try_expr : Expr → List PawnMove
try_expr e = elim (eval_with_max goal e) [ none ↦ [] | some r ↦ plain_move e r ∷ [] ]

unfoldable pub pawn_moves_zero_dice : ℤ → List PawnMove
pawn_moves_zero_dice start = plain_move (value start) start ∷ []

abbrev pub ops : List Op
ops = add ∷ sub ∷ mul ∷ div ∷ []

unfoldable pub pawn_moves_one_die : ℤ → ℤ → List PawnMove
pawn_moves_one_die start die = flat_map (λ op. try_expr (node op (value start) (value die))) ops

abbrev pub is_additive : Op → Bool
is_additive add = true
is_additive sub = true
is_additive _ = false

abbrev pub is_mul : Op → Bool
is_mul mul = true
is_mul _ = false

-- The two tests before `continue`.
abbrev pub order_is_irrelevant : Op → Op → Bool
order_is_irrelevant op1 op2 = (is_additive op1 && is_additive op2) || (is_mul op1 && is_mul op2)

-- The body of the three loops.
unfoldable pub two_dice_body : ℤ → ℤ → ℤ → Op → Op → List PawnMove
two_dice_body start a b op1 op2 =
    try_expr (node op2 (node op1 (value start) (value a)) (value b))
    ++ (if order_is_irrelevant op1 op2
        then []
        else try_expr (node op1 (value start) (node op2 (value a) (value b))))

unfoldable pub two_dice_pair : ℤ → ℤ × ℤ → List PawnMove
two_dice_pair start (a, b) =
    flat_map (λ op1. flat_map (λ op2. two_dice_body start a b op1 op2) ops) ops

unfoldable pub pawn_moves_two_dice : ℤ → ℤ → ℤ → List PawnMove
pawn_moves_two_dice start d1 d2 = flat_map (two_dice_pair start) ((d1, d2) ∷ (d2, d1) ∷ [])

-- The `switch` on the number of dice.
unfoldable pub pawn_moves : ℤ → List ℤ → List PawnMove
pawn_moves start [] = pawn_moves_zero_dice start
pawn_moves start (d ∷ []) = pawn_moves_one_die start d
pawn_moves start (d1 ∷ d2 ∷ []) = pawn_moves_two_dice start d1 d2
pawn_moves start (_ ∷ _ ∷ _ ∷ _) = []
