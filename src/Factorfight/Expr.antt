-- ===== src/Factorfight/Expr.antt =====
-- Arithmetic expressions over a pawn's position and the dice (factorfight/move.go). Go's `int` has
-- 64 bits and wraps around. A pointer to an `Expr` whose `Value` is set is `value`, one whose `Op`,
-- `Left` and `Right` are set is `node`; an empty `Expr` is the absent expression of a `PawnMove`.
use ztg.Prelude.{
  ◌||◌, Option, none, some, Result, ok, err, panic, ◌>>=◌, if◌then◌else◌, String, not,
}
use ztg.Prelude.Int.{ℤ, pos, ◌+ℤ◌, ◌-ℤ◌, ◌*ℤ◌, quot, rem, ◌==ℤ◌, ltb_ℤ}
use ztg.Prelude.Int64.{wrap64}

-- `Op` is a string type; `other` is any string but the four operators.
pub data Op : Type 0 where
  add sub mul div : Op
  other : String → Op

pub data Expr : Type 0 where
  value : ℤ → Expr
  node : Op → Expr → Expr → Expr

pub data EvalError : Type 0 where
  invalid_division unknown_op : EvalError

-- The `switch` at the end of `Eval`.
unfoldable pub apply_op : Op → ℤ → ℤ → Result EvalError ℤ
apply_op add l r = ok (wrap64 (l +ℤ r))
apply_op sub l r = ok (wrap64 (l -ℤ r))
apply_op mul l r = ok (wrap64 (l *ℤ r))
apply_op div l r =
    if r ==ℤ pos 0 || not (rem l r ==ℤ pos 0) then err invalid_division else ok (wrap64 (quot l r))
apply_op (other s) l r = err unknown_op

unfoldable pub eval : Expr → Result EvalError ℤ
eval (value n) = ok n
eval (node op left right) = do l ← eval left; r ← eval right; apply_op op l r

-- `none` is the result `0, false`.
unfoldable pub eval_with_max : ℤ → Expr → Option ℤ
eval_with_max max e = elim (eval e) [
  | ok r ↦ if ltb_ℤ max r then none else some r
  | err _ ↦ none
  | panic ↦ none
]
