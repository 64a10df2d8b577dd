-- ===== src/Factorfight/Legal.antt =====
-- What it is for a move to be legal, and the moves of generateMoves (factorfight/move.go).
use mathlib.Core.List.{Perm}
use mathlib.Core.List.Perm
use ztg.Prelude.{
  ◌≡◌, ◌≢◌, refl, inl, inr, false, ◌&&◌, ◌||◌, ◌∙◌, List, [], ◌∷◌, ◌++◌, some, arith, ok,
  Bool-cases, Option-cases, All, All-append, All-flat_map, flat_map,
}
use ztg.Prelude.Int.{ℤ, ◌≤ℤ◌, ==ℤ_iff, ◌==ℤ◌, ltb_ℤ}
use ztg.Factorfight.Expr.{Op, Expr, value, node, eval, eval_with_max}
use ztg.Factorfight.Pawn.{
  PawnMove, goal, ops, try_expr, pawn_moves_zero_dice, pawn_moves_one_die, two_dice_body,
  two_dice_pair, pawn_moves_two_dice, pawn_moves, order_is_irrelevant,
}
use ztg.Factorfight.Moves.{
  Move, DiceAllocation, alloc, all_allocations, combine, allocation_moves, generate_moves,
}

-- The numbers in an expression, from left to right.
unfoldable pub leaves : Expr → List ℤ
leaves (value n) = n ∷ []
leaves (node op l r) = leaves l ++ leaves r

-- The pawn plays these dice from `start`: an idle pawn stays where it is.
pub record IsPlay (start : ℤ) (dice : List ℤ) (m : PawnMove) : Type 0 where
  pub formula : Expr
  pub written : m.expr ≡ some formula
  pub evaluates : eval formula ≡ ok m.result
  pub uses : Perm (leaves formula) (start ∷ dice)
  pub idle : dice ≡ [] → m.result ≡ start

pub record IsLegal (p1 p2 d1 d2 : ℤ) (m : Move) : Type 0 where
  pub dice : DiceAllocation
  pub all_dice : Perm (dice.pawn1 ++ dice.pawn2) (d1 ∷ d2 ∷ [])
  pub play1 : IsPlay p1 dice.pawn1 m.pawn1
  pub play2 : IsPlay p2 dice.pawn2 m.pawn2
  pub moved : ¬ ((m.pawn1.result ≡ p1) × (m.pawn2.result ≡ p2))
  pub bounded1 : m.pawn1.result ≤ℤ goal
  pub bounded2 : m.pawn2.result ≤ℤ goal
  pub stays1 : p1 ≡ goal → m.pawn1.result ≡ goal
  pub stays2 : p2 ≡ goal → m.pawn2.result ≡ goal

-- A value that passes `EvalWithMax` is the value of the expression, and at most the bound.
pub eval_with_max-some :
    (max : ℤ) (e : Expr) {r : ℤ} → eval_with_max max e ≡ some r → (eval e ≡ ok r) × (r ≤ℤ max)
unfolding eval_with_max
eval_with_max-some max e h = ground arith

try_expr-IsPlay :
    (start : ℤ) (dice : List ℤ) (e : Expr)
    → dice ≢ []
    → Perm (leaves e) (start ∷ dice)
    → All (IsPlay start dice) (try_expr e)
unfolding try_expr
try_expr-IsPlay start dice e some_dice p = elim (Option-cases (eval_with_max goal e)) [
  | inl q ↦ rw (q, try_expr) tt
  | inr (r, q) ↦
      rw (q, try_expr)
        (
          record {
            formula = e;
            written = refl;
            evaluates = (eval_with_max-some goal e q).0;
            uses = p;
            idle = λ n. absurd (some_dice n);
          },
          tt,
        )
]

each_op :
    {A : Type 0} (Q : A → Type 0) (f : Op → List A)
    → ((op : Op) → All Q (f op))
    → All Q (flat_map f ops)
each_op Q f h = All-flat_map (λ _. Unit {0}) Q f (λ op _. h op) ops (tt, (tt, (tt, (tt, tt))))

two_dice_body-IsPlay :
    (start a b : ℤ) (dice : List ℤ) (op1 op2 : Op)
    → dice ≢ []
    → Perm (start ∷ a ∷ b ∷ []) (start ∷ dice)
    → All (IsPlay start dice) (two_dice_body start a b op1 op2)
unfolding two_dice_body leaves
two_dice_body-IsPlay start a b dice op1 op2 n p =
    All-append (IsPlay start dice)
      (try_expr (node op2 (node op1 (value start) (value a)) (value b))) _
      (try_expr-IsPlay start dice _ n p)
      (elim (Bool-cases (order_is_irrelevant op1 op2)) [
        | inl q ↦ rw q tt
        | inr q ↦ rw q (try_expr-IsPlay start dice _ n p)
      ])

two_dice-IsPlay :
    (start d1 d2 : ℤ) → All (IsPlay start (d1 ∷ d2 ∷ [])) (pawn_moves_two_dice start d1 d2)
unfolding pawn_moves_two_dice
two_dice-IsPlay start d1 d2 =
    All-flat_map (λ (q : ℤ × ℤ). Perm (start ∷ q.0 ∷ q.1 ∷ []) (start ∷ d1 ∷ d2 ∷ []))
      (IsPlay start (d1 ∷ d2 ∷ [])) (two_dice_pair start) body ((d1, d2) ∷ (d2, d1) ∷ [])
      (Perm.refl _, (Perm.cons start (Perm.swap d1 d2 []), tt))
  where
    body :
        (q : ℤ × ℤ)
        → Perm (start ∷ q.0 ∷ q.1 ∷ []) (start ∷ d1 ∷ d2 ∷ [])
        → All (IsPlay start (d1 ∷ d2 ∷ [])) (two_dice_pair start q)
    body (a, b) p =
        unfold two_dice_pair in
        each_op _ _ λ op1.
          each_op _ _ λ op2. two_dice_body-IsPlay start a b (d1 ∷ d2 ∷ []) op1 op2 (λ e. cc) p

-- Every move of a pawn plays the dice that it was given.
pub pawn_moves-IsPlay :
    (start : ℤ) (dice : List ℤ) → All (IsPlay start dice) (pawn_moves start dice)
unfolding pawn_moves pawn_moves_zero_dice pawn_moves_one_die leaves eval
pawn_moves-IsPlay start [] = (
  record {
    formula = value start;
    written = refl;
    evaluates = refl;
    uses = Perm.refl _;
    idle = λ _. refl;
  },
  tt,
)
pawn_moves-IsPlay start (d ∷ []) =
    each_op _ _
      λ op. try_expr-IsPlay start (d ∷ []) (node op (value start) (value d)) (λ e. cc) (Perm.refl _)
pawn_moves-IsPlay start (d1 ∷ d2 ∷ []) = two_dice-IsPlay start d1 d2
pawn_moves-IsPlay start (_ ∷ _ ∷ _ ∷ _) = tt

-- An allocation deals both dice, and none to a pawn on the goal.
record IsDeal (p1 p2 d1 d2 : ℤ) (a : DiceAllocation) : Type 0 where
  both : Perm (a.pawn1 ++ a.pawn2) (d1 ∷ d2 ∷ [])
  none1 : p1 ≡ goal → a.pawn1 ≡ []
  none2 : p2 ≡ goal → a.pawn2 ≡ []

not_on_goal : {p : ℤ} {A : Type 0} → (p ==ℤ goal) ≡ false → p ≡ goal → A
not_on_goal {p} f e = absurd (ground (arith, ==ℤ_iff p goal))

all_allocations-IsDeal : (d1 d2 p1 p2 : ℤ) → All (IsDeal p1 p2 d1 d2) (all_allocations d1 d2 p1 p2)
unfolding all_allocations
all_allocations-IsDeal d1 d2 p1 p2 = elim (Bool-cases (p1 ==ℤ goal)) [
  | inl a ↦ elim (Bool-cases (p2 ==ℤ goal)) [
    | inl b ↦ rw (a, b) tt
    | inr b ↦
        rw (a, b) (record { both = Perm.refl _; none1 = λ _. refl; none2 = not_on_goal b }, tt)
  ]
  | inr a ↦ elim (Bool-cases (p2 ==ℤ goal)) [
    | inl b ↦
        rw (a, b) (record { both = Perm.refl _; none1 = not_on_goal a; none2 = λ _. refl }, tt)
    | inr b ↦
        let deal = λ (x y : List ℤ) (q : Perm (x ++ y) (d1 ∷ d2 ∷ [])).
          let r : IsDeal p1 p2 d1 d2 (alloc x y) = record {
            both = q;
            none1 = not_on_goal a;
            none2 = not_on_goal b;
          } in
          r in
        rw (a, b)
          (
            deal [] _ (Perm.refl _),
            (
              deal _ [] (Perm.refl _),
              (deal _ _ (Perm.refl _), (deal _ _ (Perm.swap d1 d2 []), tt)),
            ),
          )
  ]
]

module _ (p1 p2 d1 d2 peer1 peer2 : ℤ) where
  combine-IsLegal :
      (a : DiceAllocation)
      → IsDeal p1 p2 d1 d2 a
      → (m1 m2 : PawnMove) → IsPlay p1 a.pawn1 m1
      → IsPlay p2 a.pawn2 m2
      → All (IsLegal p1 p2 d1 d2) (combine p1 p2 peer1 peer2 m1 m2)
  unfolding combine
  combine-IsLegal a deal m1 m2 play1 play2 =
      elim (Bool-cases (m1.result ==ℤ p1 && m2.result ==ℤ p2)) [
        | inl unmoved ↦ rw unmoved tt
        | inr changed ↦ elim (Bool-cases (ltb_ℤ goal m1.result || ltb_ℤ goal m2.result)) [
          | inl past ↦ rw (changed, past) tt
          | inr within ↦
              rw (changed, within)
                (
                  record {
                    dice = a;
                    all_dice = deal.both;
                    play1 = record {
                      formula = play1.formula;
                      written = play1.written;
                      evaluates = play1.evaluates;
                      uses = play1.uses;
                      idle = play1.idle;
                    };
                    play2 = record {
                      formula = play2.formula;
                      written = play2.written;
                      evaluates = play2.evaluates;
                      uses = play2.uses;
                      idle = play2.idle;
                    };
                    moved = λ e.
                        ground
                          (arith, changed, ==ℤ_iff m1.result p1, ==ℤ_iff m2.result p2, e.0, e.1);
                    bounded1 = ground (arith, within);
                    bounded2 = ground (arith, within);
                    stays1 = λ e. play1.idle (deal.none1 e) ∙ e;
                    stays2 = λ e. play2.idle (deal.none2 e) ∙ e;
                  },
                  tt,
                )
        ]
      ]

  -- Every generated move uses the two dice exactly once between the pawns and each pawn's position
  -- once, its results are the values of its expressions, are at most the goal and are not both
  -- unchanged, and a pawn on the goal stays there.
  pub generate_moves-IsLegal : All (IsLegal p1 p2 d1 d2) (generate_moves p1 p2 d1 d2 peer1 peer2)
  unfolding generate_moves allocation_moves
  generate_moves-IsLegal =
      All-flat_map _ _ (allocation_moves p1 p2 peer1 peer2)
        (λ a deal.
          All-flat_map _ _ _
            (λ m1 play1.
              All-flat_map _ _ _ (λ m2 play2. combine-IsLegal a deal m1 m2 play1 play2) _
                (pawn_moves-IsPlay p2 a.pawn2))
            _ (pawn_moves-IsPlay p1 a.pawn1))
        _ (all_allocations-IsDeal d1 d2 p1 p2)
