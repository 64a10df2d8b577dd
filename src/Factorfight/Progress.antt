-- ===== src/Factorfight/Progress.antt =====
-- Whether generateMoves has a move to offer (factorfight/move.go).
use ztg.Prelude.{
  ℕ, ◌+◌, ◌^◌, ◌≤◌, ◌<◌, ◌≡◌, ◌≢◌, refl, true, false, ◌&&◌, ◌||◌, List, [], ◌∷◌, arith, ap, In,
  flat_map, In-flat_map, In-append_left, Bool-cases, inl, inr, ok,
}
use ztg.Prelude.Int.{
  ℤ, pos, negsuc, pos_part, neg_part, ◌-ℤ◌, ◌≤ℤ◌, ==ℤ_iff, ◌==ℤ◌, ltb_ℤ, -ℤ_parts,
}
use ztg.Prelude.Int64.{wrap64_fits}
use ztg.Factorfight.Expr.{Expr, sub, value, node, eval, apply_op, eval_with_max}
use ztg.Factorfight.Pawn.{
  PawnMove, goal, ops, plain_move, try_expr, two_dice_body, two_dice_pair, pawn_moves_two_dice,
  pawn_moves, pawn_moves_zero_dice,
}
use ztg.Factorfight.Moves.{
  Move, DiceAllocation, alloc, all_allocations, combine, allocation_moves, generate_moves,
  bump_status_p1, bump_status_p2,
}

-- The position is far from where 64 bits wrap around.
abbrev pub IsFarFromWrap : ℤ → Type 0
IsFarFromWrap p = (p ≤ℤ goal) × (neg_part p ≤ 2 ^ 62)

-- The move that subtracts both dice.
abbrev step_back : ℤ → ℤ → ℤ → Expr
step_back p d1 d2 = node sub (node sub (value p) (value d1)) (value d2)

sub_bounds :
    (p : ℤ) (d : ℕ)
    → (pos_part (p -ℤ pos d) ≤ pos_part p) × (neg_part (p -ℤ pos d) ≤ neg_part p + d)
unfolding ◌-ℤ◌
sub_bounds (pos n) d = ground arith
sub_bounds (negsuc n) d = ground arith

sub_twice :
    (p : ℤ) (d1 d2 : ℕ)
    → 0 < d1
    → (p -ℤ pos d1 -ℤ pos d2 ≢ p) × (p ≤ℤ goal → p -ℤ pos d1 -ℤ pos d2 ≤ℤ goal)
sub_twice p d1 d2 h =
    let a = -ℤ_parts p (pos d1) in
    let b = -ℤ_parts (p -ℤ pos d1) (pos d2) in
    ((λ e. omega (arith, a, b, ap pos_part e, ap neg_part e)), (λ h. omega (arith, a, b)))

try_expr-value :
    (e : Expr) (r : ℤ) → eval e ≡ ok r → ltb_ℤ goal r ≡ false → try_expr e ≡ plain_move e r ∷ []
unfolding try_expr eval_with_max
try_expr-value e r h k = ground (arith, h, k)

module _ (p : ℤ) (d1 d2 : ℕ) (far : IsFarFromWrap p) (die1 : d1 < 2 ^ 16) (die2 : d2 < 2 ^ 16) where
  eval-step_back : eval (step_back p (pos d1) (pos d2)) ≡ ok (p -ℤ pos d1 -ℤ pos d2)
  unfolding eval apply_op
  eval-step_back =
      let a = sub_bounds p d1 in
      let b = sub_bounds (p -ℤ pos d1) d2 in
      rw (wrap64_fits (p -ℤ pos d1) (omega (arith, a.0, a.1)))
        (rw (wrap64_fits (p -ℤ pos d1 -ℤ pos d2) (omega (arith, a.0, a.1, b.0, b.1))))

  -- Subtracting both dice is always possible.
  step_back-In :
      0 < d1
      → In
          (plain_move (step_back p (pos d1) (pos d2)) (p -ℤ pos d1 -ℤ pos d2))
          (pawn_moves p (pos d1 ∷ pos d2 ∷ []))
  unfolding pawn_moves pawn_moves_two_dice two_dice_pair two_dice_body
  step_back-In h =
      In-flat_map (two_dice_pair p) (pos d1, pos d2) m ((pos d1, pos d2) ∷ (pos d2, pos d1) ∷ [])
        (inl refl)
        (In-flat_map (λ op1. flat_map (λ op2. two_dice_body p (pos d1) (pos d2) op1 op2) ops) sub m
          ops (inr (inl refl))
          (In-flat_map (λ op2. two_dice_body p (pos d1) (pos d2) sub op2) sub m ops (inr (inl refl))
            (In-append_left m (try_expr (step_back p (pos d1) (pos d2))) [] tried)))
    where
      m : PawnMove
      m = plain_move (step_back p (pos d1) (pos d2)) (p -ℤ pos d1 -ℤ pos d2)

      tried :
          In
            (plain_move (step_back p (pos d1) (pos d2)) (p -ℤ pos d1 -ℤ pos d2))
            (try_expr (step_back p (pos d1) (pos d2)))
      tried = rw tries (inl refl)
        where
          below : ltb_ℤ goal (p -ℤ pos d1 -ℤ pos d2) ≡ false
          below = ground (arith, (sub_twice p d1 d2 h).1 far.0)

          tries :
              try_expr (step_back p (pos d1) (pos d2))
              ≡ plain_move (step_back p (pos d1) (pos d2)) (p -ℤ pos d1 -ℤ pos d2) ∷ []
          tries = try_expr-value _ _ eval-step_back below

-- A pawn move that changes a position and stays within the goal gives a move of the pair.
combine-In :
    (p1 p2 peer1 peer2 : ℤ) (m1 m2 : PawnMove)
    → ¬ ((m1.result ≡ p1) × (m2.result ≡ p2))
    → m1.result ≤ℤ goal
    → m2.result ≤ℤ goal
    → (m : Move) × In m (combine p1 p2 peer1 peer2 m1 m2)
unfolding combine
combine-In p1 p2 peer1 peer2 m1 m2 changed b1 b2 = (
  record {
    pawn1 = record m1 { bump = bump_status_p1 m1.result peer1 peer2 };
    pawn2 = record m2 { bump = bump_status_p2 m1.result m2.result peer1 peer2 };
  },
  rw (unchanged, within) (inl refl),
)
  where
    unchanged : (m1.result ==ℤ p1 && m2.result ==ℤ p2) ≡ false
    unchanged = elim (Bool-cases (m1.result ==ℤ p1 && m2.result ==ℤ p2)) [
      | inl h ↦ absurd (
          changed
            (ground (arith, h, ==ℤ_iff m1.result p1), ground (arith, h, ==ℤ_iff m2.result p2)))
      | inr h ↦ h
    ]

    within : (ltb_ℤ goal m1.result || ltb_ℤ goal m2.result) ≡ false
    within = ground (arith, b1, b2)

In-nonempty : {A : Type 0} (a : A) (xs : List A) → In a xs → xs ≢ []
In-nonempty a [] i e = absurd i
In-nonempty a (x ∷ xs) i e = cc

module _ (p1 p2 peer1 peer2 : ℤ) (d1 d2 : ℕ) where
  allocated :
      (a : DiceAllocation) (m1 m2 : PawnMove)
      → In a (all_allocations (pos d1) (pos d2) p1 p2)
      → In m1 (pawn_moves p1 a.pawn1)
      → In m2 (pawn_moves p2 a.pawn2)
      → ¬ ((m1.result ≡ p1) × (m2.result ≡ p2))
      → m1.result ≤ℤ goal
      → m2.result ≤ℤ goal
      → generate_moves p1 p2 (pos d1) (pos d2) peer1 peer2 ≢ []
  unfolding generate_moves allocation_moves
  allocated a m1 m2 i j k changed b1 b2 =
      let found = combine-In p1 p2 peer1 peer2 m1 m2 changed b1 b2 in
      In-nonempty found.0 _ (
        In-flat_map (allocation_moves p1 p2 peer1 peer2) a found.0 _ i (
          In-flat_map (λ x. flat_map (combine p1 p2 peer1 peer2 x) (pawn_moves p2 a.pawn2)) m1
            found.0 _ j (In-flat_map (combine p1 p2 peer1 peer2 m1) m2 found.0 _ k found.1)))

  -- For pawns at most on the goal and at least at -2^62 that are not both on the goal, and two dice
  -- from 1 to 65535, there is a move: the dice can be subtracted.
  pub generate_moves-nonempty :
      IsFarFromWrap p1
      → IsFarFromWrap p2
      → ¬ ((p1 ≡ goal) × (p2 ≡ goal))
      → 0 < d1
      → d1 < 2 ^ 16
      → 0 < d2
      → d2 < 2 ^ 16
      → generate_moves p1 p2 (pos d1) (pos d2) peer1 peer2 ≢ []
  generate_moves-nonempty far1 far2 playing h1 k1 h2 k2 = elim (Bool-cases (p2 ==ℤ goal)) [
    | inl done2 ↦
        allocated (alloc (pos d1 ∷ pos d2 ∷ []) []) _ (plain_move (value p2) p2) (second done2)
          (step_back-In p1 d1 d2 far1 k1 k2 h1) idle2 (λ e. (sub_twice p1 d1 d2 h1).0 e.0)
          ((sub_twice p1 d1 d2 h1).1 far1.0) far2.0
    | inr open2 ↦
        allocated (alloc [] (pos d1 ∷ pos d2 ∷ [])) (plain_move (value p1) p1) _ (first open2) idle1
          (step_back-In p2 d1 d2 far2 k1 k2 h1) (λ e. (sub_twice p2 d1 d2 h1).0 e.1) far1.0
          ((sub_twice p2 d1 d2 h1).1 far2.0)
  ]
    where
      idle1 : In (plain_move (value p1) p1) (pawn_moves p1 [])
      idle1 = unfold pawn_moves pawn_moves_zero_dice in inl refl

      idle2 : In (plain_move (value p2) p2) (pawn_moves p2 [])
      idle2 = unfold pawn_moves pawn_moves_zero_dice in inl refl

      first :
          (p2 ==ℤ goal) ≡ false
          → In (alloc [] (pos d1 ∷ pos d2 ∷ [])) (all_allocations (pos d1) (pos d2) p1 p2)
      first h =
          unfold all_allocations in
          elim (Bool-cases (p1 ==ℤ goal)) [
            | inl g ↦ rw (g, h) (inl refl)
            | inr g ↦ rw (g, h) (inl refl)
          ]

      second :
          (p2 ==ℤ goal) ≡ true
          → In (alloc (pos d1 ∷ pos d2 ∷ []) []) (all_allocations (pos d1) (pos d2) p1 p2)
      second h =
          unfold all_allocations in
          elim (Bool-cases (p1 ==ℤ goal)) [
            | inl g ↦ absurd (playing ((==ℤ_iff p1 goal).0 g, (==ℤ_iff p2 goal).0 h))
            | inr g ↦ rw (g, h) (inl refl)
          ]
