-- ===== src/Factorfight/Moves.antt =====
-- The moves that a roll of two dice allows (factorfight/move.go).
use ztg.Prelude.{◌&&◌, ◌||◌, not, List, [], ◌∷◌, flat_map, if◌then◌else◌}
use ztg.Prelude.Int.{ℤ, ltb_ℤ, ◌==ℤ◌}
use ztg.Factorfight.Pawn.{
  BumpStatus, no_bump, bumped_peer1, bumped_peer2, bumped_self, PawnMove, goal, pawn_moves,
}

pub record Move : Type 0 where
  pub pawn1 : PawnMove
  pub pawn2 : PawnMove

pub record DiceAllocation : Type 0 where
  pub pawn1 : List ℤ
  pub pawn2 : List ℤ

abbrev pub alloc : List ℤ → List ℤ → DiceAllocation
alloc a b = record { pawn1 = a; pawn2 = b }

unfoldable pub all_allocations : ℤ → ℤ → ℤ → ℤ → List DiceAllocation
all_allocations d1 d2 p1 p2 =
    if p1 ==ℤ goal && p2 ==ℤ goal
    then []
    else if p1 ==ℤ goal
    then alloc [] (d1 ∷ d2 ∷ []) ∷ []
    else if p2 ==ℤ goal
    then alloc (d1 ∷ d2 ∷ []) [] ∷ []
    else alloc [] (d1 ∷ d2 ∷ [])
      ∷ alloc (d1 ∷ d2 ∷ []) []
      ∷ alloc (d1 ∷ []) (d2 ∷ [])
      ∷ alloc (d2 ∷ []) (d1 ∷ [])
      ∷ []

-- The status of the first pawn: the test of the second peer pawn comes last and wins.
unfoldable pub bump_status_p1 : ℤ → ℤ → ℤ → BumpStatus
bump_status_p1 r1 peer1 peer2 =
    if r1 ==ℤ peer2 && not (peer2 ==ℤ goal)
    then bumped_peer2
    else if r1 ==ℤ peer1 && not (peer1 ==ℤ goal)
    then bumped_peer1
    else no_bump

-- The status of the second pawn: a bump of the first pawn wins over one of a peer pawn.
unfoldable pub bump_status_p2 : ℤ → ℤ → ℤ → ℤ → BumpStatus
unfolding bump_status_p1
bump_status_p2 r1 r2 peer1 peer2 =
    if r1 ==ℤ r2 && not (r1 ==ℤ goal) then bumped_self else bump_status_p1 r2 peer1 peer2

-- The body of the loops over the moves of the two pawns.
unfoldable pub combine : ℤ → ℤ → ℤ → ℤ → PawnMove → PawnMove → List Move
combine p1 p2 peer1 peer2 m1 m2 =
    if m1.result ==ℤ p1 && m2.result ==ℤ p2
    then []
    else if ltb_ℤ goal m1.result || ltb_ℤ goal m2.result
    then []
    else record {
      pawn1 = record m1 { bump = bump_status_p1 m1.result peer1 peer2 };
      pawn2 = record m2 { bump = bump_status_p2 m1.result m2.result peer1 peer2 };
    }
      ∷ []

unfoldable pub allocation_moves : ℤ → ℤ → ℤ → ℤ → DiceAllocation → List Move
allocation_moves p1 p2 peer1 peer2 a =
    flat_map (λ m1. flat_map (λ m2. combine p1 p2 peer1 peer2 m1 m2) (pawn_moves p2 a.pawn2))
      (pawn_moves p1 a.pawn1)

unfoldable pub generate_moves : ℤ → ℤ → ℤ → ℤ → ℤ → ℤ → List Move
generate_moves p1 p2 d1 d2 peer1 peer2 =
    flat_map (allocation_moves p1 p2 peer1 peer2) (all_allocations d1 d2 p1 p2)
