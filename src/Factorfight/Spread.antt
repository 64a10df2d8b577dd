-- ===== src/Factorfight/Spread.antt =====
-- Pawns on different squares, and the bumps of generateMoves (factorfight/move.go).
use ztg.Prelude.{◌≡◌, ◌⊎◌, inl, inr, ◌&&◌, ◌||◌, arith, Bool-cases, All, flat_map-All}
use ztg.Prelude.Int.{ℤ, pos, ==ℤ_iff, ◌==ℤ◌, ltb_ℤ}
use ztg.Factorfight.Pawn.{PawnMove, goal, pawn_moves}
use ztg.Factorfight.Moves.{
  Move, combine, allocation_moves, generate_moves, bump_status_p1, bump_status_p2,
}
use ztg.Factorfight.Board.{Board, move}

abbrev pub Apart : ℤ → ℤ → Type 0
Apart a b = a ≡ b → (a ≡ pos 0) ⊎ (a ≡ goal)

pub record IsSpread (s : Board) : Type 0 where
  pub own : Apart s.pawn1_pos s.pawn2_pos
  pub peers : Apart s.peer_pawn1_pos s.peer_pawn2_pos
  pub first_peer1 : Apart s.pawn1_pos s.peer_pawn1_pos
  pub first_peer2 : Apart s.pawn1_pos s.peer_pawn2_pos
  pub second_peer1 : Apart s.pawn2_pos s.peer_pawn1_pos
  pub second_peer2 : Apart s.pawn2_pos s.peer_pawn2_pos

-- A property of all moves that `combine` builds holds of all generated moves.
pub generate_moves_cases :
    (Q : Move → Type 0) (p1 p2 d1 d2 peer1 peer2 : ℤ)
    → ((m1 m2 : PawnMove)
        → Q (record {
          pawn1 = record m1 { bump = bump_status_p1 m1.result peer1 peer2 };
          pawn2 = record m2 { bump = bump_status_p2 m1.result m2.result peer1 peer2 };
        }))
    → All Q (generate_moves p1 p2 d1 d2 peer1 peer2)
unfolding generate_moves allocation_moves combine
generate_moves_cases Q p1 p2 d1 d2 peer1 peer2 h =
    flat_map-All Q (allocation_moves p1 p2 peer1 peer2)
      (λ a. flat_map-All Q _ (λ m1. flat_map-All Q _ (λ m2. one m1 m2) (pawn_moves p2 a.pawn2)) _) _
  where
    one : (m1 m2 : PawnMove) → All Q (combine p1 p2 peer1 peer2 m1 m2)
    one m1 m2 = elim (Bool-cases (m1.result ==ℤ p1 && m2.result ==ℤ p2)) [
      | inl a ↦ rw a tt
      | inr a ↦ elim (Bool-cases (ltb_ℤ goal m1.result || ltb_ℤ goal m2.result)) [
        | inl b ↦ rw (a, b) tt
        | inr b ↦ rw (a, b) (h m1 m2, tt)
      ]
    ]

-- Every generated move, made on a board whose pawns stand apart, leaves them apart.
pub generate_moves-IsSpread :
    (s : Board) (d1 d2 : ℤ)
    → IsSpread s
    → All
        (λ m. IsSpread (move m s))
        (generate_moves s.pawn1_pos s.pawn2_pos d1 d2 s.peer_pawn1_pos s.peer_pawn2_pos)
unfolding move bump_status_p1 bump_status_p2
generate_moves-IsSpread s d1 d2 spread =
    generate_moves_cases (λ m. IsSpread (move m s)) _ _ d1 d2 _ _
      λ m1 m2. ground (
        arith,
        ==ℤ_iff m1.result m2.result,
        ==ℤ_iff m1.result s.peer_pawn1_pos,
        ==ℤ_iff m1.result s.peer_pawn2_pos,
        ==ℤ_iff m2.result s.peer_pawn1_pos,
        ==ℤ_iff m2.result s.peer_pawn2_pos,
        ==ℤ_iff s.peer_pawn1_pos goal,
        ==ℤ_iff s.peer_pawn2_pos goal,
        ==ℤ_iff m1.result goal,
      )
