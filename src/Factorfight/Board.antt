-- ===== src/Factorfight/Board.antt =====
-- The positions of the four pawns and how a move changes them (factorfight/game.go).
use ztg.Prelude.{Bool, ◌&&◌}
use ztg.Prelude.Int.{ℤ, pos, ◌==ℤ◌}
use ztg.Factorfight.Pawn.{BumpStatus, bumped_peer1, bumped_peer2, bumped_self, goal}
use ztg.Factorfight.Moves.{Move}

-- The four positions of a `State`; the game log stands beside them.
pub record Board : Type 0 where
  pub pawn1_pos : ℤ
  pub pawn2_pos : ℤ
  pub peer_pawn1_pos : ℤ
  pub peer_pawn2_pos : ℤ

-- The `switch` on a bump in `Move`.
abbrev pub bump : BumpStatus → Board → Board
bump bumped_peer1 s = record s { peer_pawn1_pos = pos 0 }
bump bumped_peer2 s = record s { peer_pawn2_pos = pos 0 }
bump bumped_self s = record s { pawn1_pos = pos 0 }
bump _ s = s

unfoldable pub move : Move → Board → Board
move m s =
    bump m.pawn2.bump
      (bump m.pawn1.bump (record s { pawn1_pos = m.pawn1.result; pawn2_pos = m.pawn2.result }))

-- The `switch` on a bump in `PeerMove`.
abbrev pub peer_bump : BumpStatus → Board → Board
peer_bump bumped_peer1 s = record s { pawn1_pos = pos 0 }
peer_bump bumped_peer2 s = record s { pawn2_pos = pos 0 }
peer_bump bumped_self s = record s { peer_pawn1_pos = pos 0 }
peer_bump _ s = s

unfoldable pub peer_move : Move → Board → Board
peer_move m s = peer_bump m.pawn2.bump (
    peer_bump m.pawn1.bump
      (record s { peer_pawn1_pos = m.pawn1.result; peer_pawn2_pos = m.pawn2.result }))

unfoldable pub win : Board → Bool
win s = s.pawn1_pos ==ℤ goal && s.pawn2_pos ==ℤ goal

unfoldable pub lose : Board → Bool
lose s = s.peer_pawn1_pos ==ℤ goal && s.peer_pawn2_pos ==ℤ goal
