-- ===== src/Factorfight/Mirror.antt =====
-- The board from the side of the other player (factorfight/game.go).
use ztg.Prelude.{◌≡◌, refl}
use ztg.Factorfight.Pawn.{no_bump, bumped_peer1, bumped_peer2, bumped_self, unknown, BumpStatus}
use ztg.Factorfight.Moves.{Move}
use ztg.Factorfight.Board.{Board, bump, peer_bump, move, peer_move, win, lose}

-- The board as the other player sees it.
unfoldable pub mirror : Board → Board
mirror s = record {
  pawn1_pos = s.peer_pawn1_pos;
  pawn2_pos = s.peer_pawn2_pos;
  peer_pawn1_pos = s.pawn1_pos;
  peer_pawn2_pos = s.pawn2_pos;
}

mirror-bump : (b : BumpStatus) (s : Board) → mirror (bump b s) ≡ peer_bump b (mirror s)
unfolding mirror
mirror-bump no_bump s = refl
mirror-bump bumped_peer1 s = refl
mirror-bump bumped_peer2 s = refl
mirror-bump bumped_self s = refl
mirror-bump (unknown n) s = refl

-- A move that one player makes is for the other player the peer's move.
pub mirror-move : (m : Move) (s : Board) → mirror (move m s) ≡ peer_move m (mirror s)
unfolding move peer_move mirror
mirror-move m s = cc (
  mirror-bump m.pawn2.bump
      (bump m.pawn1.bump (record s { pawn1_pos = m.pawn1.result; pawn2_pos = m.pawn2.result })),
  mirror-bump m.pawn1.bump (record s { pawn1_pos = m.pawn1.result; pawn2_pos = m.pawn2.result }),
)

pub win-mirror : (s : Board) → win (mirror s) ≡ lose s
unfolding win lose mirror
win-mirror s = refl
