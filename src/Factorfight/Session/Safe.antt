-- ===== src/Factorfight/Session/Safe.antt =====
-- The board at the end of a certified log (factorfight/game.go).
use ztg.Prelude.{
  ◌∙◌, ℕ, ◌≡◌, refl, sym, ap, Bool, true, false, ◌&&◌, List, [], ◌∷◌, arith, All, All-In, In, ap,
}
use ztg.Prelude.Int.{ℤ, pos, ◌≤ℤ◌, ==ℤ_iff, ◌==ℤ◌}
use ztg.Factorfight.Pawn.{
  BumpStatus, goal, no_bump, bumped_peer1, bumped_peer2, bumped_self, unknown,
}
use ztg.Factorfight.Moves.{Move, generate_moves}
use ztg.Factorfight.Board.{Board, move, peer_move}
use ztg.Factorfight.Legal.{generate_moves-IsLegal}
use ztg.Factorfight.Spread.{IsSpread, generate_moves-IsSpread}
use ztg.Factorfight.Mirror.{mirror, mirror-move}
use ztg.Factorfight.Session.{GameLogEntry, State, start_board, after_move, bump_eq, same_move}
use ztg.Factorfight.Session.Log.{Replays, IsAllowed, IsCertified}

pub record IsSound (s : Board) : Type 0 where
  pub spread : IsSpread s
  pub own1 : s.pawn1_pos ≤ℤ goal
  pub own2 : s.pawn2_pos ≤ℤ goal
  pub peer1 : s.peer_pawn1_pos ≤ℤ goal
  pub peer2 : s.peer_pawn2_pos ≤ℤ goal

bump_eq→eq : (a b : BumpStatus) → bump_eq a b ≡ true → b ≡ a
bump_eq→eq no_bump no_bump h = refl
bump_eq→eq bumped_peer1 bumped_peer1 h = refl
bump_eq→eq bumped_peer2 bumped_peer2 h = refl
bump_eq→eq bumped_self bumped_self h = refl
bump_eq→eq (unknown a) (unknown b) h = ap unknown (sym ((==ℤ_iff a b).0 h))
bump_eq→eq _ _ h = cc

all_true : (a b c d : Bool) → (a && b && c && d) ≡ true → (c ≡ true) × (d ≡ true)
all_true a b c d h = ground arith

-- Moves that agree in results and bumps change a board alike.
pub same_move-move : (m x : Move) (s : Board) → same_move m x ≡ true → move m s ≡ move x s
unfolding same_move move
same_move-move m x s h =
    let e1 : m.pawn1.result ≡ x.pawn1.result =
      ground (arith, h, ==ℤ_iff x.pawn1.result m.pawn1.result) in
    let e2 : m.pawn2.result ≡ x.pawn2.result =
      ground (arith, h, ==ℤ_iff x.pawn2.result m.pawn2.result) in
    let bumps =
      all_true (x.pawn1.result ==ℤ m.pawn1.result) (x.pawn2.result ==ℤ m.pawn2.result)
        (bump_eq x.pawn1.bump m.pawn1.bump) (bump_eq x.pawn2.bump m.pawn2.bump) h in
    let b1 : m.pawn1.bump ≡ x.pawn1.bump = bump_eq→eq _ _ bumps.0 in
    let b2 : m.pawn2.bump ≡ x.pawn2.bump = bump_eq→eq _ _ bumps.1 in rw (e1, e2, b1, b2)

mirror-IsSound : (s : Board) → IsSound s → IsSound (mirror s)
unfolding mirror
mirror-IsSound s h = ground arith

move-IsSound :
    (x : Move) (s : Board) (d1 d2 : ℤ)
    → In x (generate_moves s.pawn1_pos s.pawn2_pos d1 d2 s.peer_pawn1_pos s.peer_pawn2_pos)
    → IsSound s
    → IsSound (move x s)
unfolding move
move-IsSound x s d1 d2 i h =
    let spread = All-In _ x _ (generate_moves-IsSpread s d1 d2 h.spread) i in
    let legal =
      All-In _ x _
        (generate_moves-IsLegal s.pawn1_pos s.pawn2_pos d1 d2 s.peer_pawn1_pos s.peer_pawn2_pos)
        i in
    let b1 = legal.bounded1 in
    let b2 = legal.bounded2 in
    record {
      spread = spread;
      own1 = ground (arith, b1, b2, h.peer1, h.peer2);
      own2 = ground (arith, b1, b2);
      peer1 = ground (arith, b1, b2);
      peer2 = ground (arith, b1, b2);
    }

mirrored : (m : Move) (s : Board) → mirror (move m (mirror s)) ≡ peer_move m s
mirrored m s = mirror-move m (mirror s) ∙ unfold mirror in refl

-- An allowed move keeps a board sound, whoever makes it.
after_move-IsSound :
    (p : Bool) (s : Board) (rolls : ℕ × ℕ) (m : Move)
    → IsAllowed p s rolls m
    → IsSound s
    → IsSound (after_move p m s)
after_move-IsSound false s (d1, d2) m (x, i, e) h =
    rw (same_move-move m x s e) (move-IsSound x s (pos d1) (pos d2) i h)
after_move-IsSound true s (d1, d2) m (x, i, e) h =
    let made : mirror (move m (mirror s)) ≡ peer_move m s = mirrored m s in
    rw (sym made) (
      mirror-IsSound _ (
        rw (same_move-move m x (mirror s) e)
          (move-IsSound x (mirror s) (pos d1) (pos d2) (unfold mirror in i) (mirror-IsSound s h))))

-- A certified log ends on a sound board.
Replays-IsSound :
    (b c : Board) (es : List GameLogEntry)
    → Replays b es c
    → All (λ e. IsAllowed e.is_peer e.from_state e.rolls e.move) es
    → IsSound b
    → IsSound c
Replays-IsSound b c [] r a h = rw r at h
Replays-IsSound b c (e ∷ es) (f, g, r) (x, a) h =
    Replays-IsSound e.state c es r a
      (rw g (after_move-IsSound e.is_peer b e.rolls e.move (rw f at x) h))

-- The board of a certified state is sound: no pawn is past the goal, and no two pawns share a square
-- other than the start and the goal.
pub IsCertified-IsSound : (st : State) → IsCertified st → IsSound st.board
IsCertified-IsSound st c =
    Replays-IsSound start_board st.board st.game_log c.replays c.allowed (record {
      spread = ground arith;
      own1 = omega arith;
      own2 = omega arith;
      peer1 = omega arith;
      peer2 = omega arith;
    })
