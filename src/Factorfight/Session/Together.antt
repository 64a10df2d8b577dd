-- ===== src/Factorfight/Session/Together.antt =====
-- A turn on both sides: TakeTurn of the one player and OtherTurn of the other
-- (factorfight/game.go).
use ztg.Prelude.{ℕ, ◌≡◌, refl, ap, List, [], ◌∷◌, ok, true, false, In, any, In-any, sym, ◌∙◌}
use ztg.Factorfight.Moves.{Move}
use ztg.Factorfight.Board.{Board, peer_move}
use ztg.Factorfight.Mirror.{mirror, mirror-move}
use ztg.Factorfight.Session.{
  State, Session, same_move, check_move, validate_move, require_moves, other_turn, take_turn,
}
use ztg.Factorfight.Session.Log.{allowed_moves, same_move_refl}
use ztg.Factorfight.Session.Turns.{other_turn_accepts, take_turn_moves}

check_move-accepts : (xs : List Move) (m : Move) → In m xs → check_move xs m ≡ ok tt
unfolding check_move
check_move-accepts [] m i = absurd i
check_move-accepts (x ∷ xs) m i =
    let found : any (x ∷ xs) (same_move m) ≡ true =
      In-any (same_move m) m (x ∷ xs) i (same_move_refl m) in
    rw found

-- A move that one player is allowed passes the validation of the other.
validate_move-mirror :
    (d1 d2 : ℕ) (rest : List ℕ) (b : Board) (m : Move)
    → In m (allowed_moves false b (d1, d2))
    → validate_move (d1 ∷ d2 ∷ rest) (mirror b) m ≡ ok tt
unfolding validate_move mirror
validate_move-mirror d1 d2 rest b m i = check_move-accepts (allowed_moves false b (d1, d2)) m i

require_moves-In : (xs : List Move) (m : Move) → In m xs → require_moves xs ≡ ok tt
require_moves-In [] m i = absurd i
require_moves-In (_ ∷ _) m i = refl

-- If both players see the same rolls, the strategy of the one picks from its moves and the move
-- comes through, then the turn of the one is accepted by the other, and mirrored boards are
-- mirrored after it.
pub other_turn-take_turn :
    {W V : Type 0} (s : Session W) (s' : Session V) (n k : ℕ) (st st' : State) (w : W) (v : V)
    (d1 d2 : ℕ) (rest : List ℕ) (m : Move)
    → st'.board ≡ mirror st.board
    → (s.roll_sync 2 w).0 ≡ ok (d1 ∷ d2 ∷ rest)
    → (s'.roll_sync 2 v).0 ≡ ok (d1 ∷ d2 ∷ rest)
    → (s.choose_move st (allowed_moves false st.board (d1, d2)) (s.roll_sync 2 w).1).0 ≡ ok m
    → In m (allowed_moves false st.board (d1, d2))
    → (s'.recv_move (s'.roll_sync 2 v).1).0 ≡ ok m
    → ((other_turn s' k (st', v)).0 ≡ ok tt)
      × ((other_turn s' k (st', v)).1.0.board ≡ mirror (take_turn s n (st, w)).1.0.board)
other_turn-take_turn s s' n k st st' w v d1 d2 rest m mirrored rolled rolled' chosen picked came =
    let valid : validate_move (d1 ∷ d2 ∷ rest) st'.board m ≡ ok tt =
      rw mirrored (validate_move-mirror d1 d2 rest st.board m picked) in
    let mine =
      take_turn_moves s n st w (d1 ∷ d2 ∷ rest) (d1, d2) m rolled refl (require_moves-In _ m picked)
        chosen in
    let theirs = other_turn_accepts s' k st' v (d1 ∷ d2 ∷ rest) m rolled' came valid in
    (rw theirs refl, rw (theirs, mine) (ap (peer_move m) mirrored ∙ sym (mirror-move m st.board)))
