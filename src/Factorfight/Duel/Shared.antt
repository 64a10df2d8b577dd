-- ===== src/Factorfight/Duel/Shared.antt =====
-- A turn on both sides (factorfight/game.go).
use ztg.Prelude.{
  subst, ℕ, ◌≡◌, refl, sym, ap, ◌∙◌, true, false, List, [], ◌∷◌, any, ok, Result-cases, succeeded,
  failed, panicked, arith,
}
use ztg.Factorfight.Moves.{Move}
use ztg.Factorfight.Board.{Board, peer_move}
use ztg.Factorfight.Mirror.{mirror, mirror-move}
use ztg.Factorfight.Session.{
  State, Session, same_move, check_move, validate_move, first_two, require_moves, other_turn,
  take_turn,
}
use ztg.Factorfight.Session.Log.{allowed_moves}
use ztg.Factorfight.Session.Turns.{other_turn_accepts, take_turn_moves}
use ztg.Factorfight.Duel.{IsFair, Delivers}

check_move-any : (xs : List Move) (m : Move) → any xs (same_move m) ≡ true → check_move xs m ≡ ok tt
unfolding check_move
check_move-any [] m h = cc
check_move-any (x ∷ xs) m h = rw h

-- A move that the one player has made passes the validation of the other.
validate_move-fair :
    (rolls : List ℕ) (d : ℕ × ℕ) (b : Board) (m : Move)
    → first_two rolls ≡ ok d
    → any (allowed_moves false b d) (same_move m) ≡ true
    → validate_move rolls (mirror b) m ≡ ok tt
unfolding validate_move mirror
validate_move-fair [] d b m f h = cc
validate_move-fair (_ ∷ []) d b m f h = cc
validate_move-fair (d1 ∷ d2 ∷ _) d b m f h =
    let e : (d1, d2) ≡ d = ground (arith, f) in
    check_move-any _ m (subst (λ z. any (allowed_moves false b z) (same_move m) ≡ true) (sym e) h)

-- The boards and the worlds after a turn that one player has made and the other has accepted.
pub record IsShared {W V : Type 0} (same' : V → W → Type 0) (x : State × W) (y : State × V)
    : Type 0 where
  pub mirrored : y.0.board ≡ mirror x.0.board
  pub same : same' y.1 x.1

module _ {W V : Type 0} (s : Session W) (s' : Session V) (same : W → V → Type 0)
    (same' : V → W → Type 0) (fair : IsFair s) (delivers : Delivers s s' same same') where
  sends :
      (n k : ℕ) (st st' : State) (w : W) (v : V) (rolls : List ℕ) (d : ℕ × ℕ) (m : Move)
      → st'.board ≡ mirror st.board
      → same w v
      → (s.roll_sync 2 w).0 ≡ ok rolls
      → first_two rolls ≡ ok d
      → require_moves (allowed_moves false st.board d) ≡ ok tt
      → (s.choose_move st (allowed_moves false st.board d) (s.roll_sync 2 w).1).0 ≡ ok m
      → (s.send_move m (s.choose_move st (allowed_moves false st.board d) (s.roll_sync 2 w).1).1).0
        ≡ ok tt
      → ((other_turn s' k (st', v)).0 ≡ ok tt)
        × IsShared same' (take_turn s n (st, w)).1 (other_turn s' k (st', v)).1
  sends n k st st' w v rolls d m h l e f g c u =
      let (rolled, came, goes_on) =
        delivers w v l rolls st (allowed_moves false st.board d) m e c u in
      let valid : validate_move rolls st'.board m ≡ ok tt =
        rw h (validate_move-fair rolls d st.board m f (fair st _ _ m c)) in
      let mine = take_turn_moves s n st w rolls d m e f g c in
      let theirs = other_turn_accepts s' k st' v rolls m rolled came valid in
      (
        rw theirs refl,
        rw (theirs, mine)
            (record {
              mirrored = ap (peer_move m) h ∙ sym (mirror-move m st.board);
              same = goes_on;
            }),
      )

  -- The turn of the one that succeeds is accepted by the other.
  pub take_turn-IsShared :
      (n k : ℕ) (st st' : State) (w : W) (v : V)
      → st'.board ≡ mirror st.board
      → same w v
      → (take_turn s n (st, w)).0 ≡ ok tt
      → ((other_turn s' k (st', v)).0 ≡ ok tt)
        × IsShared same' (take_turn s n (st, w)).1 (other_turn s' k (st', v)).1
  take_turn-IsShared n k st st' w v h l t = elim (Result-cases (s.roll_sync 2 w).0) [
    | failed _ e ↦ absurd (unfold take_turn in ground (arith, e, t))
    | panicked e ↦ absurd (unfold take_turn in ground (arith, e, t))
    | succeeded rolls e ↦ elim (Result-cases (first_two rolls)) [
      | failed _ f ↦ absurd (unfold take_turn in ground (arith, e, f, t))
      | panicked f ↦ absurd (unfold take_turn in ground (arith, e, f, t))
      | succeeded d f ↦
          let ms = allowed_moves false st.board d in
          elim (Result-cases (require_moves ms)) [
            | failed _ g ↦ absurd (unfold take_turn in ground (arith, e, f, g, t))
            | panicked g ↦ absurd (unfold take_turn in ground (arith, e, f, g, t))
            | succeeded _ g ↦ elim (Result-cases (s.choose_move st ms (s.roll_sync 2 w).1).0) [
              | failed never _ ↦ absurd never
              | panicked c ↦ absurd (unfold take_turn in ground (arith, e, f, g, c, t))
              | succeeded m c ↦
                  let made = take_turn_moves s n st w rolls d m e f g c in
                  let sent = s.send_move m (s.choose_move st ms (s.roll_sync 2 w).1).1 in
                  elim (Result-cases sent.0) [
                    | succeeded _ u ↦ sends n k st st' w v rolls d m h l e f g c u
                    | failed _ u ↦ absurd (ground (arith, made, u, t))
                    | panicked u ↦ absurd (ground (arith, made, u, t))
                  ]
            ]
          ]
    ]
  ]
