-- ===== src/Factorfight/Duel/Agreement.antt =====
-- The results of two games of one match (factorfight/game.go).
use ztg.Prelude.{
  List, ◌∷◌, ℕ, zero, suc, ◌+◌, ◌≤◌, ◌≡◌, refl, sym, ap, ◌∙◌, Bool, true, false, Option, some,
  Result, ok, arith, Bool-cases, inl, inr,
}
use ztg.Factorfight.Board.{Board, win, lose}
use ztg.Factorfight.Mirror.{mirror}
use ztg.Factorfight.Session.{
  State, Session, Error, start_state, start_board, other_turn, take_turn, play_loop, play,
}
use ztg.Factorfight.Duel.{IsFair, Delivers, Agrees}
use ztg.Factorfight.Duel.Opening.{IsDice, take_turn-open}
use ztg.Factorfight.Duel.Shared.{take_turn-IsShared}
use ztg.Factorfight.Duel.Rounds.{
  initiate, respond, play_loop-initiate, initiate-made, initiate-won, initiate-open, respond-lost,
  respond-open,
}

pub Agrees-swap :
    {W V : Type 0} {x : Result Error (Option Bool) × (State × W)}
    {y : Result Error (Option Bool) × (State × V)} {b c : Bool}
    → Agrees y x c b
    → Agrees x y b c
unfolding mirror
Agrees-swap {b = b} {c} a = record {
  opposite = ground (arith, a.opposite);
  mirrored = sym (ap mirror a.mirrored);
}

lose-mirror : (b : Board) → lose (mirror b) ≡ win b
unfolding lose win mirror
lose-mirror b = refl

mirror-flip : {a b : Board} → b ≡ mirror a → a ≡ mirror b
unfolding mirror
mirror-flip h = sym (ap mirror h)

start-mirror : start_board ≡ mirror start_board
unfolding mirror
start-mirror = refl

-- The two games have just ended.
Agrees-ends :
    {W V : Type 0} {x : Result Error (Option Bool) × (State × W)}
    {y : Result Error (Option Bool) × (State × V)} {b c : Bool} {x' : State × W} {y' : State × V}
    → x.0 ≡ ok (some b)
    → y.0 ≡ ok (some c)
    → x ≡ (ok (some true), x')
    → y ≡ (ok (some false), y')
    → y'.0.board ≡ mirror x'.0.board
    → Agrees x y b c
Agrees-ends p q e f h = record { opposite = ground (arith, p, q, e, f); mirrored = rw (e, f) h }

play-second :
    {W : Type 0} (s : Session W) (fuel : ℕ) (w : W)
    → (other_turn s 0 (start_state, w)).0 ≡ ok tt
    → play s fuel false w ≡ play_loop s fuel 0 (other_turn s 0 (start_state, w)).1
unfolding play
play-second s fuel w h = ground (arith, h)

play_loop-respond :
    {W V : Type 0} (s : Session W) (s' : Session V) (same : W → V → Type 0) (same' : V → W → Type 0)
    → IsFair s
    → IsFair s'
    → Delivers s s' same same'
    → Delivers s' s same' same
    → (bound fuel fuel' : ℕ) → fuel + fuel' ≤ bound
    → (n k : ℕ) (st st' : State) (w : W) (v : V) (b c : Bool) → st'.board ≡ mirror st.board
    → same w v
    → (play_loop s fuel n (st, w)).0 ≡ ok (some b)
    → (respond s' fuel' k (st', v)).0 ≡ ok (some c)
    → Agrees (play_loop s fuel n (st, w)) (respond s' fuel' k (st', v)) b c
play_loop-respond s s' same same' fair fair' d d' bound zero fuel' le n k st st' w v b c h l p q =
    absurd (unfold play_loop in ground (arith, p))
play_loop-respond s s' same same' fair fair' d d' zero (suc fuel) fuel' le n k st st' w v b c h l p
      q =
    absurd (omega (arith, le))
play_loop-respond s s' same same' fair fair' d d' (suc bound) (suc fuel) fuel' le n k st st' w v b c
      h l p q =
    let unrolled = play_loop-initiate s fuel n (st, w) in
    let started : (initiate s fuel n (st, w)).0 ≡ ok (some b) = rw (← unrolled) p in
    let made = initiate-made s fuel n (st, w) b started in
    let (accepted, shared) = take_turn-IsShared s s' same same' fair d n k st st' w v h l made in
    let x = (take_turn s n (st, w)).1 in
    let y = (other_turn s' k (st', v)).1 in
    let seen : lose y.0.board ≡ win x.0.board = ap lose shared.mirrored ∙ lose-mirror x.0.board in
    elim (Bool-cases (win x.0.board)) [
      | inl won ↦
          Agrees-ends p q (unrolled ∙ initiate-won s fuel n (st, w) made won)
            (respond-lost s' fuel' k (st', v) accepted (seen ∙ won)) shared.mirrored
      | inr going ↦
          let mine = unrolled ∙ initiate-open s fuel n (st, w) made going in
          let theirs = respond-open s' fuel' k (st', v) accepted (seen ∙ going) in
          let rest =
            play_loop-respond s' s same' same fair' fair d' d bound fuel' fuel (omega (arith, le))
              (k + 1) n y.0 x.0 y.1 x.1 c b (mirror-flip shared.mirrored) shared.same
              (rw (← theirs) q) (rw (← mine) p) in
          rw (mine, theirs) (Agrees-swap rest)
    ]

-- Two games where it is settled who goes first.
pub play-Agrees :
    {W V : Type 0} (s : Session W) (s' : Session V) (same : W → V → Type 0) (same' : V → W → Type 0)
    → IsFair s
    → IsFair s'
    → Delivers s s' same same'
    → Delivers s' s same' same
    → (fuel fuel' : ℕ) (w : W) (v : V) (e : ℕ × ℕ) (rest : List ℕ) (b c : Bool) → same w v
    → (s.roll_sync 2 w).0 ≡ ok (e.0 ∷ e.1 ∷ rest)
    → IsDice e
    → (play s fuel true w).0 ≡ ok (some b)
    → (play s' fuel' false v).0 ≡ ok (some c)
    → Agrees (play s fuel true w) (play s' fuel' false v) b c
unfolding play
play-Agrees s s' same same' fair fair' d d' zero fuel' w v e rolls b c l rolled dice p q =
    absurd (unfold play_loop in ground (arith, p))
play-Agrees s s' same same' fair fair' d d' (suc fuel) fuel' w v e rolls b c l rolled dice p q =
    let unrolled = play_loop-initiate s fuel 0 (start_state, w) in
    let going = take_turn-open s 0 w e rolls fair rolled dice in
    let made = initiate-made s fuel 0 (start_state, w) b (rw (← unrolled) p) in
    let (accepted, shared) =
      take_turn-IsShared s s' same same' fair d 0 0 start_state start_state w v start-mirror l
        made in
    let x = (take_turn s 0 (start_state, w)).1 in
    let y = (other_turn s' 0 (start_state, v)).1 in
    let mine = unrolled ∙ initiate-open s fuel 0 (start_state, w) made going in
    let theirs = play-second s' fuel' v accepted in
    let rest =
      play_loop-respond s' s same' same fair' fair d' d (fuel' + fuel) fuel' fuel (omega arith) 0 0
        y.0 x.0 y.1 x.1 c b (mirror-flip shared.mirrored) shared.same (rw (← theirs) q)
        (rw (← mine) p) in
    rw (mine, theirs) (Agrees-swap rest)
