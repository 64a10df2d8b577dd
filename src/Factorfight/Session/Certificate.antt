-- ===== src/Factorfight/Session/Certificate.antt =====
-- The game log and the result over a whole game (factorfight/game.go).
use ztg.Prelude.Int.{ℤ, ◌==ℤ◌, ==ℤ_iff}
use ztg.Factorfight.Pawn.{goal}
use ztg.Prelude.{
  ◌&&◌, ◌≢◌, ◌⊎◌, inl, inr, succeeded, failed, panicked, Result-cases, ℕ, zero, suc, ◌+◌, ◌≡◌, refl,
  Bool, true, false, List, [], ◌∷◌, Option, none, some, arith, Result, ok, err, panic, In,
}
use ztg.Factorfight.Moves.{Move}
use ztg.Factorfight.Board.{Board, win, lose}
use ztg.Factorfight.Session.{
  State, Error, Session, start_state, validate_move, first_two, other_turn, take_turn, play_loop,
  play_round, play, require_moves,
}
use ztg.Factorfight.Session.Log.{
  allowed_moves, IsCertified, logged-IsCertified, validate_move-IsAllowed, same_move_refl,
}
use ztg.Factorfight.Session.Turns.{other_turn_accepts, take_turn_moves}

-- The strategy chooses one of the moves that it is given.
abbrev pub IsHonest : {W : Type 0} → Session W → Type 0
IsHonest {W} s =
    (st : State) (ms : List Move) (w : W) (m : Move) → (s.choose_move st ms w).0 ≡ ok m → In m ms

module _ {W : Type 0} (s : Session W) where
  other_turn-IsCertified :
      (n : ℕ) (st : State) (w : W) → IsCertified st → IsCertified (other_turn s n (st, w)).1.0
  unfolding other_turn
  other_turn-IsCertified n st w c = elim (Result-cases (s.roll_sync 2 w).0) [
    | failed _ e ↦ ground (arith, e, c)
    | panicked e ↦ ground (arith, e, c)
    | succeeded rolls e ↦ elim (Result-cases (s.recv_move (s.roll_sync 2 w).1).0) [
      | failed _ f ↦ ground (arith, e, f, c)
      | panicked f ↦ ground (arith, e, f, c)
      | succeeded m f ↦ elim (Result-cases (validate_move rolls st.board m)) [
        | failed _ g ↦ ground (arith, e, f, g, c)
        | panicked g ↦ ground (arith, e, f, g, c)
        | succeeded _ g ↦
            let logged =
              logged-IsCertified m n true rolls st (validate_move-IsAllowed rolls st.board m g) c in
            rw (other_turn_accepts s n st w rolls m e f g) logged
      ]
    ]
  ]

  module _ (honest : IsHonest s) where
    take_turn-IsCertified :
        (n : ℕ) (st : State) (w : W) → IsCertified st → IsCertified (take_turn s n (st, w)).1.0
    unfolding take_turn
    take_turn-IsCertified n st w c = elim (Result-cases (s.roll_sync 2 w).0) [
      | failed _ e ↦ ground (arith, e, c)
      | panicked e ↦ ground (arith, e, c)
      | succeeded rolls e ↦ elim (Result-cases (first_two rolls)) [
        | failed _ f ↦ ground (arith, e, f, c)
        | panicked f ↦ ground (arith, e, f, c)
        | succeeded d f ↦ elim (Result-cases (require_moves (allowed_moves false st.board d))) [
          | failed _ g ↦ ground (arith, e, f, g, c)
          | panicked g ↦ ground (arith, e, f, g, c)
          | succeeded _ g ↦
              elim (Result-cases
                (s.choose_move st (allowed_moves false st.board d) (s.roll_sync 2 w).1).0) [
                  | failed never _ ↦ absurd never
                  | panicked h ↦ ground (arith, e, f, g, h, c)
                  | succeeded m h ↦
                      let logged =
                        logged-IsCertified m n false (d.0 ∷ d.1 ∷ []) st
                          (m, honest st _ _ m h, same_move_refl m) c in
                      rw (take_turn_moves s n st w rolls d m e f g h) logged
                ]
        ]
      ]
    ]

-- What ends with a win ends with both own pawns on the goal, and with a loss with both of the peer.
abbrev pub Verdict : Result Error (Option Bool) → Board → Type 0
Verdict (ok (some true)) b = (b.pawn1_pos ≡ goal) × (b.pawn2_pos ≡ goal)
Verdict (ok (some false)) b = (b.peer_pawn1_pos ≡ goal) × (b.peer_pawn2_pos ≡ goal)
Verdict _ b = Unit

both_on_goal : (a b : ℤ) → (a ==ℤ goal && b ==ℤ goal) ≡ true → (a ≡ goal) × (b ≡ goal)
both_on_goal a b h =
    ((==ℤ_iff a goal).0 (ground (arith, h)), (==ℤ_iff b goal).0 (ground (arith, h)))

win-Verdict : (b : Board) → win b ≡ true → Verdict (ok (some true)) b
unfolding win
win-Verdict b h = both_on_goal b.pawn1_pos b.pawn2_pos h

lose-Verdict : (b : Board) → lose b ≡ true → Verdict (ok (some false)) b
unfolding lose
lose-Verdict b h = both_on_goal b.peer_pawn1_pos b.peer_pawn2_pos h

-- An error or a panic has no verdict.
pub Verdict-none :
    (b : Board) (r : Result Error (Option Bool)) → ((o : Option Bool) → r ≢ ok o) → Verdict r b
Verdict-none b (ok o) h = absurd (h o refl)
Verdict-none b (err e) h = tt
Verdict-none b panic h = tt

pub start-IsCertified : IsCertified start_state
start-IsCertified = record { replays = refl; allowed = tt }

module _ {W : Type 0} (s : Session W) where
  -- A round ends where its own turn or the peer's turn ends.
  play_round-end :
      (n : ℕ) (x : State × W)
      → let t = take_turn s n x in
        ((play_round s n x).1 ≡ t.1) ⊎ ((play_round s n x).1 ≡ (other_turn s n t.1).1)
  unfolding play_round
  play_round-end n x = ground arith

  play_round-Verdict :
      (n : ℕ) (x : State × W) → Verdict (play_round s n x).0 (play_round s n x).1.0.board
  play_round-Verdict n x = go (play_round s n x).0 refl
    where
      won : (play_round s n x).0 ≡ ok (some true) → win (play_round s n x).1.0.board ≡ true
      won h = unfold play_round in ground (arith, h)

      lost : (play_round s n x).0 ≡ ok (some false) → lose (play_round s n x).1.0.board ≡ true
      lost h = unfold play_round in ground (arith, h)

      go :
          (r : Result Error (Option Bool))
          → (play_round s n x).0 ≡ r
          → Verdict r (play_round s n x).1.0.board
      go (ok (some true)) h = win-Verdict _ (won h)
      go (ok (some false)) h = lose-Verdict _ (lost h)
      go (ok none) h = tt
      go (err e) h = tt
      go panic h = tt

  -- The loop goes on after a round without a result, and ends as any other round ends.
  play_loop-end :
      (fuel n : ℕ) (x : State × W)
      → (play_loop s (suc fuel) n x ≡ play_loop s fuel (n + 1) (play_round s n x).1)
        ⊎ (play_loop s (suc fuel) n x ≡ play_round s n x)
  unfolding play_loop
  play_loop-end fuel n x = elim (Result-cases (play_round s n x).0) [
    | failed e h ↦ inr (ground (arith, h))
    | panicked h ↦ inr (ground (arith, h))
    | succeeded none h ↦ inl (ground (arith, h))
    | succeeded (some b) h ↦ inr (ground (arith, h))
  ]

  -- The loop keeps what every turn keeps.
  play_loop_inv :
      (P : State → Type 0)
      → ((n : ℕ) (st : State) (w : W) → P st → P (take_turn s n (st, w)).1.0)
      → ((n : ℕ) (st : State) (w : W) → P st → P (other_turn s n (st, w)).1.0)
      → (fuel n : ℕ) (x : State × W) → P x.0
      → P (play_loop s fuel n x).1.0
  play_loop_inv P mine theirs zero n x p = unfold play_loop in p
  play_loop_inv P mine theirs (suc fuel) n x p = elim (play_loop-end fuel n x) [
    | inl e ↦ rw e (play_loop_inv P mine theirs fuel (n + 1) (play_round s n x).1 kept)
    | inr e ↦ rw e kept
  ]
    where
      taken : P (take_turn s n x).1.0
      taken = mine n x.0 x.1 p

      kept : P (play_round s n x).1.0
      kept = elim (play_round-end n x) [ inl e ↦ rw e taken | inr e ↦ rw e (theirs n _ _ taken) ]

  play_loop-Verdict :
      (fuel n : ℕ) (x : State × W)
      → Verdict (play_loop s fuel n x).0 (play_loop s fuel n x).1.0.board
  play_loop-Verdict zero n x = unfold play_loop in tt
  play_loop-Verdict (suc fuel) n x = elim (play_loop-end fuel n x) [
    | inl e ↦ rw e (play_loop-Verdict fuel (n + 1) (play_round s n x).1)
    | inr e ↦ rw e (play_round-Verdict n x)
  ]

  -- `Play` is its loop, from the start or from the end of the peer's first turn.
  play-end :
      (fuel : ℕ) (first : Bool) (w : W)
      → (play s fuel first w ≡ play_loop s fuel 0 (start_state, w))
        ⊎ (play s fuel first w ≡ play_loop s fuel 0 (other_turn s 0 (start_state, w)).1)
        ⊎ (((play s fuel first w).1 ≡ (other_turn s 0 (start_state, w)).1)
            × ((b : Option Bool) → (play s fuel first w).0 ≢ ok b))
  unfolding play
  play-end fuel true w = inl refl
  play-end fuel false w = inr (elim (Result-cases (other_turn s 0 (start_state, w)).0) [
    | failed e h ↦ inr (ground (arith, h), λ b q. ground (arith, h, q))
    | panicked h ↦ inr (ground (arith, h), λ b q. ground (arith, h, q))
    | succeeded _ h ↦ inl (ground (arith, h))
  ])

  -- At every end of a game, also one by an error and also with a cheating peer, the log replays to
  -- the board and each of its moves was allowed; a strategy that picks from its moves is assumed.
  pub play-IsCertified :
      (honest : IsHonest s) (fuel : ℕ) (first : Bool) (w : W)
      → IsCertified (play s fuel first w).1.0
  play-IsCertified honest fuel first w = elim (play-end fuel first w) [
    | inl e ↦ rw e (looped start_state w start-IsCertified)
    | inr (inl e) ↦ rw e (looped _ _ opened)
    | inr (inr e) ↦ rw e.0 opened
  ]
    where
      opened : IsCertified (other_turn s 0 (start_state, w)).1.0
      opened = other_turn-IsCertified s 0 start_state w start-IsCertified

      looped : (st : State) (v : W) → IsCertified st → IsCertified (play_loop s fuel 0 (st, v)).1.0
      looped st v =
          play_loop_inv IsCertified (take_turn-IsCertified s honest) (other_turn-IsCertified s) fuel
            0 (st, v)

  -- A game that returns a win ends with both own pawns on the goal, one that returns a loss with
  -- both pawns of the peer there.
  pub play-Verdict :
      (fuel : ℕ) (first : Bool) (w : W)
      → Verdict (play s fuel first w).0 (play s fuel first w).1.0.board
  play-Verdict fuel first w = elim (play-end fuel first w) [
    | inl e ↦ rw e (play_loop-Verdict fuel 0 (start_state, w))
    | inr (inl e) ↦ rw e (play_loop-Verdict fuel 0 (other_turn s 0 (start_state, w)).1)
    | inr (inr e) ↦ Verdict-none _ (play s fuel first w).0 e.1
  ]
