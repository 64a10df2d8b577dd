-- ===== src/Factorfight/Duel/Rounds.antt =====
-- The loop of Play from the turn of one player on (factorfight/game.go).
use ztg.Prelude.{
  if◌then◌else◌, ℕ, suc, ◌+◌, ◌≡◌, ◌∙◌, Bool, true, false, Option, none, some, ok, Result-cases,
  succeeded, failed, panicked, arith, Bool-cases, inl, inr,
}
use ztg.Factorfight.Board.{win, lose}
use ztg.Factorfight.Session.{
  State, Session, Turn, other_turn, take_turn, play_round, play_loop, get_state,
}
use ztg.Prelude.Exec.{◌>>=◌, ◌>>◌, pure}

module _ {W : Type 0} (s : Session W) where
  -- `Play` from the turn of the other on.
  abbrev pub respond : ℕ → ℕ → Turn s (Option Bool)
  respond fuel k = do
    other_turn s k
    theirs ← get_state s
    if lose theirs.board then pure (some false) else play_loop s fuel (k + 1)

  abbrev pub initiate : ℕ → ℕ → Turn s (Option Bool)
  initiate fuel n = do
    take_turn s n
    mine ← get_state s
    if win mine.board then pure (some true) else respond fuel n

  abbrev goes_on : ℕ → ℕ → Option Bool → Turn s (Option Bool)
  goes_on fuel n none = play_loop s fuel (n + 1)
  goes_on fuel n (some w) = pure (some w)

  play_loop-suc :
      (fuel n : ℕ) (x : State × W)
      → play_loop s (suc fuel) n x ≡ (play_round s n >>= λ r. goes_on fuel n r) x
  unfolding play_loop
  play_loop-suc fuel n x = elim (Result-cases (play_round s n x).0) [
    | failed _ e ↦ ground (arith, e)
    | panicked e ↦ ground (arith, e)
    | succeeded none e ↦ ground (arith, e)
    | succeeded (some b) e ↦ ground (arith, e)
  ]

  pub play_loop-initiate :
      (fuel n : ℕ) (x : State × W) → play_loop s (suc fuel) n x ≡ initiate fuel n x
  unfolding play_round
  play_loop-initiate fuel n x = play_loop-suc fuel n x ∙ elim (Result-cases (take_turn s n x).0) [
    | failed _ e ↦ ground (arith, e)
    | panicked e ↦ ground (arith, e)
    | succeeded _ e ↦ elim (Bool-cases (win (take_turn s n x).1.0.board)) [
      | inl h ↦ ground (arith, e, h)
      | inr h ↦
          let y = (take_turn s n x).1 in
          elim (Result-cases (other_turn s n y).0) [
            | failed _ f ↦ ground (arith, e, h, f)
            | panicked f ↦ ground (arith, e, h, f)
            | succeeded _ f ↦ elim (Bool-cases (lose (other_turn s n y).1.0.board)) [
              | inl g ↦ ground (arith, e, h, f, g)
              | inr g ↦ ground (arith, e, h, f, g)
            ]
          ]
    ]
  ]

  -- A player whose own turn fails returns no winner.
  pub initiate-made :
      (fuel n : ℕ) (x : State × W) (b : Bool)
      → (initiate fuel n x).0 ≡ ok (some b)
      → (take_turn s n x).0 ≡ ok tt
  initiate-made fuel n x b h = elim (Result-cases (take_turn s n x).0) [
    | failed _ e ↦ absurd (ground (arith, e, h))
    | panicked e ↦ absurd (ground (arith, e, h))
    | succeeded _ e ↦ e
  ]

  pub initiate-won :
      (fuel n : ℕ) (x : State × W)
      → (take_turn s n x).0 ≡ ok tt
      → win (take_turn s n x).1.0.board ≡ true
      → initiate fuel n x ≡ (ok (some true), (take_turn s n x).1)
  initiate-won fuel n x e h = ground (arith, e, h)

  pub initiate-open :
      (fuel n : ℕ) (x : State × W)
      → (take_turn s n x).0 ≡ ok tt
      → win (take_turn s n x).1.0.board ≡ false
      → initiate fuel n x ≡ respond fuel n (take_turn s n x).1
  initiate-open fuel n x e h = ground (arith, e, h)

  pub respond-lost :
      (fuel k : ℕ) (y : State × W)
      → (other_turn s k y).0 ≡ ok tt
      → lose (other_turn s k y).1.0.board ≡ true
      → respond fuel k y ≡ (ok (some false), (other_turn s k y).1)
  respond-lost fuel k y e h = ground (arith, e, h)

  pub respond-open :
      (fuel k : ℕ) (y : State × W)
      → (other_turn s k y).0 ≡ ok tt
      → lose (other_turn s k y).1.0.board ≡ false
      → respond fuel k y ≡ play_loop s fuel (k + 1) (other_turn s k y).1
  respond-open fuel k y e h = ground (arith, e, h)
