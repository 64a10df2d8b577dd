-- ===== src/Factorfight/Duel/Initiative.antt =====
-- Two games of one match that begin with a roll for who goes first (PlayWithInitiative and
-- RollInitiative of factorfight/game.go).
use ztg.Prelude.{
  if◌then◌else◌, ℕ, ◌≡◌, ap, ◌∙◌, Bool, true, false, not, List, [], ◌∷◌, some, ok, arith,
  Bool-cases, inl, inr, ltb, leb,
}
use ztg.Factorfight.Session.{Session, roll_initiative, play, play_with_initiative}
use ztg.Factorfight.Duel.{IsFair, Delivers, Agrees}
use ztg.Factorfight.Duel.Opening.{IsDice}
use ztg.Factorfight.Duel.Agreement.{play-Agrees, Agrees-swap}

-- One die gives the first turn to one of the two.
abbrev pub wins_roll : Bool → ℕ → Bool
wins_roll high r = if high then ltb 5 r else leb r 5

wins_roll-not : (high : Bool) (r : ℕ) → wins_roll (not high) r ≡ not (wins_roll high r)
wins_roll-not true r = ground arith
wins_roll-not false r = ground arith

play_with_initiative-play :
    {W : Type 0} (s : Session W) (fuel : ℕ) (high : Bool) (w : W) (r : ℕ)
    → (s.roll_sync 1 w).0 ≡ ok (r ∷ [])
    → play_with_initiative s fuel high w ≡ play s fuel (wins_roll high r) (s.roll_sync 1 w).1
unfolding play_with_initiative roll_initiative
play_with_initiative-play s fuel high w r h = ground (arith, h)

-- If the connection delivers what each player sends and both see the same rolls, the strategies
-- choose moves they are given, the first two dice of the first turn are from 1 to 20, one player
-- wants a high roll for the first turn and the other a low one, and both games return a winner,
-- with whatever fuel, then one player has won and the other has lost, on boards that mirror each
-- other.
pub play_with_initiative-Agrees :
    {W V : Type 0} (s : Session W) (s' : Session V) (same : W → V → Type 0) (same' : V → W → Type 0)
    → IsFair s
    → IsFair s'
    → Delivers s s' same same'
    → Delivers s' s same' same
    → (fuel fuel' : ℕ) (w : W) (v : V) (high : Bool) (r : ℕ) (e : ℕ × ℕ) (rest : List ℕ)
      (b c : Bool)
    → (s.roll_sync 1 w).0 ≡ ok (r ∷ [])
    → (s'.roll_sync 1 v).0 ≡ ok (r ∷ [])
    → same (s.roll_sync 1 w).1 (s'.roll_sync 1 v).1
    → same' (s'.roll_sync 1 v).1 (s.roll_sync 1 w).1
    → (s.roll_sync 2 (s.roll_sync 1 w).1).0 ≡ ok (e.0 ∷ e.1 ∷ rest)
    → (s'.roll_sync 2 (s'.roll_sync 1 v).1).0 ≡ ok (e.0 ∷ e.1 ∷ rest)
    → IsDice e
    → (play_with_initiative s fuel high w).0 ≡ ok (some b)
    → (play_with_initiative s' fuel' (not high) v).0 ≡ ok (some c)
    → Agrees (play_with_initiative s fuel high w) (play_with_initiative s' fuel' (not high) v) b c
play_with_initiative-Agrees s s' same same' fair fair' d d' fuel fuel' w v high r e rest b c h h' l
      l' k k' dice p q =
    let mine = play_with_initiative-play s fuel high w r h in
    let theirs = play_with_initiative-play s' fuel' (not high) v r h' in
    elim (Bool-cases (wins_roll high r)) [
      | inl first ↦
          let first_game = mine ∙ ap (λ z. play s fuel z (s.roll_sync 1 w).1) first in
          let second_game =
            theirs
            ∙ ap (λ z. play s' fuel' z (s'.roll_sync 1 v).1)
                (wins_roll-not high r ∙ ap not first) in
          rw (first_game, second_game)
            (play-Agrees s s' same same' fair fair' d d' fuel fuel' (s.roll_sync 1 w).1
              (s'.roll_sync 1 v).1 e rest b c l k dice (rw (← first_game) p) (rw (← second_game) q))
      | inr second ↦
          let second_game = mine ∙ ap (λ z. play s fuel z (s.roll_sync 1 w).1) second in
          let first_game =
            theirs
            ∙ ap (λ z. play s' fuel' z (s'.roll_sync 1 v).1)
                (wins_roll-not high r ∙ ap not second) in
          rw (second_game, first_game)
            (Agrees-swap (
              play-Agrees s' s same' same fair' fair d' d fuel' fuel (s'.roll_sync 1 v).1
                (s.roll_sync 1 w).1 e rest c b l' k' dice (rw (← first_game) q)
                (rw (← second_game) p)))
    ]
