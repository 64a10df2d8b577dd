-- ===== src/Factorfight/Session/Log.antt =====
-- What it is for a game log to certify a game, and the two steps that write it
-- (factorfight/game.go).
use ztg.Prelude.{
  ℕ, ◌≡◌, refl, Bool, true, ◌&&◌, List, [], ◌∷◌, ◌++◌, arith, ok, any-In, All, All-append, In,
  if◌then◌else◌,
}
use ztg.Prelude.Int.{pos, ==ℤ_iff, ◌==ℤ◌}
use ztg.Factorfight.Pawn.{BumpStatus, no_bump, bumped_peer1, bumped_peer2, bumped_self, unknown}
use ztg.Factorfight.Moves.{Move, generate_moves}
use ztg.Factorfight.Board.{Board}
use ztg.Factorfight.Session.{
  GameLogEntry, State, start_board, rolls_array, after_move, add_game_log_entry, bump_eq, same_move,
  check_move, validate_move, first_two,
}

-- The entries lead from the first board to the last, each from where the one before it ended.
abbrev pub Replays : Board → List GameLogEntry → Board → Type 0
Replays b [] c = b ≡ c
Replays b (e ∷ es) c =
    (e.from_state ≡ b) × (e.state ≡ after_move e.is_peer e.move b) × Replays e.state es c

-- The moves that the rules allow the player whose turn it is.
abbrev pub allowed_moves : Bool → Board → ℕ × ℕ → List Move
allowed_moves is_peer b (d1, d2) =
    if is_peer
    then generate_moves b.peer_pawn1_pos b.peer_pawn2_pos (pos d1) (pos d2) b.pawn1_pos b.pawn2_pos
    else generate_moves b.pawn1_pos b.pawn2_pos (pos d1) (pos d2) b.peer_pawn1_pos b.peer_pawn2_pos

-- The move agrees with a generated move in its results and bumps.
abbrev pub IsAllowed : Bool → Board → ℕ × ℕ → Move → Type 0
IsAllowed is_peer b rolls m =
    (x : Move) × In x (allowed_moves is_peer b rolls) × (same_move m x ≡ true)

pub record IsCertified (s : State) : Type 0 where
  pub replays : Replays start_board s.game_log s.board
  pub allowed : All (λ e. IsAllowed e.is_peer e.from_state e.rolls e.move) s.game_log

pub same_move_refl : (m : Move) → same_move m m ≡ true
unfolding same_move
same_move_refl m = go m.pawn1.bump m.pawn2.bump
  where
    bump_refl : (b : BumpStatus) → bump_eq b b ≡ true
    bump_refl no_bump = refl
    bump_refl bumped_peer1 = refl
    bump_refl bumped_peer2 = refl
    bump_refl bumped_self = refl
    bump_refl (unknown n) = (==ℤ_iff n n).1 refl

    go :
        (a b : BumpStatus)
        → (m.pawn1.result ==ℤ m.pawn1.result
            && m.pawn2.result ==ℤ m.pawn2.result
            && bump_eq a a
            && bump_eq b b)
          ≡ true
    go a b = ground (
      arith,
      ==ℤ_iff m.pawn1.result m.pawn1.result,
      ==ℤ_iff m.pawn2.result m.pawn2.result,
      bump_refl a,
      bump_refl b,
    )

check_move-In :
    (xs : List Move) (m : Move)
    → check_move xs m ≡ ok tt
    → (x : Move) × In x xs × (same_move m x ≡ true)
unfolding check_move
check_move-In [] m h = cc
check_move-In (x ∷ xs) m h = any-In (same_move m) (x ∷ xs) (ground arith)

pub validate_move-IsAllowed :
    (rolls : List ℕ) (b : Board) (m : Move)
    → validate_move rolls b m ≡ ok tt
    → IsAllowed true b (rolls_array rolls) m
unfolding validate_move
validate_move-IsAllowed [] b m h = cc
validate_move-IsAllowed (d ∷ []) b m h = cc
validate_move-IsAllowed (d1 ∷ d2 ∷ _) b m h = check_move-In _ m h

Replays-append :
    (b c : Board) (es : List GameLogEntry) (e : GameLogEntry)
    → Replays b es c
    → e.from_state ≡ c
    → e.state ≡ after_move e.is_peer e.move c
    → Replays b (es ++ e ∷ []) e.state
Replays-append b c [] e r f g = ground (arith, r, f, g)
Replays-append b c (x ∷ es) e r f g = (r.0, r.1, Replays-append x.state c es e r.2 f g)

-- An allowed move, logged and made, keeps the log a certificate.
pub logged-IsCertified :
    (m : Move) (n : ℕ) (p : Bool) (rolls : List ℕ) (s : State)
    → IsAllowed p s.board (rolls_array rolls) m
    → IsCertified s
    → IsCertified (record (add_game_log_entry m n p rolls s) { board = after_move p m s.board })
unfolding add_game_log_entry
logged-IsCertified m n p rolls s a c = record {
  replays = Replays-append start_board s.board s.game_log _ c.replays refl refl;
  allowed = All-append _ s.game_log _ c.allowed (a, tt);
}

pub first_two-rolls_array :
    (rolls : List ℕ) (d : ℕ × ℕ) → first_two rolls ≡ ok d → rolls_array rolls ≡ d
first_two-rolls_array [] d h = cc
first_two-rolls_array (a ∷ []) d h = cc
first_two-rolls_array (a ∷ b ∷ _) d h = ground arith
