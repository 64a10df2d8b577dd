-- ===== src/Factorfight/Strategy.antt =====
-- The default strategy (factorfight/strategy.go).
use ztg.Prelude.{
  ap, subst, ◌≡◌, refl, sym, inl, inr, ◌⊎◌, true, List, [], ◌∷◌, arith, Bool-cases, In, All, Result,
  ok, panic, if◌then◌else◌,
}
use ztg.Prelude.Int.{ltb_ℤ, ◌≤ℤ◌}
use ztg.Factorfight.Moves.{Move}

-- One round of the loop: two tests, each of which may replace the best move.
unfoldable pub improve : Move → Move → Move
improve best m =
    let best' : Move = if ltb_ℤ best.pawn1.result m.pawn1.result then m else best in
    if ltb_ℤ best'.pawn2.result m.pawn2.result then m else best'

unfoldable pub best_of : Move → List Move → Move
best_of best [] = best
best_of best (m ∷ ms) = best_of (improve best m) ms

-- `best := moves[0]` panics on an empty slice.
unfoldable pub choose_move : {E : Type 0} → List Move → Result E Move
choose_move [] = panic
choose_move (m ∷ ms) = ok (best_of m (m ∷ ms))

-- The first move is no further than the second, for either pawn.
abbrev pub NoBetter : Move → Move → Type 0
NoBetter m best = (m.pawn1.result ≤ℤ best.pawn1.result) × (m.pawn2.result ≤ℤ best.pawn2.result)

-- The first move is further than the second, for one pawn at least.
abbrev pub Beats : Move → Move → Type 0
Beats m best =
    (ltb_ℤ best.pawn1.result m.pawn1.result ≡ true)
    ⊎ (ltb_ℤ best.pawn2.result m.pawn2.result ≡ true)

improve-steps :
    (best m : Move)
    → ((improve best m ≡ best) × NoBetter m best) ⊎ ((improve best m ≡ m) × Beats m best)
unfolding improve
improve-steps best m = elim (Bool-cases (ltb_ℤ best.pawn1.result m.pawn1.result)) [
  | inl a ↦ elim (Bool-cases (ltb_ℤ m.pawn2.result m.pawn2.result)) [
    | inl b ↦ inr (rw (a, b) refl, inl a)
    | inr b ↦ inr (rw (a, b) refl, inl a)
  ]
  | inr a ↦ elim (Bool-cases (ltb_ℤ best.pawn2.result m.pawn2.result)) [
    | inl b ↦ inr (rw (a, b) refl, inr b)
    | inr b ↦ inl (rw (a, b) refl, (ground (arith, a), ground (arith, b)))
  ]
]

improve-cases : (best m : Move) → ((improve best m ≡ best) × NoBetter m best) ⊎ (improve best m ≡ m)
improve-cases best m = elim (improve-steps best m) [ inl p ↦ inl p | inr p ↦ inr p.0 ]

-- The move stands in the list, and no move after it is better for either pawn.
abbrev pub IsLastBest : Move → List Move → Type 0
IsLastBest b [] = ⊥
IsLastBest b (m ∷ ms) = ((b ≡ m) × All (λ x. NoBetter x b) ms) ⊎ IsLastBest b ms

best_of-IsLastBest : (best : Move) (ms : List Move) → IsLastBest (best_of best ms) (best ∷ ms)
unfolding best_of
best_of-IsLastBest best [] = inl (refl, tt)
best_of-IsLastBest best (m ∷ ms) = elim (improve-cases best m) [
  | inl (kept, worse) ↦
      subst (λ x. IsLastBest (best_of x ms) (best ∷ m ∷ ms)) (sym kept)
        (keep worse (best_of-IsLastBest best ms))
  | inr replaced ↦
      subst (λ x. IsLastBest (best_of x ms) (best ∷ m ∷ ms)) (sym replaced)
        (inr (best_of-IsLastBest m ms))
]
  where
    keep :
        NoBetter m best
        → IsLastBest (best_of best ms) (best ∷ ms)
        → IsLastBest (best_of best ms) (best ∷ m ∷ ms)
    keep w (inl (e, unbeaten)) =
        let w' : NoBetter m (best_of best ms) = rw e w in inl (e, (w', unbeaten))
    keep w (inr later) = inr (inr later)

improve_self : (m : Move) → improve m m ≡ m
improve_self m = elim (improve-cases m m) [ inl p ↦ p.0 | inr p ↦ p ]

-- The way from a move through a list: past each move that is no further for either pawn, and on to
-- the next one that is further for one of them.
pub data Climbs : Move → List Move → Move → Type 0 where
  arrived : (best : Move) → Climbs best [] best
  passes :
      {best b m : Move} {ms : List Move}
      → NoBetter m best
      → Climbs best ms b
      → Climbs best (m ∷ ms) b
  climbs :
      {best b m : Move} {ms : List Move} → Beats m best → Climbs m ms b → Climbs best (m ∷ ms) b

best_of-Climbs : (best : Move) (ms : List Move) → Climbs best ms (best_of best ms)
unfolding best_of
best_of-Climbs best [] = arrived best
best_of-Climbs best (m ∷ ms) = elim (improve-steps best m) [
  | inl (kept, worse) ↦ passes worse (rw kept (best_of-Climbs best ms))
  | inr (replaced, better) ↦ climbs better (rw replaced (best_of-Climbs m ms))
]

-- The default strategy chooses from a nonempty list the last move of a way through it that starts at
-- the first move and goes on, from each move on it, to the next one in the list that is further for
-- one pawn at least. No move after the chosen one is further for either pawn.
pub choose_move-Climbs :
    {E : Type 0} (m : Move) (ms : List Move)
    → (b : Move) × (choose_move {E = E} (m ∷ ms) ≡ ok b) × Climbs m ms b × IsLastBest b (m ∷ ms)
unfolding choose_move best_of
choose_move-Climbs m ms =
    (best_of m ms, rw (improve_self m), best_of-Climbs m ms, best_of-IsLastBest m ms)

IsLastBest-In : (b : Move) (ms : List Move) → IsLastBest b ms → In b ms
IsLastBest-In b [] h = h
IsLastBest-In b (m ∷ ms) (inl (e, _)) = inl e
IsLastBest-In b (m ∷ ms) (inr l) = inr (IsLastBest-In b ms l)

pub choose_move-In :
    {E : Type 0} (ms : List Move) (m : Move) → choose_move {E = E} ms ≡ ok m → In m ms
unfolding choose_move
choose_move-In [] m h = absurd cc
choose_move-In {E} (x ∷ xs) m h =
    let best = choose_move-Climbs {E = E} x xs in
    let same : best.0 ≡ m = cc (best.1, h) in
    subst (λ b. In b (x ∷ xs)) same (IsLastBest-In best.0 (x ∷ xs) best.3)

-- Of two moves the second is chosen whenever it advances the second pawn further, however near
-- to the goal the first move brings its first pawn.
choose_move-passes_over :
    {E : Type 0} (a b : Move)
    → ltb_ℤ a.pawn2.result b.pawn2.result ≡ true
    → choose_move {E = E} (a ∷ b ∷ []) ≡ ok b
unfolding choose_move best_of
choose_move-passes_over a b h = rw (improve_self a) (ap ok last)
  where
    last : improve a b ≡ b
    last = elim (improve-cases a b) [ inl (_, w) ↦ absurd (ground (arith, h, w)) | inr e ↦ e ]
