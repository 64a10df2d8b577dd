-- ===== src/Dice/Handover/Tests.antt =====
-- Two calls of `Get` at concrete inputs.
use ztg.Prelude.{ℕ, ◌≡◌, refl, List, [], ◌∷◌, none, some, Result, ok, err, true, ◌⊎◌}
use ztg.Dice.Protocol.{Error, bad_count}
use ztg.Dice.Handover.{
  pushed, selecting, has_result, has_error, received_both, refused, is_refused, enter, returned,
  receive, Calls, called, finishes, first_receives, second_receives, Reach, here, later,
}
use ztg.Dice.Handover.Once.{IsHanded, Reach-IsHanded}

abbrev rolled : Result Error (List ℕ)
rolled = ok (3 ∷ 5 ∷ 1 ∷ [])

-- The first call has both.
abbrev one_returned : Calls
one_returned = record {
  pusher = pushed;
  first = received_both (3 ∷ 5 ∷ 1 ∷ []) none;
  second = selecting;
}

-- Each call has one of the two and waits for the other.
abbrev both_wait : Calls
both_wait = record { pusher = pushed; first = has_result (3 ∷ 5 ∷ 1 ∷ []); second = has_error none }

one_returned-Reach : Reach rolled (called 2 1) one_returned
unfolding receive enter is_refused
one_returned-Reach =
    later (later (later here (finishes refl refl)) (first_receives refl refl))
      (first_receives refl refl)

both_wait-Reach : Reach rolled (called 2 1) both_wait
unfolding receive enter is_refused
both_wait-Reach =
    later (later (later here (finishes refl refl)) (first_receives refl refl))
      (second_receives refl refl)

both_wait-receive :
    (receive both_wait.first both_wait.pusher ≡ none)
    × (receive both_wait.second both_wait.pusher ≡ none)
unfolding receive
both_wait-receive = (refl, refl)

two_dice : returned 2 one_returned.first ≡ some (ok (3 ∷ 5 ∷ []))
two_dice = refl

Reach-IsHanded_example :
    ((returned 2 one_returned.first ≡ none)
      ⊎ (returned 1 one_returned.second ≡ none)
      ⊎ (is_refused 2 ≡ true)
      ⊎ (is_refused 1 ≡ true))
    × IsHanded rolled 2 one_returned.first
    × IsHanded rolled 1 one_returned.second
Reach-IsHanded_example = Reach-IsHanded rolled 2 1 one_returned one_returned-Reach

-- Calls for no dice and for nine return before the roll has come to anything.
both_refused : (called 0 9).first ≡ refused
unfolding enter is_refused
both_refused = refl

nine_refused : returned 9 (called 0 9).second ≡ some (err bad_count)
unfolding enter is_refused
nine_refused = refl
