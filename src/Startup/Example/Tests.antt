-- ===== src/Startup/Example/Tests.antt =====
-- The example at concrete inputs: an owner that is told of a game, and one that is not.
use ztg.Prelude.{◌≡◌, refl, List, [], ◌∷◌, String, true, false, none, some, ok, if◌then◌else◌}
use ztg.Startup.Example.{Surroundings, pushover_client, new_notify_client, on_game_complete, send}
use text.Mathlib.Text.{◌==◌ as str_eq}

-- The world is what was printed and sent.
abbrev World : Type 0
World = List String

abbrev surroundings : Surroundings World
surroundings = record {
  getenv = λ name. if str_eq name "PUSHOVER_APP_TOKEN" then "app" else "";
  info = λ text w. text ∷ w;
  print_log = λ _ w. "log" ∷ w;
  print_error = λ e w. e ∷ w;
  send_message = λ _ text title _ w. (some "refused", text ∷ title ∷ w);
}

-- One token is not enough.
no_client : pushover_client surroundings.getenv ≡ ok none
unfolding pushover_client new_notify_client
no_client = refl

both_tokens :
    pushover_client (λ _. "token") ≡ ok (some (record { app = "token"; recipient = "token" }))
unfolding pushover_client new_notify_client
both_tokens = refl

silent : on_game_complete surroundings none true [] [] ≡ "log" ∷ "Win!" ∷ []
unfolding on_game_complete
silent = refl

not_sent :
    on_game_complete surroundings (some (record { app = "token"; recipient = "token" })) false [] []
    ≡ "refused" ∷ "Result: Lose!" ∷ "FactorFight Game" ∷ "log" ∷ "Lose!" ∷ []
unfolding on_game_complete send
not_sent = refl
