-- ===== src/Startup/Example.antt =====
-- The example of a server with both games (example/server/main.go), which can tell its owner of a game
-- that is over. The environment, the printing and the service of notifications are parameters.
mod Serves
mod Notified
mod Tests
use Prim.Native.String.{◌++◌ as str_append}
use ztg.Prelude.{
  ℕ, List, [], ◌∷◌, Bool, ◌||◌, Option, none, some, String, Result, ok, err, panic, if◌then◌else◌,
  wrap_err,
}
use ztg.Prelude.Exec.{Exec, ◌>>=◌, lift, wrapping}
use ztg.Identity.Keys.{KeyLibrary, Cache}
use ztg.Factorfight.Session.{GameLogEntry}
use ztg.Server.Stream.Service.{Strategy, default_strategy}
use ztg.Startup.{
  Config, ConfigLibrary, Host, RunError, ServiceOption, with_factor_fight, with_high_roll,
  load_config,
}
use ztg.Startup
use text.Mathlib.Text.{◌==◌ as str_eq}

-- `server/factorfight.Config`, whose fields may be nil.
pub record FactorFightConfig (W : Type 0) : Type 0 where
  pub strategy : Option (Strategy W)
  pub on_game_complete : Option (Bool → List GameLogEntry → W → W)

pub record NotifyClient : Type 0 where
  pub app : String
  pub recipient : String

-- What the example calls. A message with a text and a title is sent through an app to a recipient, and
-- may fail.
pub record Surroundings (W : Type 0) : Type 0 where
  pub getenv : String → String
  pub info : String → W → W
  pub print_log : List GameLogEntry → W → W
  pub print_error : String → W → W
  pub send_message : String → String → String → String → W → Option String × W

pub data ExampleError : Type 0 where
  client_failed config_failed : String → ExampleError
  run_failed : RunError → ExampleError

-- It never fails.
unfoldable pub new_notify_client : String → String → Result String NotifyClient
new_notify_client app_token recipient_token =
    ok (record { app = app_token; recipient = recipient_token })

-- A client is made if both tokens are set.
unfoldable pub pushover_client : (String → String) → Result String (Option NotifyClient)
unfolding new_notify_client
pushover_client getenv =
    let app_token = getenv "PUSHOVER_APP_TOKEN" in
    let recipient_token = getenv "PUSHOVER_RECIPIENT_TOKEN" in
    if str_eq app_token "" || str_eq recipient_token ""
    then ok none
    else elim (new_notify_client app_token recipient_token) [
      | ok client ↦ ok (some client)
      | err e ↦ err e
      | panic ↦ panic
    ]

abbrev pub win_text : Bool → String
win_text win = if win then "Win!" else "Lose!"

module _ {W : Type 0} (u : Surroundings W) where
  unfoldable pub send : NotifyClient → String → String → W → Option String × W
  send c title message = u.send_message c.app message title c.recipient

  -- A message that cannot be sent is printed.
  abbrev pub report : Option String × W → W
  report (none, w) = w
  report (some e, w) = u.print_error e w

  unfoldable pub on_game_complete : Option NotifyClient → Bool → List GameLogEntry → W → W
  on_game_complete none win log w = u.print_log log (u.info (win_text win) w)
  on_game_complete (some client) win log w = report (
      send client "FactorFight Game" (str_append "Result: " (win_text win))
        (u.print_log log (u.info (win_text win) w)))

  abbrev pub factor_fight_config : Option NotifyClient → FactorFightConfig W
  factor_fight_config client = record {
    strategy = some default_strategy;
    on_game_complete = some (on_game_complete client);
  }

  abbrev pub options : Option NotifyClient → List (ServiceOption (FactorFightConfig W))
  options client = with_factor_fight (factor_fight_config client) ∷ with_high_roll ∷ []

  unfoldable pub run :
      {D L : Type 0}
      → Host (FactorFightConfig W) D L W
      → ConfigLibrary
      → KeyLibrary
      → Exec (Cache × W) ExampleError (Unit {0})
  run h c l = do
    client ← lift (wrap_err client_failed (pushover_client u.getenv))
    cfg ← lift (wrap_err config_failed (load_config c))
    wrapping run_failed (Startup.run h c l cfg (options client))
