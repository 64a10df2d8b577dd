-- ===== src/Startup/Example/Serves.antt =====
-- The games of the example (example/server/main.go).
use ztg.Prelude.{
  ◌∙◌, ◌≡◌, refl, ◌||◌, Option, none, some, String, Result, ok, if◌then◌else◌, Bool-cases, inl, inr,
}
use ztg.Prelude.Exec.{wrapping}
use ztg.Identity.Keys.{KeyLibrary, KeyManager, Cache}
use ztg.Startup.{Config, ConfigLibrary, Host, Game, RunError, factor_fight, high_roll, load_config}
use ztg.Startup
use ztg.Startup.Served.{IsServed}
use ztg.Server.GameService.{challenge_of}
use ztg.Startup.Games.{last_game}
use ztg.Startup.Example.{
  FactorFightConfig, NotifyClient, Surroundings, pushover_client, options, factor_fight_config, run,
  run_failed,
}
use text.Mathlib.Text.{◌==◌ as str_eq}

-- The client that the environment asks for.
abbrev client_of : (String → String) → Option NotifyClient
client_of getenv =
    if str_eq (getenv "PUSHOVER_APP_TOKEN") "" || str_eq (getenv "PUSHOVER_RECIPIENT_TOKEN") ""
    then none
    else some (record {
      app = getenv "PUSHOVER_APP_TOKEN";
      recipient = getenv "PUSHOVER_RECIPIENT_TOKEN";
    })

pushover_client-eq : (getenv : String → String) → pushover_client getenv ≡ ok (client_of getenv)
unfolding pushover_client
pushover_client-eq getenv =
    elim (Bool-cases
      (str_eq (getenv "PUSHOVER_APP_TOKEN") "" || str_eq (getenv "PUSHOVER_RECIPIENT_TOKEN") "")) [
        | inl e ↦ rw e refl
        | inr e ↦ rw e refl
      ]

module _ {W : Type 0} (u : Surroundings W) where
  -- Each of the two names has its game, and no other name has one.
  last_game-options :
      {D : Type 0} (km : KeyManager) (store : Option D) (addr id : String)
      → last_game km store addr id (options u (client_of u.getenv)) ≡ (
          if str_eq "ztg.HighRoll.v1" id
          then some (high_roll km addr store)
          else if str_eq "ztg.FactorFight.v1" id
          then some (factor_fight (factor_fight_config u (client_of u.getenv)) km addr store)
          else none)
  unfolding last_game
  last_game-options km store addr id = elim (Bool-cases (str_eq "ztg.HighRoll.v1" id)) [
    | inl e ↦ rw e refl
    | inr e ↦ rw e refl
  ]

  -- With a valid configuration in its environment, the example runs as a server of this configuration
  -- with both games.
  run-options :
      {D L : Type 0} (h : Host (FactorFightConfig W) D L W) (c : ConfigLibrary) (l : KeyLibrary)
      (cfg : Config) (s : Cache × W)
      → load_config c ≡ ok cfg
      → run u h c l s
        ≡ wrapping run_failed (Startup.run h c l cfg (options u (client_of u.getenv))) s
  unfolding run
  run-options h c l cfg s loaded = rw (pushover_client-eq u.getenv, loaded) refl

  -- A run that has served was of a server with both games, and no other.
  served-games :
      {D L : Type 0} (h : Host (FactorFightConfig W) D L W) (c : ConfigLibrary) (l : KeyLibrary)
      (cfg : Config) (cache : Cache) (w : W) (result : Result RunError (Unit {0}) × W)
      → (x : IsServed h c l cfg (options u (client_of u.getenv)) cache w result) → (id : String)
      → challenge_of id x.server.registry ≡ (
          if str_eq "ztg.HighRoll.v1" id
          then some (high_roll x.server.key_manager cfg.identity.server_address x.server.store)
          else if str_eq "ztg.FactorFight.v1" id
          then some (
              factor_fight
                (factor_fight_config u (client_of u.getenv))
                x.server.key_manager
                cfg.identity.server_address
                x.server.store)
          else none)
  served-games h c l cfg cache w result x id =
      x.games id
      ∙ last_game-options x.server.key_manager x.server.store cfg.identity.server_address id
