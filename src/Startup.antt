-- ===== src/Startup.antt =====
-- Starting and running a server (ztg.go, server/server.go, config/load.go, and the configuration of
-- config/config.go). The checks of CUE, the parsers of files and of the environment, the network, the
-- database and what ends a running server are parameters; a log is left out.
pub mod Saved
pub mod Games
pub mod Served
pub mod Example
mod Tests
use ztg.Prelude.{
  ℕ, List, [], ◌∷◌, Bool, Option, none, some, String, Result, ok, err, panic, if◌then◌else◌,
  wrap_err, ◌||◌,
}
use ztg.Prelude.Int.{ℤ}
use ztg.Prelude.Exec.{Exec, ◌>>=◌, ◌>>◌, pure, lift, wrapping, outside, inside}
use ztg.Identity.Keys.{
  KeyLibrary, IdentityConfig, KeyManager, KeyError, Cache, new_key_manager, is_example_key,
}
use ztg.Identity.Store.{StoreError, new_sql_store}
use ztg.Server.GameService.{Registry, new_registry, register_game}
use text.Mathlib.Text.{◌==◌ as str_eq}

pub record ServerConfig : Type 0 where
  pub port : ℤ
  pub log_level : String

pub record DatabaseConfig : Type 0 where
  pub url : String
  pub max_connections : ℤ
  pub min_connections : ℤ
  pub max_conn_lifetime : ℤ
  pub max_conn_idle_time : ℤ

pub record Config : Type 0 where
  pub server : ServerConfig
  pub identity : IdentityConfig
  pub database : DatabaseConfig

-- How the packages that read a configuration answer. The environment may be read in part; an error of
-- it is dropped.
pub record ConfigLibrary : Type 0 where
  pub empty : Config
  pub process : Config → Config
  pub validate : Config → Option String
  pub read_file : String → Result String (List ℕ)
  pub lower_extension : String → String
  pub unmarshal_yaml : List ℕ → Result String Config
  pub unmarshal_json : List ℕ → Result String Config

unfoldable pub load_from_env : ConfigLibrary → Config → Config
load_from_env l cfg = l.process cfg

abbrev pub require_valid : Option String → Result String (Unit {0})
require_valid none = ok tt
require_valid (some e) = err e

unfoldable pub load_config : ConfigLibrary → Result String Config
unfolding load_from_env
load_config l =
    let cfg = load_from_env l l.empty in
    elim (require_valid (l.validate cfg)) [ ok _ ↦ ok cfg | err e ↦ err e | panic ↦ panic ]

-- Another extension is read as JSON.
abbrev pub unmarshal_by : ConfigLibrary → String → List ℕ → Result String Config
unmarshal_by l extension text =
    if str_eq extension ".yaml" || str_eq extension ".yml"
    then l.unmarshal_yaml text
    else l.unmarshal_json text

unfoldable pub load_from_file : ConfigLibrary → String → Result String Config
load_from_file l path = elim (l.read_file path) [
  | ok text ↦ unmarshal_by l (l.lower_extension path) text
  | err e ↦ err e
  | panic ↦ panic
]

pub data Level : Type 0 where
  level_debug level_info level_warn level_error : Level

-- The text is in lower case.
unfoldable pub parse_log_level : String → Level
parse_log_level text =
    if str_eq text "debug"
    then level_debug
    else if str_eq text "info"
    then level_info
    else if str_eq text "warn" || str_eq text "warning"
    then level_warn
    else if str_eq text "error"
    then level_error
    else level_info

-- A game service with what it was made with. `F` is the configuration of the game FactorFight, `D` a
-- database.
pub data Game (F D : Type 0) : Type 0 where
  factor_fight : F → KeyManager → String → Option D → Game F D
  high_roll : KeyManager → String → Option D → Game F D

-- `ID()`
abbrev pub id_of : {F D : Type 0} → Game F D → String
id_of (factor_fight _ _ _ _) = "ztg.FactorFight.v1"
id_of (high_roll _ _ _) = "ztg.HighRoll.v1"

pub record Server (F D L : Type 0) : Type 0 where
  pub key_manager : KeyManager
  pub registry : Registry (Game F D)
  pub listener : L
  pub level : Level
  pub store : Option D

-- Why a server no longer runs: its context is done, or it has stopped serving.
pub data End : Type 0 where
  done : String → End
  served : Option String → End

-- What the program calls. To register a service twice ends the program.
pub record Host (F D L W : Type 0) : Type 0 where
  pub lower : String → String
  pub open_db : String → Exec W String D
  pub ping : D → Exec W String (Unit {0})
  pub close_db : D → W → W
  pub listen : ℤ → Exec W String L
  pub register : Game F D → Exec W ⊥ (Unit {0})
  pub wait : Server F D L → W → End × W
  pub graceful_stop : L → W → W

pub data RunError : Type 0 where
  invalid_config : String → RunError
  key_manager_failed example_failed : KeyError → RunError
  store_failed : StoreError → RunError
  bind_failed : String → RunError
  stopped : String → RunError

abbrev pub never : ⊥ → RunError
never e = absurd e

pub data ServiceOption (F : Type 0) : Type 0 where
  with_factor_fight : F → ServiceOption F
  with_high_roll : ServiceOption F

-- The service that an option makes.
abbrev pub game_of : {F D : Type 0} → KeyManager → Option D → String → ServiceOption F → Game F D
game_of km store addr (with_factor_fight f) = factor_fight f km addr store
game_of km store addr with_high_roll = high_roll km addr store

-- `ValidateKeyUsage` prints a warning for the example's key, and never fails.
unfoldable pub validate_key_usage : KeyLibrary → List ℕ → Exec Cache KeyError (Unit {0})
validate_key_usage l key = is_example_key l key >>= λ _. pure tt

module _ {F D L W : Type 0} (h : Host F D L W) where
  -- The database is opened if it has a URL.
  abbrev pub open_store : DatabaseConfig → Exec W RunError (Option D)
  open_store cfg =
      if str_eq cfg.url ""
      then pure none
      else (wrapping store_failed (new_sql_store h.open_db h.ping cfg.url) >>= λ db. pure (some db))

  unfoldable pub new_server :
      KeyLibrary
      → ServerConfig
      → DatabaseConfig
      → KeyManager
      → Exec (Cache × W) RunError (Server F D L)
  unfolding validate_key_usage
  new_server l cfg database km = do
    inside (wrapping example_failed (validate_key_usage l km.public_key))
    store ← outside (open_store database)
    listener ← outside (wrapping bind_failed (h.listen cfg.port))
    pure (record {
      key_manager = km;
      registry = new_registry;
      listener = listener;
      level = parse_log_level (h.lower cfg.log_level);
      store = store;
    })

  unfoldable pub register : Game F D → Server F D L → Exec W RunError (Server F D L)
  register g s =
      wrapping never (h.register g)
      >> pure (record s { registry = register_game (id_of g) g s.registry })

  -- The loop over the options.
  unfoldable pub apply_options :
      String → List (ServiceOption F) → Server F D L → Exec W RunError (Server F D L)
  apply_options addr [] s = pure s
  apply_options addr (o ∷ os) s =
      register (game_of s.key_manager s.store addr o) s >>= λ s'. apply_options addr os s'

  abbrev pub close_store : Option D → W → W
  close_store none w = w
  close_store (some db) w = h.close_db db w

  unfoldable pub stop : Server F D L → W → W
  stop s w = h.graceful_stop s.listener (close_store s.store w)

  abbrev pub ended : Server F D L → End × W → Result RunError (Unit {0}) × W
  ended s (done e, w) = (err (stopped e), stop s w)
  ended s (served none, w) = (ok tt, w)
  ended s (served (some e), w) = (err (stopped e), w)

  unfoldable pub run_server : Server F D L → Exec W RunError (Unit {0})
  run_server s w = ended s (h.wait s w)

  unfoldable pub run :
      ConfigLibrary
      → KeyLibrary
      → Config
      → List (ServiceOption F)
      → Exec (Cache × W) RunError (Unit {0})
  run c l cfg options = do
    lift (wrap_err invalid_config (require_valid (c.validate cfg)))
    km ← inside (wrapping key_manager_failed (new_key_manager l cfg.identity))
    server ← new_server l cfg.server cfg.database km
    serving ← outside (apply_options cfg.identity.server_address options server)
    outside (run_server serving)
