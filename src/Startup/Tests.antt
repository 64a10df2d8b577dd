-- ===== src/Startup/Tests.antt =====
-- A run at a concrete configuration: two options, a database and a context that is done. The world is
-- what was done to it.
use ztg.Server.Signer.Toy.{a_library}
use ztg.Startup.{
  stopped, Config, ConfigLibrary, Host, ServiceOption, with_factor_fight, with_high_roll, done,
  id_of, load_config, load_from_env, load_from_file, parse_log_level, level_debug, level_warn,
  level_info, new_server, register, apply_options, stop, run_server, run, validate_key_usage,
}
use ztg.Prelude.{◌≡◌, refl, List, [], ◌∷◌, String, none, some, ok, err, false, if◌then◌else◌}
use ztg.Prelude.Bytes.{codes}
use ztg.Prelude.Int.{ℤ, pos}
use ztg.Identity.Keys.{
  new_key_manager, load_key_from_file, load_key_from_string, read_public_key, is_example_key,
  load_example_public_key_cache, load_example_public_key,
}
use ztg.Identity.Store.{new_sql_store}
use ztg.Startup.Served.{IsRun, run-IsRun}
use text.Mathlib.Text.{◌==◌ as str_eq}

abbrev World : Type 0
World = List String

abbrev a_config : Config
a_config = record {
  server = record { port = pos 50051; log_level = "debug" };
  identity = record {
    server_name = "one";
    owner_name = "me";
    owner_public_key = "";
    owner_public_key_file = "";
    private_key = "";
    private_key_file = "key";
    server_address = "localhost:50051";
    force_example = false;
  };
  database = record {
    url = "db";
    max_connections = pos 10;
    min_connections = pos 1;
    max_conn_lifetime = pos 60;
    max_conn_idle_time = pos 60;
  };
}

-- A configuration without an address is not valid.
abbrev a_config_library : ConfigLibrary
a_config_library = record {
  empty = a_config;
  process = λ cfg. cfg;
  validate = λ cfg. if str_eq cfg.identity.server_address "" then some "no address" else none;
  read_file = λ path. ok (codes path);
  lower_extension = λ path. path;
  unmarshal_yaml = λ _. ok a_config;
  unmarshal_json = λ _. err "not JSON";
}

abbrev a_host : Host String String ℤ World
a_host = record {
  lower = λ text. text;
  open_db = λ url w. (ok url, "open" ∷ w);
  ping = λ db w. (ok tt, "ping" ∷ w);
  close_db = λ db w. "close" ∷ w;
  listen = λ port w. (ok port, "listen" ∷ w);
  register = λ g w. (ok tt, id_of g ∷ w);
  wait = λ s w. (done "context canceled", w);
  graceful_stop = λ _ w. "stop" ∷ w;
}

abbrev options : List (ServiceOption String)
options = with_factor_fight "first" ∷ with_high_roll ∷ with_factor_fight "last" ∷ []

ran :
    (run a_host a_config_library a_library a_config options (none, [])).0
    ≡ err (stopped "context canceled")
unfolding run new_key_manager load_key_from_file load_key_from_string read_public_key is_example_key
    load_example_public_key_cache load_example_public_key new_server validate_key_usage
    new_sql_store apply_options register run_server stop
ran = refl

-- The database is closed before the listener is stopped.
closed :
    (run a_host a_config_library a_library a_config options (none, [])).1.1
    ≡ "stop" ∷ "close" ∷ "ztg.FactorFight.v1" ∷ "ztg.HighRoll.v1" ∷ "ztg.FactorFight.v1" ∷ "listen"
      ∷ "ping" ∷ "open" ∷ []
unfolding run new_key_manager load_key_from_file load_key_from_string read_public_key is_example_key
    load_example_public_key_cache load_example_public_key new_server validate_key_usage
    new_sql_store apply_options register run_server stop
closed = refl

run-IsRun_example : IsRun a_host a_config_library a_library a_config options none [] (
  (run a_host a_config_library a_library a_config options (none, [])).0,
  (run a_host a_config_library a_library a_config options (none, [])).1.1,
)
run-IsRun_example = run-IsRun a_host a_config_library a_library a_config options none []

-- The level of the log, and the reading of files.
levels :
    (parse_log_level "debug" ≡ level_debug)
    × (parse_log_level "warning" ≡ level_warn)
    × (parse_log_level "other" ≡ level_info)
unfolding parse_log_level
levels = (refl, refl, refl)

by_extension :
    (load_from_file a_config_library ".yml" ≡ ok a_config)
    × (load_from_file a_config_library ".json" ≡ err "not JSON")
unfolding load_from_file
by_extension = (refl, refl)

from_env : load_config a_config_library ≡ ok a_config
unfolding load_config load_from_env
from_env = refl
