-- ===== src/Startup/Served.antt =====
-- The server that a run of the program serves with (ztg.go, server/server.go).
use ztg.Startup.{
  key_manager_failed, invalid_config, parse_log_level, new_sql_store, validate_key_usage,
  ServerConfig, Config, ConfigLibrary, DatabaseConfig, ServiceOption, Server, Host, RunError,
  open_store, new_server, apply_options, run_server, run,
}
use ztg.Identity.Keys.{KeyError, is_example_key, KeyLibrary, KeyManager, Cache, new_key_manager}
use ztg.Startup.Games.{or_else-none, apply_options-err, apply_options-HasGames, last_game}
use ztg.Prelude.{
  true, false, Bool, not, ◌≡◌, refl, List, Option, none, some, String, Result, ok, err, panic,
  arith, Result-cases, succeeded, failed, panicked, Bool-cases, inl, inr, Option-cases, ◌∙◌,
}
use ztg.Prelude.Dict.{lookup}
use ztg.Identity.Keys.Matching.{new_key_manager-matches}
use ztg.Server.GameService.{challenge_of, new_registry}
use text.Mathlib.Text.{◌==◌ as str_eq}

unfoldable pub is_some : {A : Type 0} → Option A → Bool
is_some none = false
is_some (some _) = true

module _ {F D L W : Type 0} (h : Host F D L W) (l : KeyLibrary) where
  -- What a new server has.
  record IsNew (km : KeyManager) (database : DatabaseConfig) (s : Server F D L) : Type 0 where
    same_keys : s.key_manager ≡ km
    no_games : (id : String) → challenge_of id s.registry ≡ none
    stored : is_some s.store ≡ not (str_eq database.url "")

  open_store-stored :
      (database : DatabaseConfig) (w : W) (store : Option D)
      → (open_store h database w).0 ≡ ok store
      → is_some store ≡ not (str_eq database.url "")
  unfolding is_some
  open_store-stored database w store e = elim (Bool-cases (str_eq database.url "")) [
    | inl q ↦ let same : none ≡ store = ground (arith, q, e) in rw (← same) (rw q refl)
    | inr q ↦ elim (Result-cases (new_sql_store h.open_db h.ping database.url w).0) [
      | failed f r ↦ absurd (ground (arith, q, r, e))
      | panicked r ↦ absurd (ground (arith, q, r, e))
      | succeeded db r ↦
          let same : some db ≡ store = ground (arith, q, r, e) in rw (← same) (rw q refl)
    ]
  ]

  new_server-IsNew :
      (cfg : ServerConfig) (database : DatabaseConfig) (km : KeyManager) (x : Cache × W)
      (s : Server F D L)
      → (new_server h l cfg database km x).0 ≡ ok s
      → IsNew km database s
  unfolding new_server validate_key_usage new_registry challenge_of lookup
  new_server-IsNew cfg database km x s e =
      let opened = open_store h database x.1 in
      elim (Result-cases (is_example_key l km.public_key x.0).0) [
        | failed f q ↦ absurd (ground (arith, q, e))
        | panicked q ↦ absurd (ground (arith, q, e))
        | succeeded _ q ↦ elim (Result-cases opened.0) [
          | failed f r ↦ absurd (ground (arith, q, r, e))
          | panicked r ↦ absurd (ground (arith, q, r, e))
          | succeeded store r ↦ elim (Result-cases (h.listen cfg.port opened.1).0) [
            | failed f t ↦ absurd (ground (arith, q, r, t, e))
            | panicked t ↦ absurd (ground (arith, q, r, t, e))
            | succeeded listener t ↦
                let same : (record {
                  key_manager = km;
                  registry = new_registry;
                  listener = listener;
                  level = parse_log_level (h.lower cfg.log_level);
                  store = store;
                })
                    ≡ s =
                  ground (arith, q, r, t, e) in
                rw (← same) (record {
                  same_keys = refl;
                  no_games = λ id. refl;
                  stored = open_store-stored database x.1 store r;
                })
          ]
        ]
      ]

module _ {F D L W : Type 0} (h : Host F D L W) (c : ConfigLibrary) (l : KeyLibrary) (cfg : Config)
    (options : List (ServiceOption F)) (cache : Cache) (w : W) where
  -- The result is that of a server as the configuration and the options describe it.
  pub record IsServed (result : Result RunError (Unit {0}) × W) : Type 0 where
    pub server : Server F D L
    pub before : W
    pub valid : c.validate cfg ≡ none
    pub matches : server.key_manager.public_key ≡ l.public_part server.key_manager.private_key
    pub stored : is_some server.store ≡ not (str_eq cfg.database.url "")
    pub games :
        (id : String)
        → challenge_of id server.registry
          ≡ last_game server.key_manager server.store cfg.identity.server_address id options
    pub same : result ≡ run_server h server before

  -- The parts of a run that has served.
  IsServed-by :
      (km : KeyManager) (made server : Server F D L) (x : Cache × W) (v : W)
      (result : Result RunError (Unit {0}) × W)
      → c.validate cfg ≡ none
      → (new_key_manager l cfg.identity cache).0 ≡ ok km
      → (new_server h l cfg.server cfg.database km x).0 ≡ ok made
      → (apply_options h cfg.identity.server_address options made v).0 ≡ ok server
      → result ≡ run_server h server (apply_options h cfg.identity.server_address options made v).1
      → IsServed result
  IsServed-by km made server x v result valid loaded new applied same =
      let addr = cfg.identity.server_address in
      let n = new_server-IsNew h l cfg.server cfg.database km x made new in
      let g = apply_options-HasGames h addr options made server v applied in
      record {
        server = server;
        before = (apply_options h addr options made v).1;
        valid = valid;
        matches =
            rw (g.same_keys ∙ n.same_keys) (new_key_manager-matches l cfg.identity cache km loaded);
        stored = rw g.same_store n.stored;
        games = λ id.
            rw g.same_keys (rw g.same_store (g.games id ∙ rw (n.no_games id) (or_else-none _)));
        same = same;
      }

  abbrev pub loaded : Result KeyError KeyManager × Cache
  loaded = new_key_manager l cfg.identity cache

  abbrev pub made_with : KeyManager → Result RunError (Server F D L) × (Cache × W)
  made_with km = new_server h l cfg.server cfg.database km (loaded.1, w)

  -- How a run ends: in one of its steps, with the error or the panic of this step, or as a server.
  pub data IsRun (result : Result RunError (Unit {0}) × W) : Type 0 where
    refused :
        (e : String) → c.validate cfg ≡ some e → result ≡ (err (invalid_config e), w) → IsRun result
    no_keys :
        (e : KeyError) → loaded.0 ≡ err e → result ≡ (err (key_manager_failed e), w) → IsRun result
    not_made :
        (km : KeyManager) (e : RunError)
        → (made_with km).0 ≡ err e
        → result ≡ (err e, (made_with km).1.1)
        → IsRun result
    broken_keys : loaded.0 ≡ panic → result.0 ≡ panic → IsRun result
    broken_server : (km : KeyManager) → (made_with km).0 ≡ panic → result.0 ≡ panic → IsRun result
    registered_twice :
        (km : KeyManager) (made : Server F D L)
        → (made_with km).0 ≡ ok made
        → (apply_options h cfg.identity.server_address options made (made_with km).1.1).0 ≡ panic
        → result.0 ≡ panic
        → IsRun result
    served : IsServed result → IsRun result

  -- However a run ends, it is by one of these. The configuration is not valid, and nothing was done.
  -- The keys cannot be loaded, and nothing was done but this. The server cannot be made, and nothing
  -- is done after that. One of these steps, or the registration of a service, panics. Or it ran a
  -- server: its public key is the part of its private key, it has a store exactly if the
  -- configuration has a URL of a database, it has for each identifier the game of the last option with
  -- it and no other, and the run ends as this server's does.
  pub run-IsRun :
      IsRun ((run h c l cfg options (cache, w)).0, (run h c l cfg options (cache, w)).1.1)
  unfolding run
  run-IsRun = elim (Option-cases (c.validate cfg)) [
    | inr (f, p) ↦ refused f p (ground (arith, p))
    | inl p ↦ elim (Result-cases loaded.0) [
      | failed f q ↦ no_keys f q (ground (arith, p, q))
      | panicked q ↦ broken_keys q (ground (arith, p, q))
      | succeeded km q ↦ elim (Result-cases (made_with km).0) [
        | failed f r ↦ not_made km f r (ground (arith, p, q, r))
        | panicked r ↦ broken_server km r (ground (arith, p, q, r))
        | succeeded made r ↦
            let v = (made_with km).1.1 in
            let addr = cfg.identity.server_address in
            elim (Result-cases (apply_options h addr options made v).0) [
              | failed f t ↦ absurd (apply_options-err h addr options made v f t)
              | panicked t ↦ registered_twice km made r t (ground (arith, p, q, r, t))
              | succeeded server t ↦ served (
                  IsServed-by km made server (loaded.1, w) v _ p q r t (ground (arith, p, q, r, t)))
            ]
      ]
    ]
  ]
