-- ===== src/Startup/Games.antt =====
-- The games of a server after the options of a run (ztg.go, server/registry.go).
use ztg.Prelude.{
  err, ◌≢◌, true, false, Bool, ◌≡◌, refl, List, [], ◌∷◌, Option, none, some, String, ok, arith,
  Result-cases, succeeded, failed, panicked, if◌then◌else◌, ◌∙◌,
}
use ztg.Startup.{
  RunError, ServiceOption, Game, id_of, game_of, Server, Host, register, apply_options,
}
use ztg.Identity.Keys.{KeyManager}
use ztg.Prelude.Dict.{lookup-insert}
use ztg.Prelude.Exec.{>>=-eq-ok}
use ztg.Server.GameService.{Registry, register_game, challenge_of}
use text.Mathlib.Text.{◌==◌ as str_eq}

abbrev pub or_else : {A : Type 0} → Option A → Option A → Option A
or_else (some a) _ = some a
or_else none o = o

pub or_else-none : {A : Type 0} (a : Option A) → or_else a none ≡ a
or_else-none (some a) = refl
or_else-none none = refl

or_else_if :
    {A : Type 0} (a c : Option A) (b : Bool) (g : A)
    → or_else a (if b then some g else c) ≡ or_else (or_else a (if b then some g else none)) c
or_else_if (some a) c b g = refl
or_else_if none c true g = refl
or_else_if none c false g = refl

-- The service of the last option with this identifier.
unfoldable pub last_game :
    {F D : Type 0}
    → KeyManager
    → Option D
    → String
    → String
    → List (ServiceOption F)
    → Option (Game F D)
last_game km store addr id [] = none
last_game km store addr id (o ∷ os) =
    let g = game_of km store addr o in
    or_else (last_game km store addr id os) (if str_eq (id_of g) id then some g else none)

module _ {F D L W : Type 0} (h : Host F D L W) (addr : String) where
  -- The registry has the last service of each identifier, or what it had.
  pub record HasGames (os : List (ServiceOption F)) (s s' : Server F D L) : Type 0 where
    pub same_keys : s'.key_manager ≡ s.key_manager
    pub same_store : s'.store ≡ s.store
    pub games :
        (id : String)
        → challenge_of id s'.registry
          ≡ or_else (last_game s.key_manager s.store addr id os) (challenge_of id s.registry)

  challenge_of-register :
      (id : String) (g : Game F D) (r : Registry (Game F D))
      → challenge_of id (register_game (id_of g) g r)
        ≡ (if str_eq (id_of g) id then some g else challenge_of id r)
  unfolding challenge_of register_game
  challenge_of-register id g r = lookup-insert (id_of g) id g r.games

  -- To register a service does not fail.
  register-eq-ok :
      (g : Game F D) (s : Server F D L) (w : W) (s' : Server F D L)
      → (register h g s w).0 ≡ ok s'
      → s' ≡ record s { registry = register_game (id_of g) g s.registry }
  unfolding register
  register-eq-ok g s w s' e = elim (Result-cases (h.register g w).0) [
    | succeeded a q ↦ ground (arith, q, e)
    | failed f q ↦ absurd f
    | panicked q ↦ absurd (ground (arith, q, e))
  ]

  abbrev registered : ServiceOption F → Server F D L → Server F D L
  registered o s =
      let g = game_of s.key_manager s.store addr o in
      record s { registry = register_game (id_of g) g s.registry }

  HasGames-registered :
      (o : ServiceOption F) (os : List (ServiceOption F)) (s s' : Server F D L)
      → HasGames os (registered o s) s'
      → HasGames (o ∷ os) s s'
  unfolding last_game
  HasGames-registered o os s s' rest = record {
    same_keys = rest.same_keys;
    same_store = rest.same_store;
    games = λ id.
        let g = game_of s.key_manager s.store addr o in
        let later = last_game s.key_manager s.store addr id os in
        let now = challenge_of-register id g s.registry in
        rest.games id
        ∙ (rw now refl)
        ∙ or_else_if later (challenge_of id s.registry) (str_eq (id_of g) id) g;
  }

  pub apply_options-HasGames :
      (os : List (ServiceOption F)) (s s' : Server F D L) (w : W)
      → (apply_options h addr os s w).0 ≡ ok s'
      → HasGames os s s'
  unfolding apply_options last_game
  apply_options-HasGames [] s s' w e =
      let same : s ≡ s' = cc in
      rw (← same) (record { same_keys = refl; same_store = refl; games = λ id. refl })
  apply_options-HasGames (o ∷ os) s s' w e =
      let g = game_of s.key_manager s.store addr o in
      let (t, u, v) = >>=-eq-ok (register h g s) (λ t. apply_options h addr os t) w s' e in
      let same : t ≡ registered o s = register-eq-ok g s w t u in
      HasGames-registered o os s s' (
        apply_options-HasGames os (registered o s) s' (register h g s w).1
          (rw (← same) (rw (← v) e)))

  pub apply_options-err :
      (os : List (ServiceOption F)) (s : Server F D L) (w : W) (e : RunError)
      → (apply_options h addr os s w).0 ≢ err e
  unfolding apply_options register
  apply_options-err [] s w e u = absurd (ground (arith, u))
  apply_options-err (o ∷ os) s w e u =
      let g = game_of s.key_manager s.store addr o in
      elim (Result-cases (h.register g w).0) [
        | failed f q ↦ absurd f
        | panicked q ↦ absurd (ground (arith, q, u))
        | succeeded a q ↦
            apply_options-err os (registered o s) (h.register g w).1 e (ground (arith, q, u))
      ]
