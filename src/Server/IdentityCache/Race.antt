-- ===== src/Server/IdentityCache/Race.antt =====
-- `Get` of the cache as its two parts (server/verifier.go): it looks the entry up under the read lock,
-- gives up the lock, and deletes what is under the key by then under the write lock.
use ztg.Prelude.{ℕ, ◌≡◌, Option, none, some, String, arith, if◌then◌else◌}
use ztg.Prelude.Dict.{lookup, delete, lookup-insert, lookup-delete}
use text.Mathlib.TextEquality.{eq_iff}
use ztg.Server.IdentityCache.{
  Identity, IdentityCache, IdentityCacheManager, is_stale, get, set, expiry,
}

pub data Reading : Type 0 where
  absent : Reading
  stale : Reading
  found : IdentityCache → Reading

abbrev pub read_entry : ℕ → Option IdentityCache → Reading
read_entry now none = absent
read_entry now (some c) = if is_stale now c then stale else found c

-- Under the read lock.
unfoldable pub get_reading : ℕ → String → IdentityCacheManager → Reading
get_reading now addr cm = read_entry now (lookup addr cm.cache)

-- Under the write lock.
unfoldable pub get_deleting : String → IdentityCacheManager → IdentityCacheManager
get_deleting addr cm = record cm { cache = delete addr cm.cache }

abbrev pub in_parts :
    ℕ → String → IdentityCacheManager → Reading → Option IdentityCache × IdentityCacheManager
in_parts now addr cm absent = (none, cm)
in_parts now addr cm stale = (none, get_deleting addr cm)
in_parts now addr cm (found c) = (some c, cm)

-- Without another call between the two parts they are `get`.
get-in_parts :
    (now : ℕ) (addr : String) (cm : IdentityCacheManager)
    → get now addr cm ≡ in_parts now addr cm (get_reading now addr cm)
unfolding get get_reading get_deleting
get-in_parts now addr cm = ground arith

-- The entry that `set` stores.
abbrev fresh : ℕ → Identity → IdentityCacheManager → IdentityCache
fresh now identity cm = record {
  identity = some identity;
  public_key = identity.public_key;
  expires_at = expiry now cm;
}

-- An entry that another call stores between them would be found, but is lost.
get_deleting-set :
    (now : ℕ) (addr : String) (identity : Identity) (cm : IdentityCacheManager)
    → (get_reading now addr (set now addr identity cm) ≡ found (fresh now identity cm))
      × (lookup addr (get_deleting addr (set now addr identity cm)).cache ≡ none)
unfolding get_deleting get_reading set
get_deleting-set now addr identity cm =
    let stored = lookup-insert addr addr (fresh now identity cm) cm.cache in
    let lost = lookup-delete addr addr (set now addr identity cm).cache in
    (ground (arith, stored, eq_iff addr addr), ground (arith, lost, eq_iff addr addr))
