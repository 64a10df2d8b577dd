-- ===== src/Server/IdentityCache.antt =====
-- The cache of the peers' identities (server/verifier.go).
pub mod Race
use ztg.Prelude.{
  ℕ, ◌+◌, Bool, false, not, List, [], Option, none, some, String, if◌then◌else◌, ltb, length,
}
use ztg.Prelude.Dict.{Dict, lookup, insert, delete, retain}
use text.Mathlib.Text.{◌==◌ as str_eq}

-- The message `Identity` of identity.proto.
pub record Identity : Type 0 where
  pub public_key : List ℕ
  pub server_address : String
  pub server_name : String
  pub owner_name : String
  pub capabilities : List String
  pub created_at : Option ℕ
  pub is_trusted : Bool
  pub trust_updated_at : Option ℕ

pub record IdentityCache : Type 0 where
  pub identity : Option Identity
  pub public_key : List ℕ
  pub expires_at : Option ℕ

pub record IdentityCacheManager : Type 0 where
  pub cache : Dict IdentityCache
  pub ttl : ℕ

unfoldable pub new_identity_cache_manager : ℕ → IdentityCacheManager
new_identity_cache_manager ttl = record { cache = []; ttl = ttl }

-- `cached.ExpiresAt != nil && now.After(*cached.ExpiresAt)`
abbrev pub is_stale : ℕ → IdentityCache → Bool
is_stale now c = elim c.expires_at [ none ↦ false | some t ↦ ltb t now ]

abbrev pub drop_stale :
    ℕ
    → String
    → IdentityCacheManager
    → Option IdentityCache
    → Option IdentityCache × IdentityCacheManager
drop_stale now addr cm none = (none, cm)
drop_stale now addr cm (some c) =
    if is_stale now c then (none, record cm { cache = delete addr cm.cache }) else (some c, cm)

unfoldable pub get : ℕ → String → IdentityCacheManager → Option IdentityCache × IdentityCacheManager
get now addr cm = drop_stale now addr cm (lookup addr cm.cache)

-- The entry has an identity whose address is not the key.
abbrev pub is_misplaced : String → IdentityCache → Bool
is_misplaced addr c = elim c.identity [ none ↦ false | some i ↦ not (str_eq i.server_address addr) ]

abbrev pub drop_misplaced :
    String
    → Option IdentityCache × IdentityCacheManager
    → Option IdentityCache × IdentityCacheManager
drop_misplaced addr (none, cm) = (none, cm)
drop_misplaced addr (some c, cm) =
    if is_misplaced addr c then (none, record cm { cache = delete addr cm.cache }) else (some c, cm)

unfoldable pub get_with_address_check :
    ℕ → String → IdentityCacheManager → Option IdentityCache × IdentityCacheManager
unfolding get
get_with_address_check now addr cm = drop_misplaced addr (get now addr cm)

-- Without a time to live an entry does not expire.
abbrev pub expiry : ℕ → IdentityCacheManager → Option ℕ
expiry now cm = if ltb 0 cm.ttl then some (now + cm.ttl) else none

unfoldable pub set : ℕ → String → Identity → IdentityCacheManager → IdentityCacheManager
set now addr identity cm = record cm {
  cache =
      insert addr
        (record {
          identity = some identity;
          public_key = identity.public_key;
          expires_at = expiry now cm;
        })
        cm.cache;
}

unfoldable pub set_public_key : ℕ → String → List ℕ → IdentityCacheManager → IdentityCacheManager
set_public_key now addr key cm = record cm {
  cache =
      insert addr (record { identity = none; public_key = key; expires_at = expiry now cm })
        cm.cache;
}

unfoldable pub clear : IdentityCacheManager → IdentityCacheManager
clear cm = record cm { cache = [] }

unfoldable pub size : IdentityCacheManager → ℕ
size cm = length cm.cache

unfoldable pub cleanup : ℕ → IdentityCacheManager → IdentityCacheManager
cleanup now cm = record cm { cache = retain (λ c. not (is_stale now c)) cm.cache }
