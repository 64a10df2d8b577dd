-- ===== src/Server/Verifier.antt =====
-- The verifier of signed messages (server/verifier.go). The hash, the signature scheme, the store
-- and the fetching of a remote identity are parameters; the last two act on a world `W`.
pub mod Sound
pub mod Replay
pub mod Consistent
pub mod Proto
use ztg.Prelude.{
  ℕ, ◌+◌, Bool, true, false, not, List, [], ◌∷◌, Option, none, some, String, Result, ok, err, panic,
  if◌then◌else◌, ◌==◌, length, wrap_err,
}
use ztg.Prelude.Exec.{Exec, ◌>>=◌, ◌>>◌, pure, lift, wrapping, outside}
use ztg.Server.HashChain.{HashChainManager, ChainError, new_hash_chain_manager, verify_and_add}
use ztg.Server.HashChain
use ztg.Server.IdentityCache
use ztg.Server.IdentityCache.{
  Identity, IdentityCache, IdentityCacheManager, new_identity_cache_manager, get_with_address_check,
  set, set_public_key,
}
use text.Mathlib.Text.{◌==◌ as str_eq}

pub record Signature : Type 0 where
  pub signature : List ℕ
  pub signer_address : String

pub record OrderedSignature : Type 0 where
  pub signature : List ℕ
  pub signer_address : String
  pub previous_hash : List ℕ
  pub sequence : ℕ

-- A check of a signature is `none` where it panics, as on a key of another size.
pub record Crypto : Type 0 where
  pub sha256 : List ℕ → List ℕ
  pub ed25519_verify : List ℕ → List ℕ → List ℕ → Option Bool

-- The operations of the identity store that the verifier calls.
pub record Store (W : Type 0) : Type 0 where
  pub get_identity_by_address : String → Exec W String Identity
  pub update_last_seen : String → Exec W String (Unit {0})
  pub insert_identity : Identity → Exec W String (Unit {0})

-- What lies outside: the optional store, and the identity service of a peer.
pub record Outside (W : Type 0) : Type 0 where
  pub store : Option (Store W)
  pub get_peer_identity : String → Exec W String Identity

pub record Verifier : Type 0 where
  pub identity_cache : IdentityCacheManager
  pub hash_chain : HashChainManager

unfoldable pub new_verifier : ℕ → Verifier
unfolding new_identity_cache_manager new_hash_chain_manager
new_verifier ttl = record {
  identity_cache = new_identity_cache_manager ttl;
  hash_chain = new_hash_chain_manager ttl;
}

pub data VerifyError : Type 0 where
  not_signed empty_signature empty_signer_address zero_sequence : VerifyError
  fetch_failed : String → VerifyError
  address_mismatch invalid_signature : VerifyError
  chain_failed : ChainError → VerifyError

-- The readings of the clock in one verification.
pub record Clock : Type 0 where
  pub at_lookup : ℕ
  pub at_set : ℕ
  pub at_chain : ℕ
  pub at_add : ℕ

abbrev pub require : Bool → VerifyError → Result VerifyError (Unit {0})
require true e = ok tt
require false e = err e

abbrev pub signature_result : Option Bool → Result VerifyError (Unit {0})
signature_result (some true) = ok tt
signature_result (some false) = err invalid_signature
signature_result none = panic

unfoldable pub add_peer_identity : ℕ → String → List ℕ → Verifier → Verifier
unfolding set_public_key
add_peer_identity now addr key v = record v {
  identity_cache = set_public_key now addr key v.identity_cache;
}

unfoldable pub clear_identity_cache : Verifier → Verifier
unfolding IdentityCache.clear
clear_identity_cache v = record v { identity_cache = IdentityCache.clear v.identity_cache }

unfoldable pub cleanup_identity_cache : ℕ → Verifier → Verifier
unfolding IdentityCache.cleanup
cleanup_identity_cache now v = record v {
  identity_cache = IdentityCache.cleanup now v.identity_cache;
}

unfoldable pub get_cache_size : Verifier → ℕ
unfolding IdentityCache.size
get_cache_size v = IdentityCache.size v.identity_cache

unfoldable pub clear_hash_chain : Verifier → Verifier
unfolding HashChain.clear
clear_hash_chain v = record v { hash_chain = HashChain.clear v.hash_chain }

unfoldable pub cleanup_hash_chain : ℕ → Verifier → Verifier
unfolding HashChain.cleanup
cleanup_hash_chain now v = record v { hash_chain = HashChain.cleanup now v.hash_chain }

module _ {W : Type 0} (o : Outside W) where
  -- A fetched identity is written through to the store if there is one.
  abbrev pub write_through : Option (Store W) → Identity → Exec W String Identity
  write_through none identity = pure identity
  write_through (some store) identity = do store.insert_identity identity; pure identity

  abbrev pub fetch : String → Exec W String Identity
  fetch addr = do identity ← o.get_peer_identity addr; write_through o.store identity

  -- An identity that the store has is returned whatever the update of its last sight does.
  abbrev pub found_or_fetch :
      Store W → String → Result String Identity × W → Result String Identity × W
  found_or_fetch store addr (ok identity, w) = (ok identity, (store.update_last_seen addr w).1)
  found_or_fetch store addr (err _, w) = fetch addr w
  found_or_fetch store addr (panic, w) = (panic, w)

  abbrev pub from_store_or_remote : Option (Store W) → String → Exec W String Identity
  from_store_or_remote none addr w = fetch addr w
  from_store_or_remote (some store) addr w =
      found_or_fetch store addr (store.get_identity_by_address addr w)

  unfoldable pub get_peer_identity_from_store_or_remote : String → Exec W String Identity
  get_peer_identity_from_store_or_remote addr w = from_store_or_remote o.store addr w

  module _ (c : Crypto) where
    -- The check of the signature of the message's hash under a key.
    unfoldable pub check_key : List ℕ → List ℕ → List ℕ → Result VerifyError (Unit {0})
    check_key key message signature =
        signature_result (c.ed25519_verify key (c.sha256 message) signature)

    -- The part after the lookup in the cache, which both kinds of verification share.
    unfoldable pub authenticate :
        Clock
        → List ℕ
        → List ℕ
        → String
        → Option IdentityCache
        → Exec (Verifier × W) VerifyError (Unit {0})
    unfolding check_key
    authenticate t message signature addr (some cached) =
        lift (check_key cached.public_key message signature)
    authenticate t message signature addr none = do
      identity ← outside (wrapping fetch_failed (get_peer_identity_from_store_or_remote addr))
      lift (require (str_eq identity.server_address addr) address_mismatch)
      lift (check_key identity.public_key message signature)
      λ x. (
        ok tt,
        (record x.0 { identity_cache = set t.at_set addr identity x.0.identity_cache }, x.1),
      )

    abbrev pub cached_identity : ℕ → String → Exec (Verifier × W) VerifyError (Option IdentityCache)
    cached_identity now addr x =
        let (found, cache) = get_with_address_check now addr x.0.identity_cache in
        (ok found, (record x.0 { identity_cache = cache }, x.1))

    unfoldable pub verify_message_signature :
        Clock → List ℕ → Option Signature → Exec (Verifier × W) VerifyError (Unit {0})
    verify_message_signature t message none = lift (err not_signed)
    verify_message_signature t message (some s) = do
      lift (require (not (length s.signature == 0)) empty_signature)
      lift (require (not (str_eq s.signer_address "")) empty_signer_address)
      cached ← cached_identity t.at_lookup s.signer_address
      authenticate t message s.signature s.signer_address cached

    abbrev pub verify_chain :
        Clock → List ℕ → OrderedSignature → Exec (Verifier × W) VerifyError (Unit {0})
    verify_chain t message s x =
        let (r, chain) =
          verify_and_add t.at_chain t.at_add s.signer_address s.previous_hash (c.sha256 message)
            s.sequence x.0.hash_chain in
        (wrap_err chain_failed r, (record x.0 { hash_chain = chain }, x.1))

    unfoldable pub verify_ordered_signature :
        Clock → List ℕ → Option OrderedSignature → Exec (Verifier × W) VerifyError (Unit {0})
    verify_ordered_signature t message none = lift (err not_signed)
    verify_ordered_signature t message (some s) = do
      lift (require (not (length s.signature == 0)) empty_signature)
      lift (require (not (str_eq s.signer_address "")) empty_signer_address)
      lift (require (not (s.sequence == 0)) zero_sequence)
      cached ← cached_identity t.at_lookup s.signer_address
      authenticate t message s.signature s.signer_address cached
      verify_chain t message s
