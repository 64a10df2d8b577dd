-- ===== src/Server/IdentityService.antt =====
-- The identity service (server/identity_service.go) and the check of the owner's signature. The
-- store, the parser of addresses, the hash and the signature scheme are parameters; the printed
-- text of an error is not kept.
pub mod Owner
pub mod Vouched
mod Tests
use ztg.Prelude.{
  ℕ, Bool, true, false, not, List, [], ◌∷◌, ◌++◌, Option, none, some, String, Result, ok, err,
  panic, if◌then◌else◌, ◌==◌, length, wrap_err,
}
use ztg.Prelude.Bytes.{codes, bytes_eq}
use ztg.Prelude.Exec.{Exec, ◌>>=◌, ◌>>◌, pure, lift, wrapping}
use ztg.Identity.Keys.{KeyManager}
use ztg.Server.GameService.{Registry, game_ids}
use ztg.Server.IdentityCache.{Identity}
use ztg.Server.Verifier.{
  Signature, Crypto, Store, Outside, Clock, VerifyError, new_verifier, add_peer_identity,
  verify_message_signature,
}
use text.Mathlib.Text.{◌==◌ as str_eq}

-- The operations of the store that the service calls beside those of the verifier.
pub record IdentityStore (W : Type 0) : Type 0 where
  pub for_verifier : Store W
  pub list_identities : Exec W String (List Identity)
  pub set_trust_status : String → Bool → Exec W String (Unit {0})

pub record Service (W : Type 0) : Type 0 where
  pub owner_public_key : List ℕ
  pub store : Option (IdentityStore W)
  pub get_peer_identity : String → Exec W String Identity

pub data OwnerError : Type 0 where
  signature_required : OwnerError
  verification_failed : VerifyError → OwnerError

pub data StatusError : Type 0 where
  permission_denied : OwnerError → StatusError
  store_unavailable invalid_key_size key_mismatch trusted_identity : StatusError
  peer_failed store_failed : String → StatusError

abbrev pub verifier_store : {W : Type 0} → Option (IdentityStore W) → Option (Store W)
verifier_store none = none
verifier_store (some s) = some s.for_verifier

-- `s.store == nil`
abbrev pub require_store : {A : Type 0} → Option A → Result StatusError A
require_store none = err store_unavailable
require_store (some s) = ok s

abbrev pub refuse : Bool → StatusError → Result StatusError (Unit {0})
refuse true e = err e
refuse false e = ok tt

-- `now` is the time of the request.
unfoldable pub get_identity : {G : Type 0} → ℕ → KeyManager → Registry G → Identity
unfolding game_ids
get_identity now km registry = record {
  public_key = km.public_key;
  server_address = km.server_address;
  server_name = km.server_name;
  owner_name = km.owner_name;
  capabilities = game_ids registry;
  created_at = some now;
  is_trusted = false;
  trust_updated_at = none;
}

module _ {W : Type 0} (s : Service W) where
  abbrev pub outside_of : Outside W
  outside_of = record { store = verifier_store s.store; get_peer_identity = s.get_peer_identity }

  -- `now` is the time at which the new verifier gets the owner's key.
  unfoldable pub verify_owner_signature_bytes :
      Crypto → ℕ → Clock → List ℕ → Option Signature → Exec W OwnerError (Unit {0})
  verify_owner_signature_bytes c now t message none w = (err signature_required, w)
  verify_owner_signature_bytes c now t message (some signature) w =
      if length signature.signature == 0
      then (err signature_required, w)
      else (let v = add_peer_identity now "owner" s.owner_public_key (new_verifier 0) in
          let (r, x) = verify_message_signature outside_of c t message (some signature) (v, w) in
          (wrap_err verification_failed r, x.1))

  -- `fmt.Appendf(nil, "set-trust:%s:%v", …)`, for an address of ASCII characters.
  abbrev pub trust_message : String → Bool → List ℕ
  trust_message addr trusted =
      codes "set-trust:" ++ codes addr ++ codes ":" ++ codes (if trusted then "true" else "false")

  unfoldable pub set_trust :
      Crypto → ℕ → Clock → String → Bool → Option Signature → Exec W StatusError (Unit {0})
  set_trust c now t addr trusted signature = do
    wrapping permission_denied
        (verify_owner_signature_bytes c now t (trust_message addr trusted) signature)
    store ← lift (require_store s.store)
    wrapping store_failed (store.set_trust_status addr trusted)

  unfoldable pub list_identities : Exec W StatusError (List Identity)
  list_identities = do
    store ← lift (require_store s.store)
    wrapping store_failed store.list_identities

  -- The comparison with the identity that the server at the address reports, if it is a URL with a
  -- host; `parse` gives the host, or nothing where the address is no URL.
  abbrev pub compare_key : Option String → Identity → Exec W StatusError (Unit {0})
  compare_key none identity = pure tt
  compare_key (some host) identity =
      if str_eq host ""
      then pure tt
      else (wrapping peer_failed (s.get_peer_identity identity.server_address) >>= λ peer.
          lift (refuse (not (bytes_eq identity.public_key peer.public_key)) key_mismatch))

  -- The creation time is set where the request has one.
  abbrev pub with_times : ℕ → Identity → Identity
  with_times now identity =
      let created : Option ℕ = elim identity.created_at [ none ↦ none | some _ ↦ some now ] in
      record identity { created_at = created; trust_updated_at = created }

  unfoldable pub add_identity :
      (String → Option String) → ℕ → Identity → Exec W StatusError (Unit {0})
  add_identity parse now identity = do
    store ← lift (require_store s.store)
    lift (refuse (not (length identity.public_key == 32)) invalid_key_size)
    compare_key (parse identity.server_address) identity
    lift (refuse identity.is_trusted trusted_identity)
    wrapping store_failed (store.for_verifier.insert_identity (with_times now identity))

  -- A request without an identity is a nil pointer, which the check of the key's size reads.
  unfoldable pub add_requested_identity :
      (String → Option String) → ℕ → Option Identity → Exec W StatusError (Unit {0})
  add_requested_identity parse now (some identity) = add_identity parse now identity
  add_requested_identity parse now none = do store ← lift (require_store s.store); lift panic
