-- ===== src/Server/Tests.antt =====
-- Verifications at concrete inputs, with a signature that is the key before the hash.
use ztg.Prelude.{
  false, ◌≡◌, ◌≢◌, refl, inl, [], ◌∷◌, ◌++◌, none, some, String, ok, err, arith, ◌↔◌, ◌+◌,
}
use ztg.Prelude.Bytes.{bytes_eq}
use ztg.Prelude.Dict.{lookup}
use ztg.Server.HashChain.{HashChainEntry, HashChainManager, verify_and_add}
use ztg.Server.HashChain.Accepts.{IsAccepted, verify_and_add-IsAccepted}
use ztg.Server.IdentityCache.{Identity, IdentityCache, get, get_with_address_check}
use ztg.Server.Verifier.{
  Signature, OrderedSignature, Crypto, Outside, Verifier, Clock, check_key, authenticate,
  verify_message_signature, verify_ordered_signature,
}
use ztg.Server.Verifier.Sound.{
  IsAuthentic, verify_message_signature-IsAuthentic, verify_ordered_signature-IsAuthentic,
}
use ztg.Server.Verifier.Consistent.{IsConsistent, verify_message_signature-IsConsistent}
use ztg.Server.Verifier.Replay.{verify_ordered_signature-replays}

abbrev an_entry : HashChainEntry
an_entry = record { hash = 8 ∷ 9 ∷ []; sequence = 4; expires_at = 100 }

abbrev a_chain : HashChainManager
a_chain = record { chains = ("peer", an_entry) ∷ []; ttl = 50 }

abbrev toy_crypto : Crypto
toy_crypto = record {
  sha256 = λ bs. 3 ∷ bs;
  ed25519_verify = λ key hash signature. some (bytes_eq signature (key ++ hash));
}

abbrev nowhere : Outside (Unit {0})
nowhere = record { store = none; get_peer_identity = λ addr w. (err "unreachable", w) }

abbrev a_cached : IdentityCache
a_cached = record { identity = none; public_key = 7 ∷ []; expires_at = none }

abbrev a_verifier : Verifier
a_verifier = record {
  identity_cache = record { cache = ("peer", a_cached) ∷ []; ttl = 0 };
  hash_chain = a_chain;
}

abbrev a_clock : Clock
a_clock = record { at_lookup = 10; at_set = 11; at_chain = 12; at_add = 13 }

abbrev a_signature : Signature
a_signature = record { signature = 7 ∷ 3 ∷ 1 ∷ []; signer_address = "peer" }

abbrev an_ordered_signature : OrderedSignature
an_ordered_signature = record {
  signature = 7 ∷ 3 ∷ 1 ∷ [];
  signer_address = "peer";
  previous_hash = 8 ∷ 9 ∷ [];
  sequence = 5;
}

verify_and_add-IsAccepted_example :
    let (r, hm') = verify_and_add 90 91 "peer" (8 ∷ 9 ∷ []) (6 ∷ []) 5 a_chain in
    ((r ≡ ok tt) ↔ IsAccepted 90 "peer" (8 ∷ 9 ∷ []) 5 a_chain)
    × (r ≡ ok tt
        → lookup "peer" hm'.chains
          ≡ some (record { hash = 6 ∷ []; sequence = 5; expires_at = 91 + 50 }))
verify_and_add-IsAccepted_example =
    verify_and_add-IsAccepted 90 91 "peer" (8 ∷ 9 ∷ []) (6 ∷ []) 5 a_chain

message_verified :
    (verify_message_signature nowhere toy_crypto a_clock
      (1 ∷ [])
      (some a_signature)
      (a_verifier, tt)).0
    ≡ ok tt
unfolding verify_message_signature authenticate check_key get_with_address_check get lookup
message_verified = refl

verify_message_signature-IsAuthentic_example :
    IsAuthentic nowhere toy_crypto a_clock (1 ∷ []) (7 ∷ 3 ∷ 1 ∷ []) "peer" a_verifier tt
verify_message_signature-IsAuthentic_example =
    verify_message_signature-IsAuthentic nowhere toy_crypto a_clock (1 ∷ []) a_signature a_verifier
      tt message_verified

ordered_verified :
    (verify_ordered_signature nowhere toy_crypto a_clock
      (1 ∷ [])
      (some an_ordered_signature)
      (a_verifier, tt)).0
    ≡ ok tt
unfolding verify_ordered_signature authenticate check_key get_with_address_check get lookup
    verify_and_add
ordered_verified = refl

verify_ordered_signature-IsAuthentic_example :
    IsAuthentic nowhere toy_crypto a_clock (1 ∷ []) (7 ∷ 3 ∷ 1 ∷ []) "peer" a_verifier tt
    × IsAccepted 12 "peer" (8 ∷ 9 ∷ []) 5 a_chain
verify_ordered_signature-IsAuthentic_example =
    verify_ordered_signature-IsAuthentic nowhere toy_crypto a_clock (1 ∷ []) an_ordered_signature
      a_verifier tt ordered_verified

is_cached : (get_with_address_check 10 "peer" a_verifier.identity_cache).0 ≡ some a_cached
unfolding get_with_address_check get lookup
is_cached = refl

a_name : ◌≢◌ {A = String} "peer" ""
a_name = λ e. cc

verify_ordered_signature-replays_example :
    (verify_ordered_signature nowhere toy_crypto a_clock
      (1 ∷ [])
      (some (record an_ordered_signature { previous_hash = []; sequence = 1 }))
      (a_verifier, tt)).0
    ≡ ok tt
verify_ordered_signature-replays_example =
    verify_ordered_signature-replays nowhere toy_crypto a_clock (1 ∷ []) an_ordered_signature
      a_verifier tt a_cached is_cached refl (λ e. cc) a_name [] 1 (omega arith) (inl (refl, refl))

abbrev an_identity : Identity
an_identity = record {
  public_key = 4 ∷ [];
  server_address = "other";
  server_name = "a server";
  owner_name = "an owner";
  capabilities = [];
  created_at = none;
  is_trusted = false;
  trust_updated_at = none;
}

abbrev somewhere : Outside (Unit {0})
somewhere = record { store = none; get_peer_identity = λ addr w. (ok an_identity, w) }

cache-IsConsistent : IsConsistent a_verifier.identity_cache
cache-IsConsistent = (λ i e. absurd cc, tt)

verify_message_signature-IsConsistent_example :
    IsConsistent
      (verify_message_signature somewhere toy_crypto a_clock
        (1 ∷ [])
        (some (record { signature = 4 ∷ 3 ∷ 1 ∷ []; signer_address = "other" }))
        (a_verifier, tt)).1.0.identity_cache
verify_message_signature-IsConsistent_example =
    verify_message_signature-IsConsistent somewhere toy_crypto a_clock (1 ∷ [])
      (some (record { signature = 4 ∷ 3 ∷ 1 ∷ []; signer_address = "other" })) a_verifier tt
      cache-IsConsistent
