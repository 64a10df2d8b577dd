-- ===== src/Server/Verifier/Sound.antt =====
-- What a successful verification of a message shows.
use ztg.Prelude.{
  ℕ, ◌≡◌, refl, ◌⊎◌, inl, inr, true, List, Option, none, some, String, ok, arith, Result-cases,
  succeeded, failed, panicked, Option-cases,
}
use ztg.Server.HashChain.{verify_and_add}
use ztg.Server.HashChain.Accepts.{IsAccepted, verify_and_add-IsAccepted}
use ztg.Server.IdentityCache.{Identity, IdentityCache, get_with_address_check}
use ztg.Server.Verifier.{
  Signature, OrderedSignature, Crypto, Outside, Verifier, Clock, check_key, authenticate,
  get_peer_identity_from_store_or_remote, verify_message_signature, verify_ordered_signature,
}
use text.Mathlib.TextEquality.{eq_iff}

-- The key verifies the signature of the message's hash, and it is the key that the cache holds for
-- the address or that of a fetched identity which reports the address.
pub record IsAuthentic {W : Type 0} (o : Outside W) (c : Crypto) (t : Clock)
    (message signature : List ℕ) (addr : String) (v : Verifier) (w : W) : Type 0 where
  pub key : List ℕ
  pub verifies : c.ed25519_verify key (c.sha256 message) signature ≡ some true
  pub known :
      ((x : IdentityCache) × ((get_with_address_check t.at_lookup addr v.identity_cache).0 ≡ some x)
        × (x.public_key ≡ key))
      ⊎ ((i : Identity) × ((get_with_address_check t.at_lookup addr v.identity_cache).0 ≡ none)
          × ((get_peer_identity_from_store_or_remote o addr w).0 ≡ ok i)
          × (i.server_address ≡ addr)
          × (i.public_key ≡ key))

module _ {W : Type 0} (o : Outside W) (c : Crypto) (t : Clock) (message : List ℕ) where
  check_key-ok :
      (key signature : List ℕ)
      → check_key o c key message signature ≡ ok tt
      → c.ed25519_verify key (c.sha256 message) signature ≡ some true
  unfolding check_key
  check_key-ok key signature h = ground (arith, h)

  authenticate-IsAuthentic :
      (signature : List ℕ) (addr : String) (v : Verifier) (w : W) (u : Verifier)
      → (authenticate o c t message signature addr
          (get_with_address_check t.at_lookup addr v.identity_cache).0
          (u, w)).0
        ≡ ok tt
      → IsAuthentic o c t message signature addr v w
  unfolding authenticate
  authenticate-IsAuthentic signature addr v w u h =
      elim (Option-cases (get_with_address_check t.at_lookup addr v.identity_cache).0) [
        | inr (x, q) ↦ record {
          key = x.public_key;
          verifies = check_key-ok x.public_key signature (ground (arith, q, h));
          known = inl (x, q, refl);
        }
        | inl q ↦ elim (Result-cases (get_peer_identity_from_store_or_remote o addr w).0) [
          | failed e r ↦ absurd (ground (arith, q, r, h))
          | panicked r ↦ absurd (ground (arith, q, r, h))
          | succeeded i r ↦ record {
            key = i.public_key;
            verifies = check_key-ok i.public_key signature (ground (arith, q, r, h));
            known = inr (i, q, r, ground (arith, q, r, h, eq_iff i.server_address addr), refl);
          }
        ]
      ]

  -- A message is verified only with a signature by the key that is cached for the claimed address
  -- or by that of a fetched identity which reports this address.
  pub verify_message_signature-IsAuthentic :
      (s : Signature) (v : Verifier) (w : W)
      → (verify_message_signature o c t message (some s) (v, w)).0 ≡ ok tt
      → IsAuthentic o c t message s.signature s.signer_address v w
  unfolding verify_message_signature
  verify_message_signature-IsAuthentic s v w h =
      authenticate-IsAuthentic s.signature s.signer_address v w
        (record v {
          identity_cache = (get_with_address_check t.at_lookup s.signer_address v.identity_cache).1;
        })
        (ground (arith, h))

  authenticate-hash_chain :
      (signature : List ℕ) (addr : String) (found : Option IdentityCache) (x : Verifier × W)
      → (authenticate o c t message signature addr found x).1.0.hash_chain ≡ x.0.hash_chain
  unfolding authenticate
  authenticate-hash_chain signature addr none x = ground arith
  authenticate-hash_chain signature addr (some i) x = ground arith

  -- A message in a chain is verified only if its signature is authentic in this sense and its
  -- previous hash and sequence are accepted for the signer's chain.
  pub verify_ordered_signature-IsAuthentic :
      (s : OrderedSignature) (v : Verifier) (w : W)
      → (verify_ordered_signature o c t message (some s) (v, w)).0 ≡ ok tt
      → IsAuthentic o c t message s.signature s.signer_address v w
        × IsAccepted t.at_chain s.signer_address s.previous_hash s.sequence v.hash_chain
  unfolding verify_ordered_signature
  verify_ordered_signature-IsAuthentic s v w h =
      let u = record v {
        identity_cache = (get_with_address_check t.at_lookup s.signer_address v.identity_cache).1;
      } in
      let found = (get_with_address_check t.at_lookup s.signer_address v.identity_cache).0 in
      let a = authenticate o c t message s.signature s.signer_address found (u, w) in
      let kept : a.1.0.hash_chain ≡ v.hash_chain =
        authenticate-hash_chain s.signature s.signer_address found (u, w) in
      let authentic : a.0 ≡ ok tt = ground (arith, h) in
      let continued : (verify_and_add t.at_chain t.at_add s.signer_address s.previous_hash
            (c.sha256 message) s.sequence a.1.0.hash_chain).0
          ≡ ok tt =
        ground (arith, h, authentic) in
      (
        authenticate-IsAuthentic s.signature s.signer_address v w u authentic,
        (verify_and_add-IsAccepted t.at_chain t.at_add s.signer_address s.previous_hash
              (c.sha256 message) s.sequence v.hash_chain).0.0
            (rw kept at continued),
      )
