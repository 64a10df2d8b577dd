-- ===== src/Server/Verifier/Consistent.antt =====
-- Keys and addresses in the cache of the verifier (server/verifier.go).
use ztg.Prelude.{
  ℕ, ◌≡◌, inl, inr, List, Option, none, some, String, arith, Result-cases, succeeded, failed,
  panicked, Option-cases, Bool-cases, length, ◌==◌,
}
use ztg.Prelude.Dict.{AllEntries, AllEntries-insert, AllEntries-delete, lookup, delete}
use ztg.Server.IdentityCache.{
  Identity, IdentityCache, IdentityCacheManager, get, get_with_address_check, set, is_stale,
  is_misplaced,
}
use ztg.Server.Verifier.{
  Signature, Crypto, Outside, Verifier, Clock, check_key, authenticate,
  get_peer_identity_from_store_or_remote, verify_message_signature,
}
use text.Mathlib.Text.{◌==◌ as str_eq}
use text.Mathlib.TextEquality.{eq_iff}

abbrev pub IsConsistentEntry : String → IdentityCache → Type 0
IsConsistentEntry addr entry =
    (i : Identity)
    → entry.identity ≡ some i
    → (i.server_address ≡ addr) × (entry.public_key ≡ i.public_key)

abbrev pub IsConsistent : IdentityCacheManager → Type 0
IsConsistent cm = AllEntries IsConsistentEntry cm.cache

deleted :
    (addr : String) (cm : IdentityCacheManager)
    → IsConsistent cm
    → IsConsistent (record cm { cache = delete addr cm.cache })
deleted addr cm h = AllEntries-delete IsConsistentEntry addr cm.cache h

get-IsConsistent :
    (now : ℕ) (addr : String) (cm : IdentityCacheManager)
    → IsConsistent cm
    → IsConsistent (get now addr cm).1
unfolding get
get-IsConsistent now addr cm h = elim (Option-cases (lookup addr cm.cache)) [
  | inl q ↦ rw q h
  | inr (entry, q) ↦ elim (Bool-cases (is_stale now entry)) [
    | inl e ↦ rw (q, e) (deleted addr cm h)
    | inr e ↦ rw (q, e) h
  ]
]

get_with_address_check-IsConsistent :
    (now : ℕ) (addr : String) (cm : IdentityCacheManager)
    → IsConsistent cm
    → IsConsistent (get_with_address_check now addr cm).1
unfolding get_with_address_check
get_with_address_check-IsConsistent now addr cm h =
    let kept : IsConsistent (get now addr cm).1 = get-IsConsistent now addr cm h in
    elim (Option-cases (get now addr cm).0) [
      | inl q ↦
          let e : (get_with_address_check now addr cm).1 ≡ (get now addr cm).1 =
            ground (arith, q) in
          rw e kept
      | inr (entry, q) ↦ elim (Bool-cases (is_misplaced addr entry)) [
        | inl m ↦
            let e : (get_with_address_check now addr cm).1
                ≡ record (get now addr cm).1 { cache = delete addr (get now addr cm).1.cache } =
              ground (arith, q, m) in
            rw e (deleted addr (get now addr cm).1 kept)
        | inr m ↦
            let e : (get_with_address_check now addr cm).1 ≡ (get now addr cm).1 =
              ground (arith, q, m) in
            rw e kept
      ]
    ]

set-IsConsistent :
    (now : ℕ) (addr : String) (i : Identity) (cm : IdentityCacheManager)
    → i.server_address ≡ addr
    → IsConsistent cm
    → IsConsistent (set now addr i cm)
unfolding set
set-IsConsistent now addr i cm e h =
    AllEntries-insert IsConsistentEntry addr _ cm.cache (λ j same. ground (arith, same, e)) h

module _ {W : Type 0} (o : Outside W) (c : Crypto) (t : Clock) (message : List ℕ) where
  authenticate-IsConsistent :
      (signature : List ℕ) (addr : String) (found : Option IdentityCache) (u : Verifier) (w : W)
      → IsConsistent u.identity_cache
      → IsConsistent (authenticate o c t message signature addr found (u, w)).1.0.identity_cache
  unfolding authenticate
  authenticate-IsConsistent signature addr (some x) u w h = h
  authenticate-IsConsistent signature addr none u w h =
      elim (Result-cases (get_peer_identity_from_store_or_remote o addr w).0) [
        | failed e r ↦ same (ground (arith, r))
        | panicked r ↦ same (ground (arith, r))
        | succeeded i r ↦ elim (Bool-cases (str_eq i.server_address addr)) [
          | inr a ↦ same (ground (arith, r, a))
          | inl a ↦ elim (Result-cases (check_key o c i.public_key message signature)) [
            | failed e k ↦ same (ground (arith, r, a, k))
            | panicked k ↦ same (ground (arith, r, a, k))
            | succeeded _ k ↦
                let e : (authenticate o c t message signature addr none (u, w)).1.0.identity_cache
                    ≡ set t.at_set addr i u.identity_cache =
                  ground (arith, r, a, k) in
                rw e (
                  set-IsConsistent t.at_set addr i u.identity_cache
                    ((eq_iff i.server_address addr).0 a) h)
          ]
        ]
      ]
    where
      same :
          (authenticate o c t message signature addr none (u, w)).1.0.identity_cache
            ≡ u.identity_cache
          → IsConsistent (authenticate o c t message signature addr none (u, w)).1.0.identity_cache
      same e = rw e h

  -- However a verification ends, it keeps the cache consistent: each entry with an identity holds
  -- the key of this identity, and the identity reports the address it is stored under.
  pub verify_message_signature-IsConsistent :
      (s : Option Signature) (v : Verifier) (w : W)
      → IsConsistent v.identity_cache
      → IsConsistent (verify_message_signature o c t message s (v, w)).1.0.identity_cache
  unfolding verify_message_signature
  verify_message_signature-IsConsistent none v w h = h
  verify_message_signature-IsConsistent (some s) v w h =
      elim (Bool-cases (length s.signature == 0)) [
        | inl a ↦ rw a h
        | inr a ↦ elim (Bool-cases (str_eq s.signer_address "")) [
          | inl b ↦ rw (a, b) h
          | inr b ↦
              rw (a, b)
                (authenticate-IsConsistent s.signature s.signer_address _ _ w (
                  get_with_address_check-IsConsistent t.at_lookup s.signer_address v.identity_cache
                    h))
        ]
      ]
