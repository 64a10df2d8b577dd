-- ===== src/Server/IdentityService/Vouched.antt =====
-- Which identities a request can add.
use ztg.Prelude.{
  ℕ, ◌≡◌, ◌⊎◌, inl, inr, false, Option, none, some, String, ok, arith, length, Option-cases,
  Result-cases, succeeded, failed, panicked, Bool-cases, ◌==◌,
}
use ztg.Prelude.Bytes.{bytes_eq_sound}
use ztg.Server.IdentityCache.{Identity}
use ztg.Server.IdentityService.{Service, add_identity}
use text.Mathlib.Text.{◌==◌ as str_eq}
use text.Mathlib.TextEquality.{eq_iff}

-- The address is no URL with a host, or the server there reports the same key.
abbrev pub IsVouched : {W : Type 0} → Service W → Option String → Identity → W → Type 0
IsVouched s host i w =
    (host ≡ none)
    ⊎ (host ≡ some "")
    ⊎ ((peer : Identity) × ((s.get_peer_identity i.server_address w).0 ≡ ok peer)
        × (i.public_key ≡ peer.public_key))

module _ {W : Type 0} (s : Service W) (parse : String → Option String) (now : ℕ)
    (i : Identity) where
  -- An identity that a request adds has a key of 32 bytes and is not trusted, and if its address is
  -- a URL with a host then the server there reports the same key.
  pub add_identity-IsVouched :
      (w : W)
      → (add_identity s parse now i w).0 ≡ ok tt
      → (length i.public_key ≡ 32)
        × (i.is_trusted ≡ false)
        × IsVouched s (parse i.server_address) i w
  unfolding add_identity
  add_identity-IsVouched w h = elim (Option-cases s.store) [
    | inl q ↦ absurd (ground (arith, q, h))
    | inr (store, q) ↦ elim (Bool-cases (length i.public_key == 32)) [
      | inr a ↦ absurd (ground (arith, q, a, h))
      | inl a ↦ elim (Option-cases (parse i.server_address)) [
        | inl p ↦ (ground (arith, a), ground (arith, q, a, p, h), inl p)
        | inr (host, p) ↦ elim (Bool-cases (str_eq host "")) [
          | inl e ↦
              let named : host ≡ "" = (eq_iff host "").0 e in
              (ground (arith, a), ground (arith, q, a, p, e, h), inr (inl (rw named at p)))
          | inr e ↦ elim (Result-cases (s.get_peer_identity i.server_address w).0) [
            | failed _ r ↦ absurd (ground (arith, q, a, p, e, r, h))
            | panicked r ↦ absurd (ground (arith, q, a, p, e, r, h))
            | succeeded peer r ↦ (
              ground (arith, a),
              ground (arith, q, a, p, e, r, h),
              inr (inr (peer, r, bytes_eq_sound _ _ (ground (arith, q, a, p, e, r, h)))),
            )
          ]
        ]
      ]
    ]
  ]
