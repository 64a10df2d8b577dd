-- ===== src/Server/HashChain/Accepts.antt =====
-- Which messages continue a peer's chain, and what an accepted message leaves.
use ztg.Prelude.{
  ap, ℕ, ◌+◌, ◌≤◌, ◌≡◌, ◌≢◌, refl, ◌⊎◌, inl, inr, ◌↔◌, true, List, [], ◌∷◌, some, String, Result,
  ok, arith, ◌==◌, ==_iff, length, Option-cases, Bool-cases,
}
use ztg.Prelude.Bytes.{bytes_eq, bytes_eq_sound, bytes_eq_refl}
use ztg.Prelude.Dict.{lookup, lookup-insert, lookup-delete}
use ztg.Server.HashChain.{
  HashChainEntry, HashChainManager, ChainError, next_sequence, add_entry, verify_and_add,
}
use text.Mathlib.TextEquality.{eq_iff}
use text.Mathlib.TextPositions.{eq_refl}

-- The stored entry that a message with this previous hash and sequence follows.
pub record Follows (now : ℕ) (previous : List ℕ) (sequence : ℕ) (last : HashChainEntry)
    : Type 0 where
  pub fresh : now ≤ last.expires_at
  pub linked : last.hash ≡ previous
  pub next : sequence ≡ next_sequence last.sequence

-- A message starts a chain, or it follows the entry stored for its peer.
abbrev pub IsAccepted : ℕ → String → List ℕ → ℕ → HashChainManager → Type 0
IsAccepted now addr previous sequence hm =
    ((sequence ≡ 1) × (previous ≡ []))
    ⊎ ((last : HashChainEntry) × (sequence ≢ 1)
        × (lookup addr hm.chains ≡ some last)
        × Follows now previous sequence last)

length-zero : (xs : List ℕ) → (length xs == 0) ≡ true → xs ≡ []
length-zero [] h = refl
length-zero (x ∷ xs) h = absurd (ground (arith, h))

module _ (now later : ℕ) (addr : String) (previous current : List ℕ) (sequence : ℕ) where
  accepted :
      (hm : HashChainManager)
      → (verify_and_add now later addr previous current sequence hm).0 ≡ ok tt
      → IsAccepted now addr previous sequence hm
  unfolding verify_and_add
  accepted hm h = elim (Bool-cases (sequence == 1)) [
    | inl a ↦ inl ((==_iff _ _).0 a, length-zero previous (ground (arith, a, h)))
    | inr a ↦ elim (Option-cases (lookup addr hm.chains)) [
      | inl q ↦ absurd (ground (arith, a, q, h))
      | inr (last, q) ↦ inr (
        last,
        ground (arith, a),
        q,
        record {
          fresh = ground (arith, a, q, h);
          linked = bytes_eq_sound _ _ (ground (arith, a, q, h));
          next = ground (arith, a, q, h);
        },
      )
    ]
  ]

  accepts :
      (hm : HashChainManager)
      → IsAccepted now addr previous sequence hm
      → verify_and_add now later addr previous current sequence hm
        ≡ (ok tt, add_entry later addr current sequence hm)
  unfolding verify_and_add
  accepts hm (inl (e, f)) = rw (e, f)
  accepts hm (inr (last, ne, q, f)) = ground (arith, ne, q, f.fresh, f.next, same)
    where
      same : bytes_eq last.hash previous ≡ true
      same = rw f.linked (bytes_eq_refl previous)

  -- A message is accepted exactly if it starts a chain or follows the stored entry of its peer, and
  -- then it becomes that entry, fresh for the time to live.
  pub verify_and_add-IsAccepted :
      (hm : HashChainManager)
      → let (r, hm') = verify_and_add now later addr previous current sequence hm in
        ((r ≡ ok tt) ↔ IsAccepted now addr previous sequence hm)
        × (r ≡ ok tt
            → lookup addr hm'.chains
              ≡ some (record { hash = current; sequence = sequence; expires_at = later + hm.ttl }))
  verify_and_add-IsAccepted hm = (
    (
      accepted hm,
      λ a. ap (λ (x : Result ChainError (Unit {0}) × HashChainManager). x.0) (accepts hm a),
    ),
    λ h. rw (accepts hm (accepted hm h), lookup-insert, eq_refl addr),
  )

  -- No call changes what is stored for another peer.
  verify_and_add-others :
      (other : String) (hm : HashChainManager)
      → addr ≢ other
      → lookup other (verify_and_add now later addr previous current sequence hm).1.chains
        ≡ lookup other hm.chains
  unfolding verify_and_add
  verify_and_add-others other hm ne = elim (Option-cases (lookup addr hm.chains)) [
    | inl q ↦
        ground (arith, q, eq_iff addr other, lookup-insert addr other (new_entry hm) hm.chains)
    | inr (last, q) ↦ ground (
      arith,
      q,
      eq_iff addr other,
      lookup-insert addr other (new_entry hm) hm.chains,
      lookup-delete addr other hm.chains,
    )
  ]
    where
      new_entry : HashChainManager → HashChainEntry
      new_entry hm = record { hash = current; sequence = sequence; expires_at = later + hm.ttl }
