-- ===== src/Server/Stream/InStep.antt =====
-- The counter of a sender and the chain of its receiver (server/factorfight/peer.go,
-- server/verifier.go).
use ztg.Prelude.{
  ℕ, ◌+◌, ◌^◌, ◌≤◌, ◌<◌, ◌≡◌, ◌≢◌, refl, ◌⊎◌, inl, inr, List, [], some, String, arith,
}
use ztg.Prelude.Dict.{lookup}
use ztg.Server.HashChain.{HashChainEntry, HashChainManager, verify_and_add}
use ztg.Server.HashChain.Accepts.{IsAccepted, Follows, verify_and_add-IsAccepted}
use ztg.Server.Stream.Peer.{Peer, next}

-- The sender has sent nothing, or its last message is the unexpired entry of the receiver's chain.
abbrev pub IsInStep : ℕ → String → Peer → HashChainManager → Type 0
IsInStep now addr p hm =
    ((p.sequence ≡ 0) × (p.last_hash ≡ []))
    ⊎ ((last : HashChainEntry) × (lookup addr hm.chains ≡ some last)
        × (p.sequence ≢ 0)
        × Follows now p.last_hash (next p).sequence last
        × (last.sequence ≡ p.sequence))

-- The sender after a message with this hash.
abbrev pub sent_from : Peer → List ℕ → Peer
sent_from p hash = record (next p) { last_hash = hash }

module _ (now later : ℕ) (addr : String) (hash : List ℕ) (p : Peer) where
  pub IsInStep-IsAccepted :
      (hm : HashChainManager)
      → p.sequence + 1 < 2 ^ 64
      → IsInStep now addr p hm
      → IsAccepted now addr p.last_hash (next p).sequence hm
  IsInStep-IsAccepted hm bound (inl (e, f)) = inl (ground (arith, e), f)
  IsInStep-IsAccepted hm bound (inr (last, found, moved, follows, _)) =
      inr (last, ground (arith, bound, moved), found, follows)

  -- The entry of an accepted message puts the receiver in step again, for the time to live.
  pub IsAccepted-IsInStep :
      (hm : HashChainManager)
      → p.sequence + 1 < 2 ^ 64
      → IsInStep now addr p hm
      → (then' : ℕ) → then' ≤ later + hm.ttl
      → IsInStep then' addr
          (sent_from p hash)
          (verify_and_add now later addr p.last_hash hash (next p).sequence hm).1
  IsAccepted-IsInStep hm bound s then' fresh =
      let facts = verify_and_add-IsAccepted now later addr p.last_hash hash (next p).sequence hm in
      inr (
        _,
        facts.1 (facts.0.1 (IsInStep-IsAccepted hm bound s)),
        ground (arith, bound),
        record { fresh = fresh; linked = refl; next = refl },
        refl,
      )
