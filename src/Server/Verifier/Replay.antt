-- ===== src/Server/Verifier/Replay.antt =====
-- What an ordered signature does not cover (server/verifier.go).
use ztg.Prelude.{ℕ, ◌≡◌, ◌≢◌, refl, true, false, List, [], ◌∷◌, some, ok, arith, length, ◌==◌}
use ztg.Server.HashChain.{verify_and_add}
use ztg.Server.HashChain.Accepts.{IsAccepted, verify_and_add-IsAccepted}
use ztg.Server.IdentityCache.{IdentityCache, get_with_address_check}
use ztg.Server.Verifier.{
  OrderedSignature, Crypto, Outside, Verifier, Clock, check_key, authenticate,
  verify_ordered_signature,
}
use text.Mathlib.TextEquality.{eq_iff}

module _ {W : Type 0} (o : Outside W) (c : Crypto) (t : Clock) (message : List ℕ) where
  -- For a signer in the cache whose key verifies the message, every previous hash and sequence
  -- that the chain accepts are accepted, whichever the signer meant.
  pub verify_ordered_signature-replays :
      (s : OrderedSignature) (v : Verifier) (w : W) (x : IdentityCache)
      → (get_with_address_check t.at_lookup s.signer_address v.identity_cache).0 ≡ some x
      → c.ed25519_verify x.public_key (c.sha256 message) s.signature ≡ some true
      → s.signature ≢ []
      → s.signer_address ≢ ""
      → (previous : List ℕ) (sequence : ℕ) → sequence ≢ 0
      → IsAccepted t.at_chain s.signer_address previous sequence v.hash_chain
      → (verify_ordered_signature o c t message
          (some (record s { previous_hash = previous; sequence = sequence }))
          (v, w)).0
        ≡ ok tt
  unfolding verify_ordered_signature authenticate check_key
  verify_ordered_signature-replays s v w x q h nonempty named previous sequence positive a =
      ground (
        arith,
        q,
        h,
        nonzero s.signature nonempty,
        eq_iff s.signer_address "",
        named,
        positive,
        accepted,
      )
    where
      accepted :
          (verify_and_add t.at_chain t.at_add s.signer_address previous
            (c.sha256 message)
            sequence
            v.hash_chain).0
          ≡ ok tt
      accepted =
          (verify_and_add-IsAccepted t.at_chain t.at_add s.signer_address previous
              (c.sha256 message) sequence v.hash_chain).0.1
            a

      nonzero : (xs : List ℕ) → xs ≢ [] → (length xs == 0) ≡ false
      nonzero [] n = absurd (n refl)
      nonzero (y ∷ ys) n = ground arith
