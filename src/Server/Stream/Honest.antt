-- ===== src/Server/Stream/Honest.antt =====
-- What an honest peer sends, on both sides of the stream (server/factorfight/peer.go).
use ztg.Prelude.{
  ℕ, ◌+◌, ◌^◌, ◌≤◌, ◌<◌, ◌≡◌, ◌≢◌, refl, List, [], ◌∷◌, Option, some, true, false, String, Result,
  ok, arith, length, ◌==◌, wrap_err,
}
use ztg.Server.HashChain.{verify_and_add}
use ztg.Server.IdentityCache.{IdentityCache, get_with_address_check}
use ztg.Server.Signer.{Signer, Signing, sign, sign_ordered_message, create_signed_ordered_message}
use ztg.Server.Verifier.{
  OrderedSignature, Crypto, Outside, Verifier, Clock, check_key, authenticate,
  verify_ordered_signature,
}
use ztg.Server.Verifier.Replay.{verify_ordered_signature-replays}
use ztg.Server.Stream.Peer.{
  FactorFightMessage, SignedFactorFightMessage, Stream, Peer, stream_failed, next, send_message,
}
use ztg.Server.Stream.InStep.{IsInStep, sent_from, IsInStep-IsAccepted, IsAccepted-IsInStep}
use text.Mathlib.TextEquality.{eq_iff}

nonzero : (xs : List ℕ) → xs ≢ [] → (length xs == 0) ≡ false
nonzero [] n = absurd (n refl)
nonzero (y ∷ ys) n = ground arith

module _ {W : Type 0} (o : Outside W) (c : Crypto) (t : Clock) (message : List ℕ) where
  -- The chain that a verified message leaves.
  verified-hash_chain :
      (s : OrderedSignature) (v : Verifier) (w : W) (x : IdentityCache)
      → (get_with_address_check t.at_lookup s.signer_address v.identity_cache).0 ≡ some x
      → c.ed25519_verify x.public_key (c.sha256 message) s.signature ≡ some true
      → s.signature ≢ []
      → s.signer_address ≢ ""
      → s.sequence ≢ 0
      → (verify_ordered_signature o c t message (some s) (v, w)).1.0.hash_chain
        ≡ (verify_and_add t.at_chain t.at_add s.signer_address s.previous_hash
            (c.sha256 message)
            s.sequence
            v.hash_chain).1
  unfolding verify_ordered_signature authenticate check_key
  verified-hash_chain s v w x q h nonempty named positive =
      ground
        (arith, q, h, nonzero s.signature nonempty, eq_iff s.signer_address "", named, positive)

-- What a peer puts on the stream for a message with this serialization.
abbrev pub signed_message :
    Signing → Signer → Peer → FactorFightMessage → List ℕ → SignedFactorFightMessage
signed_message signing signer p m message = record {
  message = some m;
  signature = some (sign_ordered_message signing signer message p.last_hash (next p).sequence);
}

-- The signing side of the hash and scheme of a verifier.
abbrev pub signing_of : Crypto → (List ℕ → List ℕ → List ℕ) → Signing
signing_of c ed25519_sign = record { sha256 = c.sha256; ed25519_sign = ed25519_sign }

module _ {W : Type 0} (stream : Stream W) (signing : Signing) (signer : Signer)
    (marshal : Option FactorFightMessage → Result String (List ℕ)) where
  send_message_lem :
      (m : FactorFightMessage) (message : List ℕ) (p : Peer) (w : W)
      → marshal (some m) ≡ ok message
      → send_message stream signing signer marshal m (p, w) ≡ (
        wrap_err stream_failed (stream.send (signed_message signing signer p m message) w).0,
        (
          sent_from p (signing.sha256 message),
          (stream.send (signed_message signing signer p m message) w).1,
        ),
      )
  unfolding send_message create_signed_ordered_message
  send_message_lem m message p w h = ground (arith, h)

module _ {W : Type 0} (stream : Stream W) (o : Outside W) (c : Crypto)
    (ed25519_sign : List ℕ → List ℕ → List ℕ) (signer : Signer)
    (marshal : Option FactorFightMessage → Result String (List ℕ)) where
  -- A message that a peer sends reaches the stream with the signature, previous hash and sequence
  -- of the peer; a receiver that is in step with it and has its key cached verifies it, and is in
  -- step again for the time to live. The key must verify what the signer signs, and the counter
  -- must be below its maximum.
  pub send_message-IsInStep :
      (t : Clock) (m : FactorFightMessage) (message : List ℕ) (p : Peer) (v : Verifier)
      (x : IdentityCache) (w u : W) (now : ℕ)
      → marshal (some m) ≡ ok message
      → IsInStep t.at_chain signer.address p v.hash_chain
      → p.sequence + 1 < 2 ^ 64
      → (get_with_address_check t.at_lookup signer.address v.identity_cache).0 ≡ some x
      → c.ed25519_verify x.public_key
          (c.sha256 message)
          (sign (signing_of c ed25519_sign) signer message)
        ≡ some true
      → sign (signing_of c ed25519_sign) signer message ≢ []
      → signer.address ≢ ""
      → now ≤ t.at_add + v.hash_chain.ttl
      → let msg = signed_message (signing_of c ed25519_sign) signer p m message in
        let result = verify_ordered_signature o c t message msg.signature (v, u) in
        (send_message stream (signing_of c ed25519_sign) signer marshal m (p, w) ≡ (
          wrap_err stream_failed (stream.send msg w).0,
          (sent_from p (c.sha256 message), (stream.send msg w).1),
        ))
        × (result.0 ≡ ok tt)
        × IsInStep now signer.address (sent_from p (c.sha256 message)) result.1.0.hash_chain
  unfolding sign_ordered_message
  send_message-IsInStep t m message p v x w u now h step bound q k nonempty named fresh =
      let s =
        sign_ordered_message (signing_of c ed25519_sign) signer message p.last_hash
          (next p).sequence in
      let positive : (next p).sequence ≢ 0 = ground (arith, bound) in
      let accepted =
        IsInStep-IsAccepted t.at_chain t.at_add signer.address (c.sha256 message) p v.hash_chain
          bound step in
      let verified =
        verify_ordered_signature-replays o c t message s v u x q k nonempty named p.last_hash
          (next p).sequence positive accepted in
      let chained = verified-hash_chain o c t message s v u x q k nonempty named positive in
      let stepped =
        IsAccepted-IsInStep t.at_chain t.at_add signer.address (c.sha256 message) p v.hash_chain
          bound step now fresh in
      (
        send_message_lem stream (signing_of c ed25519_sign) signer marshal m message p w h,
        verified,
        rw chained stepped,
      )
