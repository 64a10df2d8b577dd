-- ===== src/Server/Stream/Tests.antt =====
-- Messages over a stream at concrete inputs, with a signature that is the key before the hash.
use ztg.Prelude.{
  ℕ, ◌≡◌, ◌≢◌, refl, ◌↔◌, inr, true, List, [], ◌∷◌, ◌++◌, Option, none, some, String, Result, ok,
  err, arith, wrap_err,
}
use ztg.Prelude.Int.{ℤ, pos, negsuc}
use ztg.Prelude.Int64.{Fits32}
use ztg.Prelude.Bytes.{bytes_eq}
use ztg.Prelude.Dict.{lookup}
use ztg.Factorfight.Expr.{value}
use ztg.Factorfight.Pawn.{plain_move, bumped_self}
use ztg.Factorfight.Moves.{Move}
use ztg.Factorfight.Session.{same_move}
use ztg.Server.HashChain.{HashChainManager}
use ztg.Server.IdentityCache.{IdentityCache, get, get_with_address_check}
use ztg.Server.Signer.{Signer, sign}
use ztg.Server.Verifier.{Crypto, Outside, Verifier, Clock, verify_ordered_signature}
use ztg.Server.Stream.Convert.{from_proto_move, to_proto_move}
use ztg.Server.Stream.Transit.{from_proto_move-to_proto_move}
use ztg.Server.Stream.Peer.{
  FactorFightMessage, empty, SignedFactorFightMessage, Stream, Peer, send_message, stream_failed,
}
use ztg.Server.Stream.InStep.{IsInStep, sent_from}
use ztg.Server.Stream.Honest.{signing_of, signed_message, send_message-IsInStep}

-- The first pawn has been driven below what an `int32` holds.
abbrev far_move : Move
far_move = record {
  pawn1 = plain_move (value (negsuc 5000000000)) (negsuc 5000000000);
  pawn2 = record (plain_move (value (pos 7)) (pos 7)) { bump = bumped_self };
}

abbrev no_digits : ℤ → String
no_digits _ = "n"

from_proto_move-to_proto_move_example :
    (same_move (from_proto_move (some (to_proto_move no_digits far_move))) far_move ≡ true)
    ↔ (Fits32 (negsuc 5000000000) × Fits32 (pos 7))
from_proto_move-to_proto_move_example = from_proto_move-to_proto_move no_digits far_move tt tt

abbrev toy_crypto : Crypto
toy_crypto = record {
  sha256 = λ bs. 3 ∷ bs;
  ed25519_verify = λ key hash signature. some (bytes_eq signature (key ++ hash));
}

abbrev toy_sign : List ℕ → List ℕ → List ℕ
toy_sign key hash = key ++ hash

abbrev a_signer : Signer
a_signer = record { private_key = 7 ∷ []; address = "peer" }

abbrev a_cached : IdentityCache
a_cached = record { identity = none; public_key = 7 ∷ []; expires_at = none }

-- The receiver has seen four messages of the peer.
abbrev a_chain : HashChainManager
a_chain = record {
  chains = ("peer", record { hash = 8 ∷ []; sequence = 4; expires_at = 100 }) ∷ [];
  ttl = 50;
}

abbrev a_receiver : Verifier
a_receiver = record {
  identity_cache = record { cache = ("peer", a_cached) ∷ []; ttl = 0 };
  hash_chain = a_chain;
}

abbrev a_peer : Peer
a_peer = record { verifier = none; last_hash = 8 ∷ []; sequence = 4 }

abbrev nowhere : Outside (Unit {0})
nowhere = record { store = none; get_peer_identity = λ addr w. (err "unreachable", w) }

abbrev a_stream : Stream (Unit {0})
a_stream = record { send = λ _ w. (ok tt, w); recv = λ w. (err "closed", w) }

abbrev a_clock : Clock
a_clock = record { at_lookup = 10; at_set = 11; at_chain = 12; at_add = 13 }

abbrev one_byte : Option FactorFightMessage → Result String (List ℕ)
one_byte _ = ok (1 ∷ [])

in_step : IsInStep 12 "peer" a_peer a_chain
unfolding lookup
in_step =
    inr (_, refl, omega arith, record { fresh = omega arith; linked = refl; next = refl }, refl)

key_cached : (get_with_address_check 10 "peer" a_receiver.identity_cache).0 ≡ some a_cached
unfolding get_with_address_check get lookup
key_cached = refl

key_verifies :
    toy_crypto.ed25519_verify
      (7 ∷ [])
      (3 ∷ 1 ∷ [])
      (sign (signing_of toy_crypto toy_sign) a_signer (1 ∷ []))
    ≡ some true
unfolding sign
key_verifies = refl

sign_nonempty : sign (signing_of toy_crypto toy_sign) a_signer (1 ∷ []) ≢ []
unfolding sign
sign_nonempty = λ e. cc

a_name : ◌≢◌ {A = String} "peer" ""
a_name = λ e. cc

abbrev a_sent : SignedFactorFightMessage
a_sent = signed_message (signing_of toy_crypto toy_sign) a_signer a_peer empty (1 ∷ [])

send_message-IsInStep_example :
    let result =
      verify_ordered_signature nowhere toy_crypto a_clock
        (1 ∷ [])
        a_sent.signature
        (a_receiver, tt) in
    (send_message a_stream (signing_of toy_crypto toy_sign) a_signer one_byte empty (a_peer, tt)
      ≡ (wrap_err stream_failed (a_stream.send a_sent tt).0, (sent_from a_peer (3 ∷ 1 ∷ []), tt)))
    × (result.0 ≡ ok tt)
    × IsInStep 60 "peer" (sent_from a_peer (3 ∷ 1 ∷ [])) result.1.0.hash_chain
send_message-IsInStep_example =
    send_message-IsInStep a_stream nowhere toy_crypto toy_sign a_signer one_byte a_clock empty
      (1 ∷ []) a_peer a_receiver a_cached tt tt 60 refl in_step (omega arith) key_cached
      key_verifies sign_nonempty a_name (omega arith)
