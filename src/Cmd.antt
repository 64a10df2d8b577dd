-- ===== src/Cmd.antt =====
-- The commands of the owner of a server (cmd/trust/trust.go, cmd/challenge/challenge.go): each reads the
-- owner's key, signs a request and sends it to the server (grpcutil/client.go dials). The flags are
-- arguments, and what is printed is left out, but for a request that is only printed, which is the
-- result. A world stands for everything that a connection reaches.
pub mod Owner
pub mod Identities
pub mod Generate
pub mod Flags
pub mod Line
mod Tests
use ztg.Prelude.{false, ℕ, Bool, List, ◌++◌, String, Result, wrap_err, if◌then◌else◌}
use ztg.Prelude.Bytes.{codes, has_suffix}
use ztg.Prelude.Exec.{Exec, ◌>>=◌, pure, lift, wrapping, outside, inside}
use ztg.Identity.Keys.{
  KeyLibrary, IdentityConfig, KeyError, Cache, new_key_manager, example_pub_key_path,
}
use ztg.Server.Verifier.{Signature}
use ztg.Server.IdentityCache.{Identity}
use ztg.Server.Signer.{Signer, Signing, SignError, sign_message, sign_proto}
use ztg.Server.Pair.{new_signer}
use ztg.Server.GameService.{ChallengeRequest, ChallengeResponse}

pub record SetTrustRequest : Type 0 where
  pub server_address : String
  pub trusted : Bool
  pub signature : Signature

pub record SignedChallengeRequest : Type 0 where
  pub challenge : ChallengeRequest
  pub signature : Signature

pub data CommandError : Type 0 where
  key_manager_failed : KeyError → CommandError
  sign_failed : SignError → CommandError
  connection_failed request_failed decode_failed : String → CommandError

-- `grpc.NewClient`, with TLS or without it, and what a connection is used for.
pub record Network (C W : Type 0) : Type 0 where
  pub new_client : Bool → String → Exec W String C
  pub close : C → W → W
  pub set_trust : C → SetTrustRequest → Exec W String (Unit {0})
  pub challenge : C → SignedChallengeRequest → Exec W String ChallengeResponse
  pub add_identity : C → Identity → Exec W String (Unit {0})
  pub list_identities : C → Exec W String (List Identity)

-- The configuration of a command that signs in the name of this address.
abbrev pub identity_config : String → String → String → IdentityConfig
identity_config address key_path owner_file = record {
  server_name = "";
  owner_name = "";
  owner_public_key = "";
  owner_public_key_file = owner_file;
  private_key = "";
  private_key_file = key_path;
  server_address = address;
  force_example = false;
}

-- `fmt.Appendf(nil, "set-trust:%s:%v", …)`, for an address of ASCII characters.
abbrev pub trust_text : String → Bool → List ℕ
trust_text peer trusted =
    codes "set-trust:" ++ (codes peer ++ (codes ":" ++ codes (if trusted then "true" else "false")))

module _ {C W : Type 0} (n : Network C W) where
  -- `grpcutil.NewClient`
  unfoldable pub new_client : String → Exec W String C
  new_client address = n.new_client (has_suffix (codes ":443") (codes address)) address

  -- A request over a new connection, which is closed at the end.
  abbrev pub over : {A : Type 0} → String → (C → Exec W String A) → Exec W CommandError A
  over server_addr request = do
    conn ← wrapping connection_failed (new_client server_addr)
    λ w. (let (r, w') = request conn w in (wrap_err request_failed r, n.close conn w'))

module _ (l : KeyLibrary) (signing : Signing) where
  -- `identity.NewKeyManager` and `server.NewSigner`, which take the same address.
  abbrev pub signer_for : String → String → String → Exec Cache CommandError Signer
  signer_for address key_path owner_file = do
    km ←
        wrapping key_manager_failed
          (new_key_manager l (identity_config address key_path owner_file))
    pure (new_signer km.private_key address)

  -- The request that is printed: the signed text names the server, the request names the peer.
  unfoldable pub create_trust_request :
      Bool → String → String → String → Exec Cache CommandError SetTrustRequest
  create_trust_request trusted peer server_addr key_path = do
    signer ← signer_for server_addr key_path example_pub_key_path
    pure (record {
      server_address = peer;
      trusted = trusted;
      signature = sign_message signing signer (trust_text server_addr trusted);
    })

  unfoldable pub create_challenge :
      (ChallengeRequest → Result String (List ℕ))
      → String
      → String
      → String
      → String
      → Exec Cache CommandError SignedChallengeRequest
  create_challenge marshal target game_id server_addr key_path = do
    signer ← signer_for server_addr key_path example_pub_key_path
    let req : ChallengeRequest = record { game_id = game_id; target = target }
    signature ← lift (wrap_err sign_failed (sign_proto signing signer marshal req))
    pure (record { challenge = req; signature = signature })

  module _ {C W : Type 0} (n : Network C W) where
    unfoldable pub send_trust_request :
        String → String → Bool → String → Exec (Cache × W) CommandError (Unit {0})
    send_trust_request server_addr peer trusted key_path = do
      signer ← inside (signer_for "owner" key_path "")
      let req : SetTrustRequest = record {
        server_address = peer;
        trusted = trusted;
        signature = sign_message signing signer (trust_text peer trusted);
      }
      outside (over n server_addr (λ conn. n.set_trust conn req))

    unfoldable pub send_challenge :
        (ChallengeRequest → Result String (List ℕ))
        → String
        → String
        → String
        → String
        → Exec (Cache × W) CommandError ChallengeResponse
    send_challenge marshal target game_id server_addr key_path = do
      signer ← inside (signer_for "owner" key_path "")
      let req : ChallengeRequest = record { game_id = game_id; target = target }
      signature ← lift (wrap_err sign_failed (sign_proto signing signer marshal req))
      let signed : SignedChallengeRequest = record { challenge = req; signature = signature }
      outside (over n server_addr (λ conn. n.challenge conn signed))
