-- ===== src/Server/GameService.antt =====
-- The registry of games and the request for a challenge (server/registry.go,
-- server/game_service.go). A game, a connection and the serialization are parameters; dialling and
-- the game act on a world `W`.
pub mod Permitted
mod Tests
use ztg.Prelude.{
  ℕ, List, [], Option, none, some, String, Result, ok, err, map, if◌then◌else◌, ◌==◌, length, true,
  false, Bool,
}
use ztg.Prelude.Dict.{Dict, lookup, insert}
use ztg.Prelude.Exec.{Exec, ◌>>=◌, ◌>>◌, lift, wrapping}
use ztg.Server.Verifier.{
  Signature, Crypto, Outside, Clock, Verifier, new_verifier, add_peer_identity,
}
use ztg.Server.Verifier.Proto.{ProtoError, verify_signature_proto}

pub record Registry (G : Type 0) : Type 0 where
  pub games : Dict G

unfoldable pub new_registry : {G : Type 0} → Registry G
new_registry = record { games = [] }

-- The first argument is the game's own `ID()`.
unfoldable pub register_game : {G : Type 0} → String → G → Registry G → Registry G
register_game id g r = record r { games = insert id g r.games }

unfoldable pub challenge_of : {G : Type 0} → String → Registry G → Option G
challenge_of id r = lookup id r.games

-- The order of a Go map is not fixed; here it is that of the list.
unfoldable pub game_ids : {G : Type 0} → Registry G → List String
game_ids {G} r = map (λ (e : String × G). e.0) r.games

pub record ChallengeRequest : Type 0 where
  pub game_id : String
  pub target : String

-- What the game of a challenge answers.
pub record ChallengeResponse : Type 0 where
  pub win : Option Bool
  pub message : String

pub data ChallengeError : Type 0 where
  signature_required unknown_game : ChallengeError
  permission_denied : ProtoError → ChallengeError
  connection_failed game_failed : String → ChallengeError

-- What the service holds and calls.
pub record GameService (W G C R : Type 0) : Type 0 where
  pub outside : Outside W
  pub crypto : Crypto
  pub owner_public_key : List ℕ
  pub registry : Registry G
  pub marshal : ChallengeRequest → Result String (List ℕ)
  pub new_client : String → Exec W String C
  pub play_challenge : G → C → Exec W String R

module _ {W G C R : Type 0} (s : GameService W G C R) (now : ℕ) (t : Clock) where
  abbrev pub owner_verifier : Verifier
  owner_verifier = add_peer_identity now "owner" s.owner_public_key (new_verifier 0)

  abbrev pub require_signature : Option Signature → Result ChallengeError (Unit {0})
  require_signature none = err signature_required
  require_signature (some signature) =
      if length signature.signature == 0 then err signature_required else ok tt

  -- The verifier is new, and it is dropped after the check.
  abbrev pub check_signature : ChallengeRequest → Option Signature → Exec W ProtoError (Unit {0})
  check_signature req signature w =
      let (r, x) =
        verify_signature_proto s.outside s.crypto s.marshal t req signature
          (some owner_verifier, w) in
      (r, x.1)

  abbrev pub require_game : Option G → Result ChallengeError G
  require_game none = err unknown_game
  require_game (some g) = ok g

  unfoldable pub challenge : ChallengeRequest → Option Signature → Exec W ChallengeError R
  challenge req signature = do
    lift (require_signature signature)
    wrapping permission_denied (check_signature req signature)
    conn ← wrapping connection_failed (s.new_client req.target)
    g ← lift (require_game (challenge_of req.game_id s.registry))
    wrapping game_failed (s.play_challenge g conn)
