-- ===== src/Cmd/Line.antt =====
-- The command line of the owner (cmd/ztg/main.go, and what reads the flags in cmd/trust/trust.go, cmd/challenge/challenge.go, cmd/identity/identity.go and cmd/key/key.go). The
-- package that reads a command line by these tables is a parameter.
pub mod Declared
use ztg.Prelude.{
  ℕ, List, [], ◌∷◌, Bool, true, false, Option, none, some, String, Result, ok, err, panic,
}
use ztg.Prelude.Bytes.{codes}
use ztg.Prelude.Int.{ℤ, pos, ◌*ℤ◌}
use ztg.Prelude.Int64.{wrap64}
use ztg.Prelude.Exec.{Exec, ◌>>=◌, ◌>>◌, pure, wrapping, outside, inside}
use ztg.Identity.Keys.{KeyLibrary, Cache}
use ztg.Server.Signer.{Signing}
use ztg.Server.GameService.{ChallengeRequest, ChallengeResponse}
use ztg.Cmd.{
  Network, CommandError, SetTrustRequest, SignedChallengeRequest, create_trust_request,
  create_challenge, send_trust_request, send_challenge,
}
use ztg.Cmd.Flags.{
  Flag, Parsed, trust_create_flags, trust_send_flags, challenge_create_flags, challenge_send_flags,
  identity_add_flags, identity_list_flags, key_generate_flags,
}
use ztg.Cmd.Identities.{Decoders, Listed, add_identity, list_identities}
use ztg.Cmd.Generate.{KeyWriter, GenerateError, generate_key_pair}

pub data Output : Type 0 where
  done : Output
  trust_created : SetTrustRequest → Output
  challenge_created : SignedChallengeRequest → Output
  challenge_answered : ChallengeResponse → Output
  identities_listed : List Listed → Output

pub data ActionError : Type 0 where
  command_failed : CommandError → ActionError
  generate_failed : GenerateError → ActionError

-- What the commands call. A network is one whose requests have a deadline, in nanoseconds.
pub record Tools (C W : Type 0) : Type 0 where
  pub keys : KeyLibrary
  pub signing : Signing
  pub marshal : ChallengeRequest → Result String (List ℕ)
  pub decoders : Decoders
  pub now : ℕ
  pub network : ℤ → Network C W
  pub writer : KeyWriter W

-- `time.Duration(cmd.Int("timeout")) * time.Second`
unfoldable pub timeout : Parsed → ℤ
timeout p = wrap64 (p.int "timeout" *ℤ pos 1000000000)

module _ {C W : Type 0} (t : Tools C W) (p : Parsed) where
  unfoldable pub trust_send : Exec (Cache × W) ActionError Output
  trust_send = do
    wrapping command_failed (
        send_trust_request t.keys t.signing (t.network (timeout p)) (p.string "server")
          (p.string "peer") (p.bool "trusted") (p.string "key-path"))
    pure done

  unfoldable pub trust_create : Exec (Cache × W) ActionError Output
  trust_create = do
    req ← inside (
        wrapping command_failed (
          create_trust_request t.keys t.signing (p.bool "trusted") (p.string "peer")
            (p.string "server") (p.string "key-path")))
    pure (trust_created req)

  unfoldable pub challenge_send : Exec (Cache × W) ActionError Output
  challenge_send = do
    resp ← wrapping command_failed (
        send_challenge t.keys t.signing (t.network (timeout p)) t.marshal (p.string "target")
          (p.string "game") (p.string "server") (p.string "key-path"))
    pure (challenge_answered resp)

  unfoldable pub challenge_create : Exec (Cache × W) ActionError Output
  challenge_create = do
    req ← inside (
        wrapping command_failed (
          create_challenge t.keys t.signing t.marshal (p.string "target") (p.string "game")
            (p.string "server") (p.string "key-path")))
    pure (challenge_created req)

  unfoldable pub identity_add : Exec (Cache × W) ActionError Output
  identity_add = do
    outside (
        wrapping command_failed (
          add_identity (t.network (timeout p)) t.decoders t.now (p.string "server")
            (p.string "peer") (p.string "peer-name") (p.string "owner-name")
            (codes (p.string "public-key"))))
    pure done

  unfoldable pub identity_list : Exec (Cache × W) ActionError Output
  identity_list = do
    lines ←
        outside
          (wrapping command_failed (list_identities (t.network (timeout p)) (p.string "server")))
    pure (identities_listed lines)

  unfoldable pub key_generate : Exec (Cache × W) ActionError Output
  key_generate = do
    outside (wrapping generate_failed (generate_key_pair t.writer (p.string "output")))
    pure done

pub data Action : Type 0 where
  sends_trust creates_trust sends_challenge creates_challenge : Action
  adds_identity lists_identities generates_key : Action

unfoldable pub action :
    {C W : Type 0} → Action → Tools C W → Parsed → Exec (Cache × W) ActionError Output
action sends_trust = trust_send
action creates_trust = trust_create
action sends_challenge = challenge_send
action creates_challenge = challenge_create
action adds_identity = identity_add
action lists_identities = identity_list
action generates_key = key_generate

-- `cli.Command`, of a group and of a command in it.
pub record Command : Type 0 where
  pub name : String
  pub flags : List Flag
  pub action : Action

pub record Group : Type 0 where
  pub name : String
  pub commands : List Command

abbrev pub key_group : Group
key_group = record {
  name = "key";
  commands = record { name = "generate"; flags = key_generate_flags; action = generates_key } ∷ [];
}

abbrev pub challenge_group : Group
challenge_group = record {
  name = "challenge";
  commands =
      record { name = "send"; flags = challenge_send_flags; action = sends_challenge }
      ∷ record { name = "create"; flags = challenge_create_flags; action = creates_challenge }
      ∷ [];
}

abbrev pub trust_group : Group
trust_group = record {
  name = "trust";
  commands =
      record { name = "send"; flags = trust_send_flags; action = sends_trust }
      ∷ record { name = "create"; flags = trust_create_flags; action = creates_trust }
      ∷ [];
}

abbrev pub identity_group : Group
identity_group = record {
  name = "identity";
  commands =
      record { name = "add"; flags = identity_add_flags; action = adds_identity }
      ∷ record { name = "list"; flags = identity_list_flags; action = lists_identities }
      ∷ [];
}

abbrev pub root : List Group
root = key_group ∷ challenge_group ∷ trust_group ∷ identity_group ∷ []

-- `Run` of the package, up to the action: an error, a help text that was asked for, or a command with
-- its flags.
pub record CommandLine : Type 0 where
  pub route : List Group → List String → Result String (Option (Action × Parsed))

-- An error ends the program with 1, a panic with 2.
abbrev pub exit_code : {E A S : Type 0} → Result E A × S → ℕ × S
exit_code (ok _, s) = (0, s)
exit_code (err _, s) = (1, s)
exit_code (panic, s) = (2, s)

unfoldable pub main :
    {C W : Type 0} → CommandLine → Tools C W → List String → Cache × W → ℕ × (Cache × W)
main cli t args s = elim (cli.route root args) [
  | ok o ↦ elim o [ none ↦ (0, s) | some r ↦ exit_code (action r.0 t r.1 s) ]
  | err _ ↦ (1, s)
  | panic ↦ (2, s)
]
