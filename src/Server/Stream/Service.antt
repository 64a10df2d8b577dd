-- ===== src/Server/Stream/Service.antt =====
-- The service of the game (server/factorfight/service.go): a game that another server starts and a
-- game against another server, each over a stream, with the session (factorfight/game.go) that they
-- make. The connection, the printing of numbers and errors, the randomness and the clock are
-- parameters. A game runs on fuel: no response at all is a game that is still going on.
mod Tests
use ztg.Prelude.{
  ℕ, List, Bool, true, false, Option, none, some, String, Result, ok, err, panic, wrap_err,
}
use ztg.Prelude.Int.{ℤ}
use ztg.Prelude.Exec.{Exec, ◌>>=◌, ◌>>◌, pure, lift, wrapping}
use ztg.Dice.Roller.{Roller, RollerError, new_roller}
use ztg.Dice.Protocol.{Error}
use ztg.Dice.Process.{Endpoint, Host, on_peer, roll_sync_over}
use ztg.Factorfight.Moves.{Move}
use ztg.Factorfight.Session.{Error as GameError, State, GameLogEntry, Session, play_with_initiative}
use ztg.Factorfight.Strategy.{choose_move}
use ztg.Server.IdentityCache.{Identity}
use ztg.Server.Signer.{Signer, Signing}
use ztg.Server.Verifier.{Crypto, Outside, Verifier, Clock, add_peer_identity}
use ztg.Server.Stream.Peer.{
  FactorFightMessage, Stream, Peer, PeerError, create_factorfight_peer, send_move, recv_move, send,
  recv,
}
use ztg.Server.Pair.{create_signer_verifier_pair}
use ztg.Server.GameService.{ChallengeResponse}

-- The interface `Strategy`, over the state of the world.
abbrev pub Strategy : Type 0 → Type 0
Strategy W = State → List Move → Exec W ⊥ Move

-- The fields `strategy` and `on_game_complete` are those of `Config`, and may be nil.
pub record Service (W : Type 0) : Type 0 where
  pub strategy : Option (Strategy W)
  pub on_game_complete : Option (Bool → List GameLogEntry → W → W)
  pub private_key : List ℕ
  pub server_addr : String
  pub outside_of : Outside W
  pub crypto : Crypto
  pub signing : Signing
  pub marshal : Option FactorFightMessage → Result String (List ℕ)
  pub clock : W → Clock
  pub host : Host W
  pub itoa : ℤ → String
  pub peer_text : PeerError → String
  pub roll_text : Error → String

-- A connection to another server, with the calls that a challenge makes over it.
pub record Connection (W : Type 0) : Type 0 where
  pub target : String
  pub new_stream : Exec W String (Stream W)
  pub get_identity : Exec W String Identity
  pub close_send : Exec W String (Unit {0})

pub data ServiceError : Type 0 where
  open_failed identity_failed close_failed : String → ServiceError
  roller_failed : RollerError → ServiceError
  game_failed : GameError → ServiceError

abbrev pub default_strategy : {W : Type 0} → Strategy W
default_strategy _ ms w = (choose_move ms, w)

unfoldable pub resolve_strategy : {W : Type 0} → Option (Strategy W) → Strategy W
resolve_strategy none = default_strategy
resolve_strategy (some strategy) = strategy

module _ {W : Type 0} (s : Service W) (signer : Signer) (stream : Stream W) where
  -- The peer as the one that a roller talks to.
  abbrev pub dice : Endpoint (Peer × W)
  dice = record {
    send = λ m. wrapping s.peer_text (send stream s.signing signer s.marshal m);
    recv = λ (x : Peer × W).
        wrapping s.peer_text (recv stream s.outside_of s.crypto s.marshal (s.clock x.1)) x;
  }

  abbrev pub session_of : Roller → Strategy W → Session (Peer × W)
  session_of roller strategy = record {
    roll_sync = λ n. wrapping s.roll_text (roll_sync_over (on_peer s.host) roller dice n);
    recv_move = λ (x : Peer × W).
        wrapping s.peer_text (recv_move stream s.outside_of s.crypto s.marshal (s.clock x.1)) x;
    send_move = λ m. wrapping s.peer_text (send_move stream s.signing signer s.marshal s.itoa m);
    choose_move = λ st ms (x : Peer × W). (let (r, w) = strategy st ms x.1 in (r, (x.0, w)));
  }

  unfoldable pub new_session : Strategy W → Result RollerError (Session (Peer × W))
  unfolding new_roller
  new_session strategy = elim (new_roller 10) [
    | ok roller ↦ ok (session_of roller strategy)
    | err e ↦ err e
    | panic ↦ panic
  ]

module _ {W : Type 0} (s : Service W) where
  -- The game log is that of the state at the end.
  abbrev pub finish :
      Result GameError (Option Bool) × (State × (Peer × W)) → Result ServiceError (Option Bool) × W
  finish (ok (some win), (st, (p, w))) = elim s.on_game_complete [
    | none ↦ (ok (some win), w)
    | some f ↦ (ok (some win), f win st.game_log w)
  ]
  finish (ok none, (st, (p, w))) = (ok none, w)
  finish (err e, (st, (p, w))) = (err (game_failed e), w)
  finish (panic, (st, (p, w))) = (panic, w)

  -- What both services do with their stream.
  unfoldable pub play_over :
      ℕ → Bool → Signer → Verifier → Stream W → Exec W ServiceError (Option Bool)
  unfolding resolve_strategy create_factorfight_peer
  play_over fuel high signer verifier stream w =
      elim (new_session s signer stream (resolve_strategy s.strategy)) [
        | err e ↦ (err (roller_failed e), w)
        | panic ↦ (panic, w)
        | ok session ↦
            finish
              (play_with_initiative session fuel high (create_factorfight_peer (some verifier), w))
      ]

  -- The service that answers another server.
  unfoldable pub play : ℕ → Stream W → Exec W ServiceError (Option (Unit {0}))
  unfolding create_signer_verifier_pair
  play fuel stream =
      let (signer, verifier) = create_signer_verifier_pair s.private_key s.server_addr in
      play_over fuel true signer verifier stream >>= λ result.
      pure (elim result [ none ↦ none | some _ ↦ some tt ])

  -- The response of a game that is over; where the stream does not close, the caller gets the error
  -- beside it.
  abbrev pub respond : Connection W → Option Bool → Exec W ServiceError (Option ChallengeResponse)
  respond conn none = pure none
  respond conn (some win) = do
    wrapping close_failed conn.close_send
    pure (some (record { win = some win; message = "" }))

  -- `now` is the time at which the peer's key is cached.
  unfoldable pub challenge : ℕ → ℕ → Connection W → Exec W ServiceError (Option ChallengeResponse)
  challenge fuel now conn = do
    stream ← wrapping open_failed conn.new_stream
    identity ← wrapping identity_failed conn.get_identity
    let pair = create_signer_verifier_pair s.private_key s.server_addr
    result ←
        play_over fuel false pair.0 (add_peer_identity now conn.target identity.public_key pair.1)
          stream
    respond conn result
