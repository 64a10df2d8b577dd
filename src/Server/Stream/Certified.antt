-- ===== src/Server/Stream/Certified.antt =====
-- What the games of the service end with (server/factorfight/service.go).
use ztg.Prelude.{
  ℕ, ◌≡◌, ◌≢◌, ◌⊎◌, List, Bool, false, Option, none, some, Result, ok, err, panic, arith, subst,
  Result-cases, succeeded, failed, panicked, In, inl, inr,
}
use ztg.Prelude.Exec.{Exec, ◌>>=◌, >>=-eq-ok, wrapping}
use ztg.Server.IdentityCache.{Identity}
use ztg.Dice.Roller.{new_roller}
use ztg.Factorfight.Moves.{Move}
use ztg.Factorfight.Session.{
  Error as GameError, State, GameLogEntry, Session, start_state, play, play_with_initiative,
  roll_initiative,
}
use ztg.Factorfight.Session.Log.{IsCertified}
use ztg.Factorfight.Session.Certificate.{
  IsHonest, Verdict, Verdict-none, play-IsCertified, play-Verdict, start-IsCertified,
}
use ztg.Factorfight.Strategy.{choose_move-In}
use ztg.Server.Signer.{Signer}
use ztg.Server.Verifier.{Verifier, add_peer_identity}
use ztg.Server.Stream.Peer.{Stream, Peer, create_factorfight_peer}
use ztg.Server.Pair.{create_signer_verifier_pair}
use ztg.Server.GameService.{ChallengeResponse}
use ztg.Server.Stream.Service.{
  Strategy, Service, ServiceError, Connection, resolve_strategy, session_of, new_session, finish,
  play_over, challenge, respond, open_failed, identity_failed,
}

module _ {W : Type 0} (s : Session W) where
  -- A game with a roll for the initiative is a game, or it has not begun.
  play_with_initiative-end :
      (fuel : ℕ) (high : Bool) (w : W)
      → let started = (roll_initiative s high w).1 in
        ((first : Bool) × (play_with_initiative s fuel high w ≡ play s fuel first started))
        ⊎ (((play_with_initiative s fuel high w).1.0 ≡ start_state)
            × ((b : Option Bool) → (play_with_initiative s fuel high w).0 ≢ ok b))
  unfolding play_with_initiative
  play_with_initiative-end fuel high w = elim (Result-cases (roll_initiative s high w).0) [
    | failed e h ↦ inr (ground (arith, h), λ b q. ground (arith, h, q))
    | panicked h ↦ inr (ground (arith, h), λ b q. ground (arith, h, q))
    | succeeded first h ↦ inl (first, ground (arith, h))
  ]

  play_with_initiative-IsCertified :
      (honest : IsHonest s) (fuel : ℕ) (high : Bool) (w : W)
      → IsCertified (play_with_initiative s fuel high w).1.0
  play_with_initiative-IsCertified honest fuel high w =
      elim (play_with_initiative-end fuel high w) [
        | inl (first, e) ↦ rw e (play-IsCertified s honest fuel first _)
        | inr e ↦ rw e.0 start-IsCertified
      ]

  play_with_initiative-Verdict :
      (fuel : ℕ) (high : Bool) (w : W)
      → Verdict
          (play_with_initiative s fuel high w).0
          (play_with_initiative s fuel high w).1.0.board
  play_with_initiative-Verdict fuel high w = elim (play_with_initiative-end fuel high w) [
    | inl (first, e) ↦ rw e (play-Verdict s fuel first _)
    | inr e ↦ Verdict-none _ (play_with_initiative s fuel high w).0 e.1
  ]

-- A strategy that the configuration gives chooses one of the moves that it is given.
abbrev pub PicksMoves : {W : Type 0} → Option (Strategy W) → Type 0
PicksMoves none = Unit {0}
PicksMoves {W} (some strategy) =
    (st : State) (ms : List Move) (w : W) (m : Move) → (strategy st ms w).0 ≡ ok m → In m ms

resolve_strategy-picks :
    {W : Type 0} (o : Option (Strategy W))
    → PicksMoves o
    → (st : State) (ms : List Move) (w : W) (m : Move) → (resolve_strategy o st ms w).0 ≡ ok m
    → In m ms
unfolding resolve_strategy
resolve_strategy-picks none h st ms w m q = choose_move-In ms m q
resolve_strategy-picks (some strategy) h st ms w m q = h st ms w m q

-- What the service tells its configuration of a game that is over: the result and the log.
abbrev pub told : {W : Type 0} → Service W → Bool → List GameLogEntry → W → W
told s win log w = elim s.on_game_complete [ none ↦ w | some f ↦ f win log w ]

-- The world after a game with this result: a log that certifies the board that shows it was told.
pub record IsReported {W : Type 0} (s : Service W) (win : Bool) (w : W) : Type 0 where
  pub final : State
  pub before : W
  pub certified : IsCertified final
  pub verdict : Verdict (ok (some win)) final.board
  pub reported : w ≡ told s win final.game_log before

module _ {W : Type 0} (s : Service W) where
  finish-IsReported :
      (r : Result GameError (Option Bool)) (st : State) (p : Peer) (w : W) (win : Bool)
      → IsCertified st
      → Verdict r st.board
      → (finish s (r, (st, (p, w)))).0 ≡ ok (some win)
      → IsReported s win (finish s (r, (st, (p, w)))).1
  finish-IsReported (ok (some b)) st p w win c v h = record {
    final = st;
    before = w;
    certified = c;
    verdict = subst (λ (x : Bool). Verdict (ok (some x)) st.board) same v;
    reported = rw (← same) (ground arith);
  }
    where
      same : b ≡ win
      same = ground (arith, h)
  finish-IsReported (ok none) st p w win c v h = absurd (ground (arith, h))
  finish-IsReported (err e) st p w win c v h = absurd (ground (arith, h))
  finish-IsReported panic st p w win c v h = absurd (ground (arith, h))

  play_over-IsReported :
      (fuel : ℕ) (high : Bool) (signer : Signer) (verifier : Verifier) (stream : Stream W) (w : W)
      (win : Bool)
      → PicksMoves s.strategy
      → (play_over s fuel high signer verifier stream w).0 ≡ ok (some win)
      → IsReported s win (play_over s fuel high signer verifier stream w).1
  unfolding play_over new_session new_roller
  play_over-IsReported fuel high signer verifier stream w win picks h =
      finish-IsReported (play_with_initiative session fuel high start).0 ended.0 ended.1.0 ended.1.1
        win (play_with_initiative-IsCertified session honest fuel high start)
        (play_with_initiative-Verdict session fuel high start) h
    where
      session : Session (Peer × W)
      session =
          session_of s signer stream (record { sides = 10; roll_value_limit = 65530 })
            (resolve_strategy s.strategy)

      start : Peer × W
      start = (create_factorfight_peer (some verifier), w)

      ended : State × (Peer × W)
      ended = (play_with_initiative session fuel high start).1

      honest : IsHonest session
      honest st ms x m q = resolve_strategy-picks s.strategy picks st ms x.1 m q

  -- The response to a game that is over, and what comes after the report of it.
  respond-IsReported :
      (conn : Connection W) (game : Exec W ServiceError (Option Bool)) (w : W)
      (response : ChallengeResponse)
      → ((win : Bool) → (game w).0 ≡ ok (some win) → IsReported s win (game w).1)
      → ((game >>= respond s conn) w).0 ≡ ok (some response)
      → (win : Bool) × (v : W) × (response ≡ record { win = some win; message = "" })
        × IsReported s win v
        × (((game >>= respond s conn) w).1 ≡ (conn.close_send v).1)
  respond-IsReported conn game w response reports h = elim (Result-cases (game w).0) [
    | failed e a ↦ absurd (ground (arith, a, h))
    | panicked a ↦ absurd (ground (arith, a, h))
    | succeeded none a ↦ absurd (ground (arith, a, h))
    | succeeded (some win) a ↦ elim (Result-cases (conn.close_send (game w).1).0) [
      | failed e b ↦ absurd (ground (arith, a, b, h))
      | panicked b ↦ absurd (ground (arith, a, b, h))
      | succeeded _ b ↦
          (win, (game w).1, ground (arith, a, b, h), reports win a, ground (arith, a, b))
    ]
  ]

  -- For a configured strategy that picks one of the moves it is given, or the default one: a
  -- challenge of the service that responds tells the result of a game whose log, as the
  -- configuration was told it, certifies the board that shows this result, whatever the other server
  -- sent; after this only the stream is closed.
  pub challenge-IsReported :
      (fuel now : ℕ) (conn : Connection W) (w : W) (response : ChallengeResponse)
      → PicksMoves s.strategy
      → (challenge s fuel now conn w).0 ≡ ok (some response)
      → (win : Bool) × (v : W) × (response ≡ record { win = some win; message = "" })
        × IsReported s win v
        × ((challenge s fuel now conn w).1 ≡ (conn.close_send v).1)
  unfolding challenge
  challenge-IsReported fuel now conn w response picks h =
      rw (a.2, b.2)
        (respond-IsReported conn (played a.0 b.0) _ response
          (λ win. play_over-IsReported fuel false pair.0 _ a.0 _ win picks)
          (rw (b.2) at (rw (a.2) at h)))
    where
      opened : Exec W ServiceError (Stream W)
      opened = wrapping open_failed conn.new_stream

      identified : Exec W ServiceError Identity
      identified = wrapping identity_failed conn.get_identity

      pair : Signer × Verifier
      pair = create_signer_verifier_pair s.private_key s.server_addr

      played : Stream W → Identity → Exec W ServiceError (Option Bool)
      played stream i =
          play_over s fuel false pair.0 (add_peer_identity now conn.target i.public_key pair.1)
            stream

      after_identity : Stream W → Identity → Exec W ServiceError (Option ChallengeResponse)
      after_identity stream i = played stream i >>= respond s conn

      a :
          (stream : Stream W) × ((opened w).0 ≡ ok stream)
          × (challenge s fuel now conn w ≡ (identified >>= after_identity stream) (opened w).1)
      a = >>=-eq-ok opened (λ stream. identified >>= after_identity stream) w (some response) h

      b :
          (i : Identity) × ((identified (opened w).1).0 ≡ ok i)
          × ((identified >>= after_identity a.0) (opened w).1
              ≡ after_identity a.0 i (identified (opened w).1).1)
      b = >>=-eq-ok identified (after_identity a.0) (opened w).1 (some response) (rw (← a.2) h)
