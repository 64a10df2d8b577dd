-- ===== src/Startup/Example/Notified.antt =====
-- What the owner of the example learns of a game (example/server/main.go,
-- server/factorfight/service.go).
use ztg.Prelude.{ℕ, ◌≡◌, refl, Bool, Option, some, ok}
use ztg.Factorfight.Session.{State}
use ztg.Factorfight.Session.Log.{IsCertified}
use ztg.Factorfight.Session.Certificate.{Verdict}
use ztg.Factorfight.Strategy.{choose_move-In}
use ztg.Server.GameService.{ChallengeResponse}
use ztg.Server.Stream.Service.{Service, Connection, challenge}
use ztg.Server.Stream.Certified.{PicksMoves, challenge-IsReported, told}
use ztg.Startup.Example.{NotifyClient, Surroundings, on_game_complete, factor_fight_config}

module _ {W : Type 0} (u : Surroundings W) (client : Option NotifyClient) (s : Service W)
    (strategy : s.strategy ≡ (factor_fight_config u client).strategy)
    (complete : s.on_game_complete ≡ (factor_fight_config u client).on_game_complete) where
  picks : PicksMoves s.strategy
  picks = rw strategy (λ st ms w m q. choose_move-In ms m q)

  told-on_game_complete :
      (win : Bool) (final : State) (w : W)
      → told s win final.game_log w ≡ on_game_complete u client win final.game_log w
  told-on_game_complete win final w = rw complete refl

  -- A challenge of the example's service that responds tells the result of a game whose log certifies
  -- the board that shows it. The owner was told this result with this log, and then the stream was
  -- closed; a message that could not be sent changes nothing of the response.
  challenge-notifies :
      (fuel now : ℕ) (conn : Connection W) (w : W) (response : ChallengeResponse)
      → (challenge s fuel now conn w).0 ≡ ok (some response)
      → (win : Bool) × (final : State) × (before : W) × (response
          ≡ record { win = some win; message = "" })
        × IsCertified final
        × Verdict (ok (some win)) final.board
        × ((challenge s fuel now conn w).1
            ≡ (conn.close_send (on_game_complete u client win final.game_log before)).1)
  challenge-notifies fuel now conn w response h =
      let (win, v, same, told_of, closed) =
        challenge-IsReported s fuel now conn w response picks h in
      (
        win,
        told_of.final,
        told_of.before,
        same,
        told_of.certified,
        told_of.verdict,
        rw (← told-on_game_complete win told_of.final told_of.before)
            (rw (← told_of.reported) closed),
      )
