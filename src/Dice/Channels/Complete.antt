-- ===== src/Dice/Channels/Complete.antt =====
-- Two honest players that roll over channels (dice/roller.go, dice/channel_peer.go).
use ztg.Prelude.{ℕ, ◌+◌, ◌≡◌, refl, List, Result, ok, ap, ◌∙◌}
use ztg.Prelude.Bytes.{bytes_eq_refl}
use ztg.Prelude.Turns.{by_first, by_second, here, next, IsStuck, Turns-Turns}
use ztg.Dice.Roller.{Roller, roll}
use ztg.Dice.Protocol.{Error, roll_sum, calculate_commitment, verify_commitment, encode_rolls}
use ztg.Dice.Protocol.Agreement.{roll_sum_comm}
use ztg.Dice.Process.{roll_process, stop, open_ended}
use ztg.Dice.Channels.{System, new_channel_peers, act, first_step, second_step, Runs}
use ztg.Dice.Channels.Confluent.{diamond}

-- Both players, at the start and at the end.
module _ (sha256 : List ℕ → List ℕ) (r : Roller) (a b rolls : List ℕ) where
  abbrev pub started : System
  started =
      new_channel_peers (roll_process sha256 r open_ended a) (roll_process sha256 r open_ended b)

  abbrev pub finished : System
  finished = new_channel_peers (stop (ok rolls)) (stop (ok rolls))

  finished-IsStuck : IsStuck first_step second_step finished
  unfolding first_step second_step act
  finished-IsStuck = record { first_waits = refl; second_waits = refl }

  module _
      (rolled : ◌≡◌ {A = Result Error (List ℕ)} (roll r (roll_sum sha256 a b)) (ok rolls)) where
    rolled' : ◌≡◌ {A = Result Error (List ℕ)} (roll r (roll_sum sha256 b a)) (ok rolls)
    rolled' = ap (roll r) (roll_sum_comm sha256 b a) ∙ rolled

    -- One run: the players take turns.
    alternating : Runs 12 started finished
    unfolding first_step second_step act roll_process verify_commitment
    alternating = next (by_first refl) (
        next (by_second refl) (
          next (by_first refl) (
            next (by_second refl) (
              next (by_first refl) (
                next (by_second refl) (
                  next (by_first refl) (
                    rw (bytes_eq_refl (calculate_commitment sha256 b), rolled)
                      (next (by_second refl) (
                        rw (bytes_eq_refl (calculate_commitment sha256 a), rolled')
                          (next (by_first refl) (
                            next (by_second refl) (
                              next (by_first refl) (
                                rw (bytes_eq_refl (encode_rolls rolls)) (
                                  next (by_second refl)
                                    (rw (bytes_eq_refl (encode_rolls rolls)) here)))))))))))))))

    -- If the hash of the two secrets has enough rolls, then in whatever order two honest players go
    -- on, they make at most twelve steps, and from every state on the way the steps that are left
    -- of the twelve lead to the end of both with the same rolls: no order of steps blocks.
    pub started-Runs :
        (k : ℕ) (t : System) → Runs k started t → (m : ℕ) × (k + m ≡ 12) × Runs m t finished
    started-Runs k t run_so_far =
        Turns-Turns first_step second_step diamond run_so_far finished-IsStuck alternating
