-- ===== src/Dice/Pipes/Complete.antt =====
-- Two honest players that roll over pipes (dice/roller.go, dice/pipe_peer.go).
use ztg.Prelude.{
  err, if◌then◌else◌, subst, ℕ, ◌+◌, ◌≡◌, refl, List, Result, ok, ap, ◌∙◌, String, length, arith,
}
use ztg.Prelude.Bytes.{bytes_eq, bytes_eq_refl}
use ztg.Prelude.Turns.{IsStuck, Turns-append, Turns-Turns}
use ztg.Dice.Message.{commitment, secret, roll_confirmation, Message, ReadError, is_msg_type}
use ztg.Dice.Roller.{Roller, roll}
use ztg.Dice.Protocol.{
  expect, unexpected_confirmation, send_confirmation_failed, receive_confirmation_failed,
  confirm_failed, msg, Error, roll_sum, calculate_commitment, verify_commitment, encode_rolls,
}
use ztg.Dice.Protocol.Agreement.{roll_sum_comm}
use ztg.Dice.Process.{after, confirm_process, Process, roll_process, stop, open_ended}
use ztg.Dice.Pipes.{System, new_pipe_peers, act, first_step, second_step, Runs}
use ztg.Dice.Pipes.Wire.{IsWire, length-encode_rolls, exchange_round}
use ztg.Dice.Pipes.Confluent.{diamond}

module _ (describe : ReadError → String) where
  -- Both players, at the start and at the end.
  module _ (sha256 : List ℕ → List ℕ) (r : Roller) (a b rolls : List ℕ) where
    abbrev pub started : System
    started =
        new_pipe_peers (roll_process sha256 r open_ended a) (roll_process sha256 r open_ended b)

    abbrev pub finished : System
    finished = new_pipe_peers (stop (ok rolls)) (stop (ok rolls))

    finished-IsStuck : IsStuck (first_step describe) (second_step describe) finished
    unfolding first_step second_step act
    finished-IsStuck = record { first_waits = refl; second_waits = refl }

    module _ (rolled : ◌≡◌ {A = Result Error (List ℕ)} (roll r (roll_sum sha256 a b)) (ok rolls))
        (digest : (bs : List ℕ) → length (sha256 bs) ≡ 32) (sized : length a ≡ 32)
        (sized' : length b ≡ 32) where
      rolled' : ◌≡◌ {A = Result Error (List ℕ)} (roll r (roll_sum sha256 b a)) (ok rolls)
      rolled' = ap (roll r) (roll_sum_comm sha256 b a) ∙ rolled

      eight : length rolls ≡ 8
      unfolding roll
      eight = ground (arith, rolled)

      commitment-IsWire : (s : List ℕ) → IsWire (msg commitment (calculate_commitment sha256 s))
      unfolding is_msg_type calculate_commitment
      commitment-IsWire s = record { known = refl; sized = digest _ }

      secret-IsWire : (s : List ℕ) → length s ≡ 32 → IsWire (msg secret s)
      unfolding is_msg_type
      secret-IsWire s h = record { known = refl; sized = h }

      confirmation-IsWire : IsWire (msg roll_confirmation (encode_rolls rolls))
      unfolding is_msg_type
      confirmation-IsWire = record { known = refl; sized = length-encode_rolls rolls eight }

      -- What each side makes of the other's confirmation.
      abbrev compared : Message → Process
      compared m = after (expect roll_confirmation unexpected_confirmation m) λ _.
          if bytes_eq (encode_rolls rolls) m.data'
          then stop (ok rolls)
          else stop (err confirm_failed)

      compared_own : compared (msg roll_confirmation (encode_rolls rolls)) ≡ stop (ok rolls)
      compared_own = rw (bytes_eq_refl (encode_rolls rolls)) refl

      confirm_round :
          Runs describe 6 (new_pipe_peers (confirm_process rolls) (confirm_process rolls)) finished
      confirm_round =
          let confirmation = msg roll_confirmation (encode_rolls rolls) in
          let round =
            exchange_round describe send_confirmation_failed receive_confirmation_failed
              send_confirmation_failed receive_confirmation_failed compared compared confirmation
              confirmation confirmation-IsWire confirmation-IsWire in
          subst
            (λ p.
              Runs describe 6 (new_pipe_peers (confirm_process rolls) (confirm_process rolls))
                (new_pipe_peers p p))
            compared_own round

      round_by_round : Runs describe 18 started finished
      unfolding roll_process verify_commitment
      round_by_round =
          Turns-append (first_step describe) (second_step describe) {k = 6} {n = 12}
            (exchange_round describe _ _ _ _ _ _ _ _ (commitment-IsWire a) (commitment-IsWire b))
            (Turns-append (first_step describe) (second_step describe) {k = 6} {n = 6}
              (exchange_round describe _ _ _ _ _ _ _ _ (secret-IsWire a sized)
                (secret-IsWire b sized'))
              (rw
                (
                  bytes_eq_refl (calculate_commitment sha256 b),
                  rolled,
                  bytes_eq_refl (calculate_commitment sha256 a),
                  rolled',
                )
                confirm_round))

      -- If the hash of the two secrets has enough rolls, hashes and secrets have 32 bytes, then two
      -- honest players over pipes make at most eighteen steps (a send, or one read of a pipe), in
      -- whatever order, and from every state on the way the steps that are left of the eighteen lead
      -- to the end of both with the same rolls: no order of the reads and writes blocks.
      pub started-Runs-finished :
          (k : ℕ) (t : System)
          → Runs describe k started t
          → (m : ℕ) × (k + m ≡ 18) × Runs describe m t finished
      started-Runs-finished k t run_so_far =
          Turns-Turns (first_step describe) (second_step describe) (diamond describe) run_so_far
            finished-IsStuck round_by_round
