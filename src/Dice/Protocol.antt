-- ===== src/Dice/Protocol.antt =====
-- The commit and reveal protocol of a roll (dice/roller.go). A peer may answer by the whole history
-- of the messages, so that every way to cheat is one; hashing is a parameter.
pub mod Outcome
pub mod Agreement
pub mod Secrecy
use ztg.Prelude.{
  ℕ, zero, suc, ◌+◌, ◌-◌, ◌*◌, ◌/◌, ◌%◌, ◌≡◌, Bool, true, false, ◌||◌, List, [], ◌∷◌, ◌++◌, Option,
  none, some, String, Result, ok, err, panic, if◌then◌else◌, ◌==◌, ltb, length, take, flat_map,
  replicate, wrap_err,
}
use ztg.Prelude.Bytes.{codes, bytes_eq, bytes_gt}
use ztg.Prelude.Exec.{Exec, ◌>>=◌, ◌>>◌, pure, lift, wrapping}
use ztg.Dice.Message.{Message, MsgType, commitment, secret, roll_confirmation}
use ztg.Dice.Roller.{Roller, roll}

abbrev pub commit_label : List ℕ
commit_label = codes "dice-commit-v1|"

abbrev pub roll_label : List ℕ
roll_label = codes "dice-roll-v1|"

pub data Event : Type 0 where
  sent received : Message → Event

-- The newest event comes first.
abbrev pub Trace : Type 0
Trace = List Event

-- `some e` is an error of `Send`.
pub record Peer : Type 0 where
  pub send : Trace → Message → Option String
  pub recv : Trace → Result String Message

pub data Error : Type 0 where
  send_commitment_failed receive_commitment_failed send_secret_failed receive_secret_failed :
      String → Error
  send_confirmation_failed receive_confirmation_failed context_done : String → Error
  unexpected_commitment unexpected_secret unexpected_confirmation : MsgType → Error
  verify_failed confirm_failed bad_count : Error
  unexpected_size : ℕ → Error

-- Whether the context is done, and why, where the exchange hands over the secret and where it
-- hands over the commitment.
pub record Context : Type 0 where
  pub at_secret : Option String
  pub at_commit : Option String

abbrev pub not_done : Option String → Result Error (Unit {0})
not_done none = ok tt
not_done (some e) = err (context_done e)

abbrev pub expect : MsgType → (MsgType → Error) → Message → Result Error (Unit {0})
expect t e m = if m.type == t then ok tt else err (e m.type)

abbrev pub msg : MsgType → List ℕ → Message
msg t bs = record { type = t; data' = bs }

abbrev pub after_send :
    (String → Error) → Message → Trace → Option String → Result Error (Unit {0}) × Trace
after_send w m tr none = (ok tt, sent m ∷ tr)
after_send w m tr (some e) = (err (w e), tr)

abbrev pub after_recv :
    (String → Error) → Trace → Result String Message → Result Error Message × Trace
after_recv w tr (ok m) = (ok m, received m ∷ tr)
after_recv w tr (err e) = (err (w e), tr)
after_recv w tr panic = (panic, tr)

-- Each roll as two bytes in an array of 32.
unfoldable pub encode_rolls : List ℕ → List ℕ
encode_rolls rolls =
    flat_map (λ r. (r / 256 % 256) ∷ (r % 256) ∷ []) rolls ++ replicate (32 - 2 * length rolls) 0

-- What `Get` makes of the result that the goroutine pushed.
abbrev pub get : ℕ → List ℕ → Result Error (List ℕ)
get n rolls =
    if ltb (length rolls) n then err (unexpected_size (length rolls)) else ok (take n rolls)

module _ (sha256 : List ℕ → List ℕ) where
  unfoldable pub calculate_commitment : List ℕ → List ℕ
  calculate_commitment s = sha256 (commit_label ++ s)

  unfoldable pub verify_commitment : List ℕ → List ℕ → Result Error (Unit {0})
  verify_commitment s expected =
      if bytes_eq (calculate_commitment s) expected then ok tt else err verify_failed

  -- The hash of the two secrets, the smaller first.
  unfoldable pub roll_sum : List ℕ → List ℕ → List ℕ
  roll_sum own peer =
      sha256 (roll_label ++ (if bytes_gt own peer then peer ++ own else own ++ peer))

  module _ (p : Peer) where
    abbrev pub send_to : (String → Error) → Message → Exec Trace Error (Unit {0})
    send_to w m tr = after_send w m tr (p.send tr m)

    abbrev pub recv_from : (String → Error) → Exec Trace Error Message
    recv_from w tr = after_recv w tr (p.recv tr)

    -- `startExchange` with the function that it returns.
    unfoldable pub exchange : Context → List ℕ → Exec Trace Error (List ℕ)
    exchange ctx s = do
      send_to send_commitment_failed (msg commitment (calculate_commitment s))
      commitment_msg ← recv_from receive_commitment_failed
      lift (expect commitment unexpected_commitment commitment_msg)
      send_to send_secret_failed (msg secret s)
      secret_msg ← recv_from receive_secret_failed
      lift (expect secret unexpected_secret secret_msg)
      lift (not_done ctx.at_secret)
      lift (not_done ctx.at_commit)
      lift (verify_commitment secret_msg.data' commitment_msg.data')
      pure secret_msg.data'

    unfoldable pub confirm_roll : List ℕ → Exec Trace Error (Unit {0})
    confirm_roll rolls = do
      send_to send_confirmation_failed (msg roll_confirmation (encode_rolls rolls))
      m ← recv_from receive_confirmation_failed
      lift (expect roll_confirmation unexpected_confirmation m)
      lift (if bytes_eq (encode_rolls rolls) m.data' then ok tt else err confirm_failed)

    -- The goroutine of `Roll`.
    unfoldable pub roll_with : Roller → Context → List ℕ → Exec Trace Error (List ℕ)
    roll_with r ctx s = do
      peer_secret ← exchange ctx s
      rolls ← lift (roll r (roll_sum s peer_secret))
      confirm_roll rolls
      pure rolls

    -- The roll is started before the number of dice is checked.
    unfoldable pub roll_sync : Roller → Context → List ℕ → ℕ → Exec Trace Error (List ℕ)
    roll_sync r ctx s n tr =
        let (result, tr') = roll_with r ctx s tr in
        if n == 0 || ltb 8 n
        then (err bad_count, tr')
        else (lift result >>= λ rolls. lift (get n rolls)) tr'
