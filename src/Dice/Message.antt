-- ===== src/Dice/Message.antt =====
-- The messages of the dice protocol and their wire format (dice/message.go).
pub mod Truncated
use ztg.Prelude.{
  ℕ, zero, suc, ◌≡◌, refl, Bool, true, ◌||◌, List, [], ◌∷◌, ◌++◌, arith, Result, ok, err, ◌>>=◌,
  if◌then◌else◌, ◌==◌, length, String,
}

-- A `uint8`.
abbrev pub MsgType : Type 0
MsgType = ℕ

abbrev pub unkown : MsgType
unkown = 0

abbrev pub commitment : MsgType
commitment = 1

abbrev pub secret : MsgType
secret = 2

abbrev pub roll_confirmation : MsgType
roll_confirmation = 3

unfoldable pub string : MsgType → String
string m =
    if m == commitment
    then "Commitment"
    else if m == roll_confirmation
    then "RollConfirmation"
    else if m == secret
    then "Secret"
    else "Unknown"

unfoldable pub is_msg_type : MsgType → Bool
is_msg_type m = m == commitment || m == secret || m == roll_confirmation

-- The data are an array of 32 bytes.
pub record Message : Type 0 where
  pub type : MsgType
  pub data' : List ℕ

pub data ReadError : Type 0 where
  eof unexpected_eof : ReadError
  unknown_message_type : ℕ → ReadError

-- `io.ReadFull` of `n` bytes: an end in the middle is another error than one at the start.
abbrev pub read_rest : ℕ → List ℕ → Result ReadError (List ℕ × List ℕ)
read_rest zero bs = ok ([], bs)
read_rest (suc n) [] = err unexpected_eof
read_rest (suc n) (b ∷ bs) = do (read, rest) ← read_rest n bs; ok (b ∷ read, rest)

abbrev pub read_full : ℕ → List ℕ → Result ReadError (List ℕ × List ℕ)
read_full (suc n) [] = err eof
read_full n bs = read_rest n bs

-- The reader is the list of the bytes that are left in it.
unfoldable pub read_message : List ℕ → Result ReadError (Message × List ℕ)
unfolding is_msg_type
read_message [] = err eof
read_message (t ∷ bs) =
    if is_msg_type t
    then (do (read, rest) ← read_full 32 bs; ok (record { type = t; data' = read }, rest))
    else err (unknown_message_type t)

unfoldable pub bytes : Message → List ℕ
bytes m = m.type ∷ m.data'

read_rest-append :
    (n : ℕ) (xs rest : List ℕ) → length xs ≡ n → read_rest n (xs ++ rest) ≡ ok (xs, rest)
read_rest-append zero [] rest h = refl
read_rest-append zero (x ∷ xs) rest h = absurd (omega arith)
read_rest-append (suc n) [] rest h = absurd (omega arith)
read_rest-append (suc n) (x ∷ xs) rest h = rw (read_rest-append n xs rest (omega arith))

read_full-append :
    (n : ℕ) (xs rest : List ℕ) → length xs ≡ n → read_full n (xs ++ rest) ≡ ok (xs, rest)
read_full-append zero xs rest h = read_rest-append zero xs rest h
read_full-append (suc n) [] rest h = absurd (omega arith)
read_full-append (suc n) (x ∷ xs) rest h = read_rest-append (suc n) (x ∷ xs) rest h

-- A message of a known type is read back from its bytes, and what follows them is left.
pub read_message-bytes :
    (m : Message) (rest : List ℕ)
    → is_msg_type m.type ≡ true
    → length m.data' ≡ 32
    → read_message (bytes m ++ rest) ≡ ok (m, rest)
unfolding read_message bytes
read_message-bytes m rest h k = rw (h, read_full-append 32 m.data' rest k)
