-- ===== src/Dice/Message/Truncated.antt =====
-- A message that breaks off (dice/message.go).
use ztg.Prelude.{
  ℕ, zero, suc, ◌<◌, ◌≡◌, refl, true, List, [], ◌∷◌, arith, err, if◌then◌else◌, ltb, length, take,
  length-take,
}
use ztg.Dice.Message.{Message, eof, unexpected_eof, read_rest, read_message, bytes, is_msg_type}

read_rest-short : (n : ℕ) (xs : List ℕ) → length xs < n → read_rest n xs ≡ err unexpected_eof
read_rest-short zero xs h = absurd (omega arith)
read_rest-short (suc n) [] h = refl
read_rest-short (suc n) (x ∷ xs) h = rw (read_rest-short n xs (omega arith))

-- Of a message of a known type with 32 bytes of data, the first `n` bytes, fewer than 33, are no
-- message: the reader reports an end of input before the data, and an unexpected end within them.
pub read_message-take :
    (m : Message) (n : ℕ)
    → is_msg_type m.type ≡ true
    → length m.data' ≡ 32
    → n < 33
    → read_message (take n (bytes m)) ≡ err (if ltb n 2 then eof else unexpected_eof)
unfolding read_message bytes
read_message-take m zero h k l = refl
read_message-take m (suc n) h k l = go n m.data' k l
  where
    go :
        (n : ℕ) (xs : List ℕ)
        → length xs ≡ 32
        → suc n < 33
        → read_message (m.type ∷ take n xs) ≡ err (if ltb (suc n) 2 then eof else unexpected_eof)
    go zero xs e l = rw h
    go (suc n) [] e l = absurd (omega arith)
    go (suc n) (x ∷ xs) e l =
        rw (h, read_rest-short 31 (take n xs) (rw (length-take n xs) (ground arith))) (ground arith)
