-- ===== src/Dice/Handover.antt =====
-- How a roll is handed over (`Roll` and `Get` of dice/roller.go): the goroutine pushes the rolls and
-- then the error to two channels without a place, and each call of `Get` receives from both, in the
-- order in which they are ready, unless its number of dice is refused before. Here two calls of `Get`
-- run on one roll.
pub mod Once
mod Tests
use ztg.Prelude.{
  ℕ, ◌≡◌, List, [], Bool, ◌||◌, Option, none, some, Result, ok, err, panic, if◌then◌else◌, ◌==◌,
  ltb,
}
use ztg.Dice.Protocol.{Error, bad_count, get}

-- Where the goroutine is. `none` is a roll without an error.
pub data Pusher : Type 0 where
  rolling : Pusher
  pushing_result : List ℕ → Option Error → Pusher
  pushing_error : Option Error → Pusher
  pushed : Pusher

-- Where a call of `Get` is.
pub data Getter : Type 0 where
  selecting : Getter
  has_result : List ℕ → Getter
  has_error : Option Error → Getter
  received_both : List ℕ → Option Error → Getter
  refused : Getter

-- The test of the number of dice, `n <= 0 || n > 8` on a `uint8`.
unfoldable pub is_refused : ℕ → Bool
is_refused n = n == 0 || ltb 8 n

-- Where a call begins: it is refused, and returns at once, or it waits for the two channels.
unfoldable pub enter : ℕ → Getter
enter n = if is_refused n then refused else selecting

-- `finish` with what the roll has come to.
abbrev pub finish : Result Error (List ℕ) → Pusher
finish (ok rolls) = pushing_result rolls none
finish (err e) = pushing_result [] (some e)
finish panic = rolling

-- What `Get` makes of what it has received, after the test of the number.
abbrev pub get_received : ℕ → List ℕ → Option Error → Result Error (List ℕ)
get_received n rolls none = get n rolls
get_received n rolls (some e) = err e

-- A call of `Get` receives from a channel that the goroutine pushes to.
unfoldable pub receive : Getter → Pusher → Option (Getter × Pusher)
receive selecting (pushing_result rolls e) = some (has_result rolls, pushing_error e)
receive selecting (pushing_error e) = some (has_error e, pushed)
receive (has_result rolls) (pushing_error e) = some (received_both rolls e, pushed)
receive (has_error e) (pushing_result rolls e') = some (received_both rolls e, pushing_error e')
receive _ _ = none

pub record Calls : Type 0 where
  pub pusher : Pusher
  pub first : Getter
  pub second : Getter

-- Two calls for these numbers of dice.
abbrev pub called : ℕ → ℕ → Calls
called n m = record { pusher = rolling; first = enter n; second = enter m }

-- What a call for `n` dice has returned.
abbrev pub returned : ℕ → Getter → Option (Result Error (List ℕ))
returned n (received_both rolls e) = some (get_received n rolls e)
returned n refused = some (err bad_count)
returned n _ = none

-- The roll comes to its result once; a panic of the goroutine ends the program.
pub data Step (result : Result Error (List ℕ)) (s t : Calls) : Type 0 where
  finishes : s.pusher ≡ rolling → t ≡ record s { pusher = finish result } → Step result s t
  first_receives :
      {g : Getter} {p : Pusher}
      → receive s.first s.pusher ≡ some (g, p)
      → t ≡ record s { first = g; pusher = p }
      → Step result s t
  second_receives :
      {g : Getter} {p : Pusher}
      → receive s.second s.pusher ≡ some (g, p)
      → t ≡ record s { second = g; pusher = p }
      → Step result s t

pub data Reach (result : Result Error (List ℕ)) (s : Calls) : Calls → Type 0 where
  here : Reach result s s
  later : {t u : Calls} → Reach result s t → Step result t u → Reach result s u
