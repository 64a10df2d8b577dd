-- ===== src/Dice/Pipes/Wire.antt =====
-- Messages on a pipe (dice/message.go, dice/pipe_peer.go).
use ztg.Prelude.{
  length-append, replicate, ◌/◌, ◌%◌, ◌*◌, flat_map, ℕ, zero, suc, ◌-◌, ◌≡◌, refl, List, [], ◌∷◌,
  true, some, ap, String, length, take, arith,
}
use ztg.Prelude.Turns.{by_first, by_second, here, next}
use ztg.Dice.Message.{Message, ReadError, is_msg_type, bytes}
use ztg.Dice.Protocol.{Error, encode_rolls}
use ztg.Dice.Process.{Process, send, recv}
use ztg.Dice.Pipes.{new_pipe_peers, drop, receive, act, first_step, second_step, Runs}
use ztg.Dice.Pipes.Confluent.{system}

-- A message that the wire format keeps.
pub record IsWire (m : Message) : Type 0 where
  pub known : is_msg_type m.type ≡ true
  pub sized : length m.data' ≡ 32

take_all : (xs : List ℕ) (n : ℕ) → length xs ≡ n → take n xs ≡ xs
take_all [] zero h = refl
take_all [] (suc n) h = refl
take_all (x ∷ xs) zero h = absurd (omega (arith, h))
take_all (x ∷ xs) (suc n) h = ap (λ z. x ∷ z) (take_all xs n (omega (arith, h)))

drop_all : (xs : List ℕ) (n : ℕ) → length xs ≡ n → drop n xs ≡ []
drop_all [] zero h = refl
drop_all [] (suc n) h = refl
drop_all (x ∷ xs) zero h = absurd (omega (arith, h))
drop_all (x ∷ xs) (suc n) h = drop_all xs n (omega (arith, h))

length-replicate : (n b : ℕ) → length (replicate n b) ≡ n
length-replicate zero b = refl
length-replicate (suc n) b = ap suc (length-replicate n b)

length-flat_map :
    (f : ℕ → List ℕ)
    → ((x : ℕ) → length (f x) ≡ 2)
    → (xs : List ℕ) → length (flat_map f xs) ≡ 2 * length xs
length-flat_map f h [] = refl
length-flat_map f h (x ∷ xs) =
    omega (arith, length-append (f x) (flat_map f xs), h x, length-flat_map f h xs)

pub length-encode_rolls : (rolls : List ℕ) → length rolls ≡ 8 → length (encode_rolls rolls) ≡ 32
unfolding encode_rolls
length-encode_rolls rolls h =
    let pairs = flat_map (λ r. (r / 256 % 256) ∷ (r % 256) ∷ []) rolls in
    let padding : List ℕ = replicate (32 - 2 * length rolls) 0 in
    omega (
      arith,
      h,
      length-append pairs padding,
      length-flat_map (λ r. (r / 256 % 256) ∷ (r % 256) ∷ []) (λ _. refl) rolls,
      length-replicate (32 - 2 * length rolls) 0,
    )

module _ (describe : ReadError → String) where
  -- The first read of a message takes its type.
  act-type :
      (w : String → Error) (k : Message → Process) (m : Message) (outbox : List ℕ)
      → IsWire m
      → act describe (recv w k) [] (bytes m) outbox
        ≡ some (record { process = recv w k; read = m.type ∷ [] }, m.data', outbox)
  unfolding act receive bytes
  act-type w k m outbox h = ground (arith, h.known)

  -- The second read takes all that is left of it.
  act-data_at :
      (w : String → Error) (k : Message → Process) (t : ℕ) (xs outbox : List ℕ)
      → length xs ≡ 32
      → act describe (recv w k) (t ∷ []) xs outbox
        ≡ some (record { process = k (record { type = t; data' = xs }); read = [] }, [], outbox)
  unfolding act receive
  act-data_at w k t [] outbox h = absurd (omega (arith, h))
  act-data_at w k t (x ∷ xs) outbox h =
      let taken = take_all (x ∷ xs) 32 h in ground (arith, taken, drop_all (x ∷ xs) 32 h, h)

  act-data :
      (w : String → Error) (k : Message → Process) (m : Message) (outbox : List ℕ)
      → IsWire m
      → act describe (recv w k) (m.type ∷ []) m.data' outbox
        ≡ some (record { process = k m; read = [] }, [], outbox)
  act-data w k m outbox h = act-data_at w k m.type m.data' outbox h.sized

  first_step-act :
      (p : Process) (x : List ℕ) (q : Process) (y i o : List ℕ) (p' : Process) (x' i' o' : List ℕ)
      → act describe p x i o ≡ some (record { process = p'; read = x' }, i', o')
      → first_step describe (system p x q y i o) ≡ some (system p' x' q y i' o')
  unfolding first_step
  first_step-act p x q y i o p' x' i' o' h = ground (arith, h)

  second_step-act :
      (p : Process) (x : List ℕ) (q : Process) (y i o : List ℕ) (q' : Process) (y' i' o' : List ℕ)
      → act describe q y o i ≡ some (record { process = q'; read = y' }, o', i')
      → second_step describe (system p x q y i o) ≡ some (system p x q' y' i' o')
  unfolding second_step
  second_step-act p x q y i o q' y' i' o' h = ground (arith, h)

  -- Each side sends a message and receives the other's.
  pub exchange_round :
      (w v w' v' : String → Error) (k k' : Message → Process) (m n : Message)
      → IsWire m
      → IsWire n
      → Runs describe 6
          (new_pipe_peers (send w m (recv v k)) (send w' n (recv v' k')))
          (new_pipe_peers (k n) (k' m))
  unfolding act
  exchange_round w v w' v' k k' m n h h' =
      let p = recv v k in
      let q = recv v' k' in
      let i = bytes n in
      let o = bytes m in
      next (by_first (first_step-act (send w m p) [] (send w' n q) [] [] [] p [] [] o refl)) (
        next (by_second (second_step-act p [] (send w' n q) [] [] o q [] i o refl)) (
          next
            (by_first
              (first_step-act p [] q [] i o p (n.type ∷ []) n.data' o (act-type v k n o h')))
            (next
              (by_first
                (first_step-act p (n.type ∷ []) q [] n.data' o (k n) [] [] o (act-data v k n o h')))
              (next
                (by_second (
                  second_step-act (k n) [] q [] [] o q (m.type ∷ []) [] m.data'
                    (act-type v' k' m [] h)))
                (next
                  (by_second (
                    second_step-act (k n) [] q (m.type ∷ []) [] m.data' (k' m) [] [] []
                      (act-data v' k' m [] h)))
                  here)))))
