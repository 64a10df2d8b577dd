-- ===== src/Dice/Process/Faces.antt =====
-- What a roll can end with over any peer (dice/roller.go).
use ztg.Prelude.{
  ℕ, ◌<◌, ◌≡◌, refl, List, Result, ok, err, panic, arith, Result-cases, succeeded, failed, panicked,
  false, length, All, take, ltb, length-take,
}
use ztg.Dice.Message.{Message, commitment, secret}
use ztg.Dice.Roller.{Roller, roll}
use ztg.Dice.Roller.Faces.{IsFace, roll-IsFace, take-All}
use ztg.Dice.Protocol.{
  Context, Error, roll_sum, get, expect, not_done, verify_commitment, unexpected_commitment,
  unexpected_secret,
}
use ztg.Dice.Process.{
  Process, send, recv, stop, after, exchange_process, finish_exchange, confirm_process,
  roll_process, Endpoint, run, Host, roll_sync_over,
}

-- Every end without an error has rolls with the property.
abbrev pub EndsIn : (List ℕ → Type 0) → Process → Type 0
EndsIn P (send w m k) = EndsIn P k
EndsIn P (recv w k) = (m : Message) → EndsIn P (k m)
EndsIn P (stop (ok rolls)) = P rolls
EndsIn P (stop _) = Unit {0}

module _ (P : List ℕ → Type 0) where
  after-EndsIn :
      {A : Type 0} (r : Result Error A) (k : A → Process)
      → ((a : A) → r ≡ ok a → EndsIn P (k a))
      → EndsIn P (after r k)
  after-EndsIn (ok a) k h = h a refl
  after-EndsIn (err e) k h = tt
  after-EndsIn panic k h = tt

  pub run-EndsIn :
      {W : Type 0} (e : Endpoint W) (p : Process) (w : W) (rolls : List ℕ)
      → EndsIn P p
      → (run e p w).0 ≡ ok rolls
      → P rolls
  unfolding run
  run-EndsIn e (send f m k) w rolls h q = elim (Result-cases (e.send m w).0) [
    | failed x u ↦ absurd (ground (arith, u, q))
    | panicked u ↦ absurd (ground (arith, u, q))
    | succeeded _ u ↦ run-EndsIn e k (e.send m w).1 rolls h (ground (arith, u, q))
  ]
  run-EndsIn e (recv f k) w rolls h q = elim (Result-cases (e.recv w).0) [
    | failed x u ↦ absurd (ground (arith, u, q))
    | panicked u ↦ absurd (ground (arith, u, q))
    | succeeded m u ↦ run-EndsIn e (k m) (e.recv w).1 rolls (h m) (ground (arith, u, q))
  ]
  run-EndsIn e (stop (ok rs)) w rolls h q = let same : rs ≡ rolls = cc in rw (← same) h
  run-EndsIn e (stop (err x)) w rolls h q = cc
  run-EndsIn e (stop panic) w rolls h q = cc

module _ (P : List ℕ → Type 0) (sha256 : List ℕ → List ℕ) (ctx : Context) (s : List ℕ)
    (k : List ℕ → Process) (h : (x : List ℕ) → EndsIn P (k x)) where
  finish_exchange-EndsIn : (c d : Message) → EndsIn P (finish_exchange sha256 ctx s c d k)
  finish_exchange-EndsIn c d = after-EndsIn P (not_done ctx.at_secret) _ λ _ _.
      after-EndsIn P (not_done ctx.at_commit) _
        λ _ _. after-EndsIn P (verify_commitment sha256 d.data' c.data') _ λ _ _. h d.data'

  revealed-EndsIn :
      (c d : Message)
      → EndsIn P
          (after (expect secret unexpected_secret d) (λ _. finish_exchange sha256 ctx s c d k))
  revealed-EndsIn c d =
      after-EndsIn P (expect secret unexpected_secret d) _ λ _ _. finish_exchange-EndsIn c d

  exchange_process-EndsIn : EndsIn P (exchange_process sha256 ctx s k)
  exchange_process-EndsIn c =
      after-EndsIn P (expect commitment unexpected_commitment c) _ λ _ _. revealed-EndsIn c

confirm_process-EndsIn :
    (P : List ℕ → Type 0) (rolls : List ℕ) → P rolls → EndsIn P (confirm_process rolls)
confirm_process-EndsIn P rolls h = λ m. ground (arith, h)

abbrev pub IsDice : Roller → List ℕ → Type 0
IsDice r rolls = (length rolls ≡ 8) × All (IsFace r) rolls

pub roll_process-EndsIn :
    (sha256 : List ℕ → List ℕ) (r : Roller) (ctx : Context) (s : List ℕ)
    → 0 < r.sides
    → EndsIn (IsDice r) (roll_process sha256 r ctx s)
unfolding roll_process
roll_process-EndsIn sha256 r ctx s pos = exchange_process-EndsIn P sha256 ctx s _ λ x.
    after-EndsIn P (roll r (roll_sum sha256 s x)) confirm_process
      λ rolls q. confirm_process-EndsIn P rolls (roll-IsFace r (roll_sum sha256 s x) rolls pos q)
  where
    P : List ℕ → Type 0
    P = IsDice r

get-IsFace :
    (r : Roller) (n : ℕ) (rs rolls : List ℕ)
    → IsDice r rs
    → get n rs ≡ ok rolls
    → (length rolls ≡ n) × All (IsFace r) rolls
get-IsFace r n rs rolls h q =
    let fits : ltb (length rs) n ≡ false = ground (arith, q) in
    let same : take n rs ≡ rolls = ground (arith, q) in
    let short : length (take n rs) ≡ n = rw (length-take n rs) (ground (arith, fits)) in
    rw (← same) (short, take-All (IsFace r) n rs h.1)

-- Whatever the peer sends, a roll of `n` dice that succeeds is `n` faces of the die.
pub roll_sync_over-IsFace :
    {W : Type 0} (h : Host W) (r : Roller) (e : Endpoint W) (n : ℕ) (w : W) (rolls : List ℕ)
    → 0 < r.sides
    → (roll_sync_over h r e n w).0 ≡ ok rolls
    → (length rolls ≡ n) × All (IsFace r) rolls
unfolding roll_sync_over
roll_sync_over-IsFace h r e n w rolls pos q =
    let d = h.random w in
    let p = roll_process h.sha256 r (h.context w) d.0 in
    elim (Result-cases (run e p d.1).0) [
      | failed x u ↦ absurd (ground (arith, u, q))
      | panicked u ↦ absurd (ground (arith, u, q))
      | succeeded rs u ↦
          let dice : IsDice r rs =
            run-EndsIn (IsDice r) e p d.1 rs (roll_process-EndsIn h.sha256 r (h.context w) d.0 pos)
              u in
          get-IsFace r n rs rolls dice (ground (arith, u, q))
    ]
