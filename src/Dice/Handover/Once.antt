-- ===== src/Dice/Handover/Once.antt =====
-- A roll is handed to one call of `Get` (dice/roller.go).
use ztg.Prelude.{
  ℕ, ◌≡◌, ◌∙◌, refl, sym, subst, Bool, true, false, Bool-cases, err, if◌then◌else◌, List, Option,
  none, some, Result, arith, Result-cases, succeeded, failed, panicked, inl, inr, ◌⊎◌, ◌>>=◌,
}
use ztg.Dice.Protocol.{Error, bad_count, get}
use ztg.Dice.Handover.{
  Pusher, rolling, pushing_result, pushing_error, pushed, Getter, selecting, has_result, has_error,
  received_both, refused, finish, is_refused, enter, returned, receive, Calls, called, Step,
  finishes, first_receives, second_receives, Reach, here, later,
}

-- What the result of the roll is pushed as.
abbrev IsResult : Result Error (List ℕ) → List ℕ → Option Error → Type 0
IsResult result rolls e = finish result ≡ pushing_result rolls e

module _ (result : Result Error (List ℕ)) where
  -- Where the goroutine and the two calls are; a call that was refused receives nothing.
  abbrev Inv : Pusher → Getter → Getter → Type 0
  Inv rolling selecting selecting = Unit
  Inv rolling selecting refused = Unit
  Inv rolling refused selecting = Unit
  Inv rolling refused refused = Unit
  Inv (pushing_result rolls e) selecting selecting = IsResult result rolls e
  Inv (pushing_result rolls e) selecting refused = IsResult result rolls e
  Inv (pushing_result rolls e) refused selecting = IsResult result rolls e
  Inv (pushing_result rolls e) refused refused = IsResult result rolls e
  Inv (pushing_error e) (has_result rolls) selecting = IsResult result rolls e
  Inv (pushing_error e) selecting (has_result rolls) = IsResult result rolls e
  Inv (pushing_error e) (has_result rolls) refused = IsResult result rolls e
  Inv (pushing_error e) refused (has_result rolls) = IsResult result rolls e
  Inv pushed (received_both rolls e) selecting = IsResult result rolls e
  Inv pushed selecting (received_both rolls e) = IsResult result rolls e
  Inv pushed (received_both rolls e) refused = IsResult result rolls e
  Inv pushed refused (received_both rolls e) = IsResult result rolls e
  Inv pushed (has_result rolls) (has_error e) = IsResult result rolls e
  Inv pushed (has_error e) (has_result rolls) = IsResult result rolls e
  Inv _ _ _ = ⊥

  -- The calls before the result is pushed.
  abbrev idle : Getter → Bool
  idle selecting = true
  idle refused = true
  idle _ = false

  idle-Inv :
      (p : Pusher) (a b : Getter)
      → idle a ≡ true
      → idle b ≡ true
      → Inv p selecting selecting
      → Inv p a b
  idle-Inv rolling selecting selecting h k i = i
  idle-Inv rolling selecting refused h k i = i
  idle-Inv rolling refused selecting h k i = i
  idle-Inv rolling refused refused h k i = i
  idle-Inv (pushing_result rolls e) selecting selecting h k i = i
  idle-Inv (pushing_result rolls e) selecting refused h k i = i
  idle-Inv (pushing_result rolls e) refused selecting h k i = i
  idle-Inv (pushing_result rolls e) refused refused h k i = i
  idle-Inv p a b h k i = absurd (ground (arith, h, k, i))

  pushed-Inv : (f : Pusher) → finish result ≡ f → Inv f selecting selecting
  pushed-Inv rolling h = tt
  pushed-Inv (pushing_result rolls e) h = h
  pushed-Inv (pushing_error e) h = absurd (no_other h)
    where
      no_other : finish result ≡ pushing_error e → ⊥
      no_other q = elim (Result-cases result) [
        | succeeded _ r ↦ ground (arith, q, r)
        | failed _ r ↦ ground (arith, q, r)
        | panicked r ↦ ground (arith, q, r)
      ]
  pushed-Inv pushed h = elim (Result-cases result) [
    | succeeded _ r ↦ absurd (ground (arith, h, r))
    | failed _ r ↦ absurd (ground (arith, h, r))
    | panicked r ↦ absurd (ground (arith, h, r))
  ]

  Inv-idle : (a b : Getter) → Inv rolling a b → (idle a ≡ true) × (idle b ≡ true)
  Inv-idle selecting selecting i = (refl, refl)
  Inv-idle selecting refused i = (refl, refl)
  Inv-idle refused selecting i = (refl, refl)
  Inv-idle refused refused i = (refl, refl)
  Inv-idle a b i = absurd (ground (arith, i))

  finish-Inv : (p : Pusher) (a b : Getter) → p ≡ rolling → Inv p a b → Inv (finish result) a b
  finish-Inv rolling a b e i =
      let (h, k) = Inv-idle a b i in
      idle-Inv (finish result) a b h k (pushed-Inv (finish result) refl)
  finish-Inv p a b e i = absurd (ground (arith, e))

  swap-Inv : (p : Pusher) (a b : Getter) → Inv p a b → Inv p b a
  swap-Inv rolling selecting selecting i = i
  swap-Inv rolling selecting refused i = i
  swap-Inv rolling refused selecting i = i
  swap-Inv rolling refused refused i = i
  swap-Inv (pushing_result rolls e) selecting selecting i = i
  swap-Inv (pushing_result rolls e) selecting refused i = i
  swap-Inv (pushing_result rolls e) refused selecting i = i
  swap-Inv (pushing_result rolls e) refused refused i = i
  swap-Inv (pushing_error e) (has_result rolls) selecting i = i
  swap-Inv (pushing_error e) selecting (has_result rolls) i = i
  swap-Inv (pushing_error e) (has_result rolls) refused i = i
  swap-Inv (pushing_error e) refused (has_result rolls) i = i
  swap-Inv pushed (received_both rolls e) selecting i = i
  swap-Inv pushed selecting (received_both rolls e) i = i
  swap-Inv pushed (received_both rolls e) refused i = i
  swap-Inv pushed refused (received_both rolls e) i = i
  swap-Inv pushed (has_result rolls) (has_error e) i = i
  swap-Inv pushed (has_error e) (has_result rolls) i = i
  swap-Inv p a b i = absurd (ground (arith, i))

  -- The state after a receive.
  into :
      (b : Getter) {g : Getter} {q : Pusher} (a : Getter) (p : Pusher)
      → ◌≡◌ {A = Option (Getter × Pusher)} (some (a, p)) (some (g, q))
      → Inv p a b
      → Inv q g b
  into b {g} {q} a p h i =
      let same : (a, p) ≡ (g, q) = ground (arith, h) in
      subst (λ (z : Getter × Pusher). Inv z.1 z.0 b) same i

  receive-Inv :
      (p : Pusher) (a b : Getter) (g : Getter) (q : Pusher)
      → receive a p ≡ some (g, q)
      → Inv p a b
      → Inv q g b
  unfolding receive
  receive-Inv (pushing_result rolls e) selecting selecting g q h i =
      into selecting (has_result rolls) (pushing_error e) h i
  receive-Inv (pushing_result rolls e) selecting refused g q h i =
      into refused (has_result rolls) (pushing_error e) h i
  receive-Inv (pushing_error e) (has_result rolls) selecting g q h i =
      into selecting (received_both rolls e) pushed h i
  receive-Inv (pushing_error e) (has_result rolls) refused g q h i =
      into refused (received_both rolls e) pushed h i
  receive-Inv (pushing_error e) selecting (has_result rolls) g q h i =
      into (has_result rolls) (has_error e) pushed h i
  receive-Inv p a b g q h i = absurd (ground (arith, h, i))

  Step-Inv :
      {s t : Calls}
      → Step result s t
      → Inv s.pusher s.first s.second
      → Inv t.pusher t.first t.second
  Step-Inv {s} (finishes e h) i = rw h (finish-Inv s.pusher s.first s.second e i)
  Step-Inv {s} (first_receives {g} {p} e h) i = rw h (receive-Inv s.pusher s.first s.second g p e i)
  Step-Inv {s} (second_receives {g} {p} e h) i = rw h (
      swap-Inv p g s.first
        (receive-Inv s.pusher s.second s.first g p e (swap-Inv s.pusher s.first s.second i)))

  enter-idle : (n : ℕ) → idle (enter n) ≡ true
  unfolding enter
  enter-idle n = elim (Bool-cases (is_refused n)) [ inl e ↦ rw e refl | inr e ↦ rw e refl ]

  Reach-Inv : (n m : ℕ) {t : Calls} → Reach result (called n m) t → Inv t.pusher t.first t.second
  Reach-Inv n m here = idle-Inv rolling (enter n) (enter m) (enter-idle n) (enter-idle m) tt
  Reach-Inv n m (later r st) = Step-Inv st (Reach-Inv n m r)

  abbrev is_out : Getter → Bool
  is_out refused = true
  is_out _ = false

  enter-is_out : (n : ℕ) → is_out (enter n) ≡ is_refused n
  unfolding enter
  enter-is_out n = elim (Bool-cases (is_refused n)) [ inl e ↦ rw e refl | inr e ↦ rw e refl ]

  receive-is_out :
      (a : Getter) (p : Pusher) (g : Getter) (q : Pusher)
      → receive a p ≡ some (g, q)
      → is_out g ≡ is_out a
  unfolding receive
  receive-is_out selecting (pushing_result rolls e) g q h = ground (arith, h)
  receive-is_out selecting (pushing_error e) g q h = ground (arith, h)
  receive-is_out (has_result rolls) (pushing_error e) g q h = ground (arith, h)
  receive-is_out (has_error e) (pushing_result rolls e') g q h = ground (arith, h)
  receive-is_out a p g q h = absurd (ground (arith, h))

  -- A call stays refused, or stays admitted.
  Reach-is_out :
      (n m : ℕ) {t : Calls}
      → Reach result (called n m) t
      → (is_out t.first ≡ is_refused n) × (is_out t.second ≡ is_refused m)
  Reach-is_out n m here = (enter-is_out n, enter-is_out m)
  Reach-is_out n m (later r (finishes e h)) = rw h (Reach-is_out n m r)
  Reach-is_out n m (later {t} r (first_receives {g} {p} e h)) =
      let (a, b) = Reach-is_out n m r in rw h (receive-is_out t.first t.pusher g p e ∙ a, b)
  Reach-is_out n m (later {t} r (second_receives {g} {p} e h)) =
      let (a, b) = Reach-is_out n m r in rw h (a, receive-is_out t.second t.pusher g p e ∙ b)

  -- What a call for `n` dice has to return, once it returns.
  abbrev pub due : ℕ → Result Error (List ℕ)
  due n = if is_refused n then err bad_count else (result >>= get n)

  abbrev pub IsHanded : ℕ → Getter → Type 0
  IsHanded n g = (returned n g ≡ none) ⊎ (returned n g ≡ some (due n))

  received_both-IsHanded :
      (n : ℕ) (rolls : List ℕ) (e : Option Error)
      → false ≡ is_refused n
      → IsResult result rolls e
      → IsHanded n (received_both rolls e)
  received_both-IsHanded n rolls none a h = elim (Result-cases result) [
    | succeeded _ r ↦ inr (rw (← a) (ground (arith, h, r)))
    | failed _ r ↦ absurd (ground (arith, h, r))
    | panicked r ↦ absurd (ground (arith, h, r))
  ]
  received_both-IsHanded n rolls (some e) a h = elim (Result-cases result) [
    | succeeded _ r ↦ absurd (ground (arith, h, r))
    | failed _ r ↦ inr (rw (← a) (ground (arith, h, r)))
    | panicked r ↦ absurd (ground (arith, h, r))
  ]

  Inv-IsHanded :
      (n : ℕ) (p : Pusher) (a b : Getter) → is_out a ≡ is_refused n → Inv p a b → IsHanded n a
  Inv-IsHanded n pushed (received_both rolls e) selecting o i = received_both-IsHanded n rolls e o i
  Inv-IsHanded n pushed (received_both rolls e) refused o i = received_both-IsHanded n rolls e o i
  Inv-IsHanded n p (received_both rolls e) b o i = absurd (ground (arith, i))
  Inv-IsHanded n p refused b o i = inr (rw (← o) refl)
  Inv-IsHanded n p a b o i = inl refl

  Inv-once :
      (n m : ℕ) (p : Pusher) (a b : Getter)
      → is_out a ≡ is_refused n
      → is_out b ≡ is_refused m
      → Inv p a b
      → (returned n a ≡ none)
        ⊎ (returned m b ≡ none)
        ⊎ (is_refused n ≡ true)
        ⊎ (is_refused m ≡ true)
  Inv-once n m pushed (received_both rolls e) selecting o u i = inr (inl refl)
  Inv-once n m p a refused o u i = inr (inr (inr (sym u)))
  Inv-once n m p refused b o u i = inr (inr (inl (sym o)))
  Inv-once n m p (received_both rolls e) b o u i = absurd (ground (arith, i))
  Inv-once n m p a b o u i = inl refl

  -- However two calls of `Get` on one roll receive, not both return, unless one of them asked for no
  -- dice or for more than eight. A call that asked for such a number and has returned gives the error
  -- of this; another one gives its number of the dice that were rolled, or the error of the roll.
  pub Reach-IsHanded :
      (n m : ℕ) (t : Calls)
      → Reach result (called n m) t
      → ((returned n t.first ≡ none)
          ⊎ (returned m t.second ≡ none)
          ⊎ (is_refused n ≡ true)
          ⊎ (is_refused m ≡ true))
        × IsHanded n t.first
        × IsHanded m t.second
  Reach-IsHanded n m t r =
      let i = Reach-Inv n m r in
      let (o, u) = Reach-is_out n m r in
      (
        Inv-once n m t.pusher t.first t.second o u i,
        Inv-IsHanded n t.pusher t.first t.second o i,
        Inv-IsHanded m t.pusher t.second t.first u (swap-Inv t.pusher t.first t.second i),
      )
