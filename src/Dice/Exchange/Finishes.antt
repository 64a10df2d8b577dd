-- ===== src/Dice/Exchange/Finishes.antt =====
-- An exchange whose context is not done ends as if it were one function (dice/roller.go).
use ztg.Dice.Exchange.{
  sending_commitment, receiving_commitment, sending_secret, receiving_secret, receiving_secret,
  sending_secret, Worker, finished, Collector, returned, State, started, work, hand_over, Progress,
  works, hands_over,
}
use ztg.Prelude.{
  subst, sym, ℕ, zero, suc, ◌+◌, ◌<◌, ◌≤◌, ◌≡◌, ◌⊎◌, inl, inr, refl, List, Option, none, some,
  String, arith, ap, Result,
}
use ztg.Dice.Protocol.{Error}
use ztg.Dice.Process.{Endpoint}
use ztg.Dice.Exchange.Remaining.{in_one, At, Is, left, Goes, At-Goes}

module _ {W : Type 0} (sha256 : List ℕ → List ℕ) (peer : Option String → Endpoint W)
    (own : List ℕ) where
  -- So many steps.
  pub data Progresses : ℕ → State W → State W → Type 0 where
    stay : {s : State W} → Progresses zero s s
    on :
        {k : ℕ} {s t u : State W}
        → Progress sha256 peer own s t
        → Progresses k t u
        → Progresses (suc k) s u

  work-hand_over :
      (x : Worker) (c : Collector) (d : Option String) (w : W) (t : State W)
      → work sha256 peer own (record { worker = x; collector = c; done = d; world = w }) ≡ some t
      → hand_over sha256 peer own (record { worker = x; collector = c; done = d; world = w }) ≡ none
  unfolding work hand_over
  work-hand_over sending_commitment c d w t h = refl
  work-hand_over receiving_commitment c d w t h = refl
  work-hand_over (sending_secret _) c d w t h = refl
  work-hand_over (receiving_secret _) c d w t h = refl
  work-hand_over x c d w t h = absurd (ground (arith, h))

  -- Only one side of the exchange can go on.
  Progress-unique :
      {s t u : State W} → Progress sha256 peer own s t → Progress sha256 peer own s u → t ≡ u
  Progress-unique (works a) (works b) = ground (arith, a, b)
  Progress-unique {s} {t} {u} (works a) (hands_over b) =
      absurd (ground (arith, b, work-hand_over s.worker s.collector s.done s.world t a))
  Progress-unique {s} {t} {u} (hands_over a) (works b) =
      absurd (ground (arith, a, work-hand_over s.worker s.collector s.done s.world u b))
  Progress-unique (hands_over a) (hands_over b) = ground (arith, a, b)

  Is-Goes :
      {o : Result Error (List ℕ) × W} (s : State W)
      → Is sha256 peer own o s
      → (s.worker ≡ finished) ⊎ Goes sha256 peer own o s
  Is-Goes {o} s i =
      subst (λ d. (s.worker ≡ finished) ⊎ Goes sha256 peer own o (record s { done = d }))
        (sym i.undone) (At-Goes sha256 peer own s.worker s.collector s.world o i.at)

  finished-stays : {s t : State W} → s.worker ≡ finished → ¬ Progress sha256 peer own s t
  unfolding work hand_over
  finished-stays e (works h) = absurd (ground (arith, e, h))
  finished-stays e (hands_over h) = absurd (ground (arith, e, h))

  Progress-Is :
      {o : Result Error (List ℕ) × W} {s t : State W}
      → Progress sha256 peer own s t
      → Is sha256 peer own o s
      → Is sha256 peer own o t × (left sha256 peer own t.worker < left sha256 peer own s.worker)
  Progress-Is {s = s} st i = elim (Is-Goes s i) [
    | inl e ↦ absurd (finished-stays e st)
    | inr g ↦ rw (Progress-unique st g.step) (g.is, g.fewer)
  ]

  Progresses-Is :
      {k : ℕ} {o : Result Error (List ℕ) × W} {s t : State W}
      → Progresses k s t
      → Is sha256 peer own o s
      → Is sha256 peer own o t × (k + left sha256 peer own t.worker ≤ left sha256 peer own s.worker)
  Progresses-Is stay i = (i, omega arith)
  Progresses-Is (on st r) i =
      let (j, less) = Progress-Is st i in
      let (k, bound) = Progresses-Is r j in (k, omega (arith, less, bound))

  -- Both sides have ended with the outcome.
  pub record IsEnd (o : Result Error (List ℕ) × W) (s : State W) : Type 0 where
    pub ended : s.worker ≡ finished
    pub result : s.collector ≡ returned o.0
    pub last : s.world ≡ o.1

  finished-IsEnd :
      {o : Result Error (List ℕ) × W} (x : Worker) (c : Collector) (w : W)
      → At sha256 peer own x c w o
      → x ≡ finished
      → (c ≡ returned o.0) × (w ≡ o.1)
  finished-IsEnd finished (returned r) w a e = (ap (λ z. returned z.0) a, ap (λ z. z.1) a)
  finished-IsEnd finished c w a e = absurd a
  finished-IsEnd x c w a e = absurd (ground (arith, e))

  -- An end is reached.
  abbrev Ends : Result Error (List ℕ) × W → State W → Type 0
  Ends o s = (m : ℕ) × (t : State W) × Progresses m s t × IsEnd o t

  finished-Ends :
      {o : Result Error (List ℕ) × W} (s : State W)
      → Is sha256 peer own o s
      → s.worker ≡ finished
      → Ends o s
  finished-Ends s i e =
      let (result, last) = finished-IsEnd s.worker s.collector s.world i.at e in
      (zero, s, stay, record { ended = e; result = result; last = last })

  Is-Ends :
      (n : ℕ) {o : Result Error (List ℕ) × W} (s : State W)
      → Is sha256 peer own o s
      → left sha256 peer own s.worker ≤ n
      → Ends o s
  Is-Ends zero s i b = elim (Is-Goes s i) [
    | inl e ↦ finished-Ends s i e
    | inr g ↦ absurd (omega (arith, b, g.fewer))
  ]
  Is-Ends (suc n) s i b = elim (Is-Goes s i) [
    | inl e ↦ finished-Ends s i e
    | inr g ↦
        let (m, t, r, end) = Is-Ends n g.next g.is (omega (arith, b, g.fewer)) in
        (suc m, t, on g.step r, end)
  ]

  -- While the context is not done, an exchange makes at most six steps, and from every state on the
  -- way its goroutine and the waiting function go on to end both, with the result and the messages
  -- of the exchange run as one function: they do not block each other.
  pub started-ends :
      (w : W) (k : ℕ) (t : State W)
      → Progresses k (started w) t
      → (k ≤ 6) × (m : ℕ) × (u : State W) × Progresses m t u × IsEnd (in_one sha256 peer own w) u
  started-ends w k t r =
      let (i, bound) = Progresses-Is r (record { at = refl; undone = refl }) in
      let (m, u, rest, end) = Is-Ends (left sha256 peer own t.worker) t i (omega arith) in
      (omega (arith, bound), m, u, rest, end)
