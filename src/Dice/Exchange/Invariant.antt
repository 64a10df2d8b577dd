-- ===== src/Dice/Exchange/Invariant.antt =====
-- What holds of an exchange in any order of the steps of its goroutine and of the function that waits
-- (dice/roller.go).
use ztg.Prelude.{
  ℕ, ◌≡◌, List, [], ◌∷◌, ◌++◌, Option, none, String, ok, err, panic, arith, Bool, true, false, ◌∙◌,
  sym,
}
use ztg.Dice.Message.{Message, commitment, secret}
use ztg.Dice.Protocol.{
  Trace, Peer, sent, received, msg, calculate_commitment, verify_commitment, Error,
}
use ztg.Dice.Protocol.Outcome.{IsExchange, verified}
use ztg.Dice.Protocol.Secrecy.{CommitFirst}
use ztg.Dice.Process.{Endpoint, trace_endpoint}
use ztg.Dice.Exchange.Leak.{has_finished}
use ztg.Dice.Exchange.{
  Worker, sending_commitment, receiving_commitment, sending_secret, receiving_secret,
  offering_secret, offering_commitment, offering_error, finished, Collector, awaiting_secret,
  awaiting_commitment, returned, State,
}

-- The goroutine talks to the peer.
abbrev pub is_talking : Worker → Bool
is_talking sending_commitment = true
is_talking receiving_commitment = true
is_talking (sending_secret _) = true
is_talking (receiving_secret _) = true
is_talking _ = false

module _ (sha256 : List ℕ → List ℕ) (peer : Option String → Peer) (own : List ℕ) where
  abbrev pub over : Option String → Endpoint Trace
  over d = trace_endpoint (peer d)

  abbrev pub own_commitment : Message
  own_commitment = msg commitment (calculate_commitment sha256 own)

  -- The peer's two messages and where they stand, by their data.
  pub record Both (p c : List ℕ) (w : Trace) : Type 0 where
    pub commitment_msg : Message
    pub secret_msg : Message
    pub is_commitment : commitment_msg.type ≡ commitment
    pub committed : commitment_msg.data' ≡ c
    pub is_secret : secret_msg.type ≡ secret
    pub revealed : secret_msg.data' ≡ p
    pub order :
        w
        ≡ received secret_msg
          ∷ sent (msg secret own)
          ∷ received commitment_msg
          ∷ sent own_commitment
          ∷ []

  -- A commitment of the peer stands last but for the messages `tr`.
  pub record Committed (tr : Trace) (c : List ℕ) (w : Trace) : Type 0 where
    pub commitment_msg : Message
    pub is_commitment : commitment_msg.type ≡ commitment
    pub committed : commitment_msg.data' ≡ c
    pub order : w ≡ tr ++ received commitment_msg ∷ sent own_commitment ∷ []

  -- The messages so far.
  abbrev pub Stage : Worker → Trace → Type 0
  Stage sending_commitment w = w ≡ []
  Stage receiving_commitment w = w ≡ sent own_commitment ∷ []
  Stage (sending_secret c) w = Committed [] c w
  Stage (receiving_secret c) w = Committed (sent (msg secret own) ∷ []) c w
  Stage (offering_secret p c) w = Both p c w
  Stage _ w = Unit

  -- What the function has taken over.
  abbrev pub Held : Collector → Worker → Trace → Type 0
  Held awaiting_secret x w = Unit
  Held (awaiting_commitment p) (offering_commitment c) w = Both p c w
  Held (awaiting_commitment p) (offering_error e) w = Unit
  Held (awaiting_commitment p) _ w = ⊥
  Held (returned (ok x)) finished w = IsExchange sha256 (peer none) own x [] w
  Held (returned (ok x)) _ w = ⊥
  Held (returned _) x w = Unit

  -- What a function that has returned a secret knows of the messages.
  abbrev pub Exchanged : Collector → Trace → Type 0
  Exchanged (returned (ok x)) w = IsExchange sha256 (peer none) own x [] w
  Exchanged _ w = Unit

  pub record Inv (s : State Trace) : Type 0 where
    pub stage : Stage s.worker s.world
    pub held : Held s.collector s.worker s.world
    pub first : CommitFirst s.world

  pub Held-is_talking :
      (c : Collector) (x y : Worker) (w w' : Trace) → is_talking x ≡ true → Held c x w → Held c y w'
  Held-is_talking awaiting_secret x y w w' t h = tt
  Held-is_talking (awaiting_commitment p) (offering_commitment c) y w w' t h =
      absurd (ground (arith, t))
  Held-is_talking (awaiting_commitment p) (offering_error e) y w w' t h = absurd (ground (arith, t))
  Held-is_talking (awaiting_commitment p) x y w w' t h = absurd h
  Held-is_talking (returned (ok a)) finished y w w' t h = absurd (ground (arith, t))
  Held-is_talking (returned (ok a)) x y w w' t h = absurd h
  Held-is_talking (returned (err e)) x y w w' t h = tt
  Held-is_talking (returned panic) x y w w' t h = tt

  -- A function that takes over both data and checks them has seen an exchange.
  pub Both-IsExchange :
      {p c : List ℕ} {w : Trace}
      → Both p c w
      → verify_commitment sha256 p c ≡ ok tt
      → IsExchange sha256 (peer none) own p [] w
  Both-IsExchange {p} {c} both h = record {
    commitment_msg = both.commitment_msg;
    secret_msg = both.secret_msg;
    order = both.order;
    is_commitment = both.is_commitment;
    is_secret = both.is_secret;
    revealed = both.revealed;
    bound = verified sha256 (peer none) p c h ∙ sym both.committed;
  }

  pub Held-offering_error :
      (c : Collector) (x : Worker) (e : Error) (w : Trace)
      → has_finished x ≡ false
      → Held c x w
      → Held c (offering_error e) w
  Held-offering_error awaiting_secret x e w n h = tt
  Held-offering_error (awaiting_commitment p) x e w n h = tt
  Held-offering_error (returned (ok a)) finished e w n h = absurd (ground (arith, n))
  Held-offering_error (returned (ok a)) x e w n h = absurd h
  Held-offering_error (returned (err e')) x e w n h = tt
  Held-offering_error (returned panic) x e w n h = tt

  pub Held-panic : {c : Collector} (x : Worker) (w : Trace) → c ≡ returned panic → Held c x w
  Held-panic x w h = rw h tt

  pub Held-Exchanged : (c : Collector) (x : Worker) (w : Trace) → Held c x w → Exchanged c w
  Held-Exchanged awaiting_secret x w h = tt
  Held-Exchanged (awaiting_commitment p) x w h = tt
  Held-Exchanged (returned (ok a)) finished w h = h
  Held-Exchanged (returned (ok a)) x w h = absurd h
  Held-Exchanged (returned (err e)) x w h = tt
  Held-Exchanged (returned panic) x w h = tt
