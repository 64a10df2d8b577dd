-- ===== src/Dice/Pipes/Confluent.antt =====
-- The order in which the two sides go on (dice/pipe_peer.go).
use ztg.Prelude.{ℕ, ◌≡◌, List, [], ◌∷◌, some, String, arith}
use ztg.Prelude.Turns.{Commute}
use ztg.Dice.Message.{ReadError, bytes}
use ztg.Dice.Process.{Process, send, recv}
use ztg.Dice.Pipes.{System, receive, act, first_step, second_step}

abbrev pub system : Process → List ℕ → Process → List ℕ → List ℕ → List ℕ → System
system p x q y i o = record {
  first = record { process = p; read = x };
  second = record { process = q; read = y };
  pipe1 = i;
  pipe2 = o;
}

module _ (describe : ReadError → String) where
  diamond_at :
      (p : Process) (x : List ℕ) (q : Process) (y i o : List ℕ) (t u : System)
      → first_step describe (system p x q y i o) ≡ some t
      → second_step describe (system p x q y i o) ≡ some u
      → (v : System) × (second_step describe t ≡ some v) × (first_step describe u ≡ some v)
  unfolding first_step second_step act
  diamond_at (send w m k) x (send w' n k') y [] [] t u a b =
      (system k x k' y (bytes n) (bytes m), ground (arith, a), ground (arith, b))
  diamond_at (recv w k) x (recv w' k') y (c ∷ i) (d ∷ o) t u a b =
      let (p, i') = receive describe w k x (c ∷ i) in
      let (q, o') = receive describe w' k' y (d ∷ o) in
      (
        record { first = p; second = q; pipe1 = i'; pipe2 = o' },
        ground (arith, a),
        ground (arith, b),
      )
  diamond_at p x q y i o t u a b = absurd (ground (arith, a, b))

  -- Steps of different sides may be made in either order: they use different ends of the pipes.
  pub diamond : Commute (first_step describe) (second_step describe)
  diamond s t u a b =
      diamond_at s.first.process s.first.read s.second.process s.second.read s.pipe1 s.pipe2 t u a b
