-- ===== src/Dice/Channels/Confluent.antt =====
-- The order in which the two sides go on (dice/channel_peer.go).
use ztg.Prelude.{◌≡◌, Option, none, some, arith}
use ztg.Prelude.Turns.{Commute}
use ztg.Dice.Message.{Message}
use ztg.Dice.Process.{Process, send, recv}
use ztg.Dice.Channels.{System, act, first_step, second_step}

abbrev system : Process → Process → Option Message → Option Message → System
system p q i o = record { first = p; second = q; in1 = i; in2 = o }

diamond_at :
    (p q : Process) (i o : Option Message) (t u : System)
    → first_step (system p q i o) ≡ some t
    → second_step (system p q i o) ≡ some u
    → (v : System) × (second_step t ≡ some v) × (first_step u ≡ some v)
unfolding first_step second_step act
diamond_at (send w m k) (send w' n k') none none t u a b =
    (system k k' (some n) (some m), ground (arith, a), ground (arith, b))
diamond_at (recv w k) (recv w' k') (some m) (some n) t u a b =
    (system (k m) (k' n) none none, ground (arith, a), ground (arith, b))
diamond_at p q i o t u a b = absurd (ground (arith, a, b))

-- Steps of different sides may be made in either order: they use different ends of the channels.
pub diamond : Commute first_step second_step
diamond s t u a b = diamond_at s.first s.second s.in1 s.in2 t u a b
