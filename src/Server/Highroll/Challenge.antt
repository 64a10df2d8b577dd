-- ===== src/Server/Highroll/Challenge.antt =====
-- What a challenge at high roll tells (server/highroll/service.go).
use ztg.Prelude.{
  ℕ, ◌≤◌, ◌≡◌, refl, List, [], ◌∷◌, ok, arith, Result-cases, succeeded, failed, panicked, length,
  All, some, String, if◌then◌else◌, ◌==◌, ltb,
}
use ztg.Prelude.Exec.{Exec}
use ztg.Dice.Roller.{Roller, new_roller}
use ztg.Dice.Roller.Faces.{IsFace}
use ztg.Dice.Process.{roll_sync_over, on_peer}
use ztg.Dice.Process.Faces.{roll_sync_over-IsFace}
use ztg.Server.Pair.{create_signer_verifier_pair}
use ztg.Server.GameService.{ChallengeResponse}
use ztg.Server.Highroll.{
  Stream, Service, new_peer, new_roller_of, roll_over, challenge, response_of,
}

abbrev ten : Roller
ten = record { sides = 10; roll_value_limit = 65530 }

module _ {W : Type 0} (s : Service W) where
  roll_over-IsFace :
      (stream : Stream W) (n : ℕ) (w : W) (rolls : List ℕ)
      → (roll_over s stream n w).0 ≡ ok rolls
      → (length rolls ≡ n) × All (IsFace ten) rolls
  unfolding roll_over new_roller_of new_roller
  roll_over-IsFace stream n w rolls h =
      let (signer, verifier) = create_signer_verifier_pair s.private_key s.server_addr in
      let (r, x) =
        roll_sync_over (on_peer s.host) ten (new_peer s signer stream) n (some verifier, w) in
      elim (Result-cases r) [
        | failed e u ↦ absurd (ground (arith, u, h))
        | panicked u ↦ absurd (ground (arith, u, h))
        | succeeded rs u ↦
            let same : rs ≡ rolls = ground (arith, u, h) in
            rw (← same) (
              roll_sync_over-IsFace (on_peer s.host) ten (new_peer s signer stream) n
                (some verifier, w) rs (omega arith) u)
      ]

-- The response shows two rolls of a ten-sided die.
pub record IsShown (response : ChallengeResponse) : Type 0 where
  pub first : ℕ
  pub second : ℕ
  pub first_face : (1 ≤ first) × (first ≤ 10)
  pub second_face : (1 ≤ second) × (second ≤ 10)
  pub won : response.win ≡ some (ltb second first)
  pub draw : response.message ≡ (if first == second then "Draw!" else "")

response_of-IsShown :
    (rolls : List ℕ) (response : ChallengeResponse)
    → (length rolls ≡ 2) × All (IsFace ten) rolls
    → response_of rolls ≡ ok response
    → IsShown response
response_of-IsShown [] response h q = absurd (omega (arith, h.0))
response_of-IsShown (a ∷ []) response h q = absurd (omega (arith, h.0))
response_of-IsShown (a ∷ b ∷ rolls) response h q =
    let same : (record { win = some (ltb b a); message = if a == b then "Draw!" else "" })
        ≡ response =
      cc in
    rw (← same) (record {
      first = a;
      second = b;
      first_face = h.1.0;
      second_face = h.1.1.0;
      won = refl;
      draw = refl;
    })

-- Whatever the peer sends, a challenge that succeeds has rolled two ten-sided dice with it: it is won
-- exactly if the first die shows more than the second, and "Draw!" is told exactly if they are equal.
challenge-IsShown :
    {W : Type 0} (s : Service W) (new_stream : Exec W String (Stream W)) (w : W)
    (response : ChallengeResponse)
    → (challenge s new_stream w).0 ≡ ok response
    → IsShown response
unfolding challenge
challenge-IsShown s new_stream w response h = elim (Result-cases (new_stream w).0) [
  | failed e u ↦ absurd (ground (arith, u, h))
  | panicked u ↦ absurd (ground (arith, u, h))
  | succeeded stream u ↦ elim (Result-cases (roll_over s stream 2 (new_stream w).1).0) [
    | failed e v ↦ absurd (ground (arith, u, v, h))
    | panicked v ↦ absurd (ground (arith, u, v, h))
    | succeeded rolls v ↦ elim (Result-cases (response_of rolls)) [
      | failed e x ↦ absurd (ground (arith, u, v, x, h))
      | panicked x ↦ absurd (ground (arith, u, v, x, h))
      | succeeded shown x ↦
          let same : shown ≡ response = ground (arith, u, v, x, h) in
          response_of-IsShown rolls response (roll_over-IsFace s stream 2 (new_stream w).1 rolls v)
            (rw (← same) x)
    ]
  ]
]
