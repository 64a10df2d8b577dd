-- ===== src/Dice/Protocol/Outcome.antt =====
-- What a roll that succeeds has exchanged with the peer, whatever the peer does.
use ztg.Prelude.{
  ap, subst, ◌∙◌, ℕ, ◌≡◌, inl, inr, List, ◌∷◌, arith, Result, ok, Result-cases, succeeded, failed,
  panicked, Option-cases,
}
use ztg.Prelude.Bytes.{bytes_eq_sound}
use ztg.Dice.Message.{Message, commitment, secret, roll_confirmation}
use ztg.Dice.Roller.{Roller, roll}
use ztg.Dice.Protocol.{
  sent, received, Trace, Peer, Error, Context, msg, calculate_commitment, verify_commitment,
  roll_sum, exchange, encode_rolls, confirm_roll, roll_with,
}

module _ (sha256 : List ℕ → List ℕ) (p : Peer) where
  abbrev first_message : List ℕ → Message
  first_message s = msg commitment (calculate_commitment sha256 s)

  -- The peer's messages of an exchange that succeeded from the trace `tr` and left the trace `tr'`.
  pub record IsExchange (s peer_secret : List ℕ) (tr tr' : Trace) : Type 0 where
    pub commitment_msg : Message
    pub secret_msg : Message
    pub order :
        tr'
        ≡ received secret_msg
          ∷ sent (msg secret s)
          ∷ received commitment_msg
          ∷ sent (msg commitment (calculate_commitment sha256 s))
          ∷ tr
    pub is_commitment : commitment_msg.type ≡ commitment
    pub is_secret : secret_msg.type ≡ secret
    pub revealed : secret_msg.data' ≡ peer_secret
    pub bound : calculate_commitment sha256 peer_secret ≡ commitment_msg.data'

  pub verified :
      (a b : List ℕ) → verify_commitment sha256 a b ≡ ok tt → calculate_commitment sha256 a ≡ b
  unfolding verify_commitment
  verified a b h = bytes_eq_sound _ _ (ground (arith, h))

  exchange-IsExchange :
      (ctx : Context) (s peer_secret : List ℕ) (tr : Trace)
      → (exchange sha256 p ctx s tr).0 ≡ ok peer_secret
      → IsExchange s peer_secret tr (exchange sha256 p ctx s tr).1
  unfolding exchange
  exchange-IsExchange ctx s x tr h = elim (Option-cases (p.send tr (first_message s))) [
    | inr (e, q) ↦ absurd (ground (arith, q, h))
    | inl q ↦
        let tr1 = sent (first_message s) ∷ tr in
        elim (Result-cases (p.recv tr1)) [
          | failed e r ↦ absurd (ground (arith, q, r, h))
          | panicked r ↦ absurd (ground (arith, q, r, h))
          | succeeded c r ↦
              let tr2 = sent (msg secret s) ∷ received c ∷ tr1 in
              elim (Option-cases (p.send (received c ∷ tr1) (msg secret s))) [
                | inr (e, t) ↦ absurd (ground (arith, q, r, t, h))
                | inl t ↦ elim (Result-cases (p.recv tr2)) [
                  | failed e u ↦ absurd (ground (arith, q, r, t, u, h))
                  | panicked u ↦ absurd (ground (arith, q, r, t, u, h))
                  | succeeded d u ↦
                      let check : verify_commitment sha256 d.data' c.data' ≡ ok tt =
                        ground (arith, q, r, t, u, h) in
                      let shown : d.data' ≡ x = ground (arith, q, r, t, u, h) in
                      record {
                        commitment_msg = c;
                        secret_msg = d;
                        order = ground (arith, q, r, t, u, h);
                        is_commitment = ground (arith, q, r, t, u, h);
                        is_secret = ground (arith, q, r, t, u, h);
                        revealed = shown;
                        bound = rw (← shown) (verified _ _ check);
                      }
                ]
              ]
        ]
  ]

  -- The peer's confirmation of rolls that were confirmed.
  pub record IsConfirmed (rolls : List ℕ) (tr tr' : Trace) : Type 0 where
    pub confirmation : Message
    pub order : tr' ≡ received confirmation ∷ sent (msg roll_confirmation (encode_rolls rolls)) ∷ tr
    pub is_confirmation : confirmation.type ≡ roll_confirmation
    pub agrees : encode_rolls rolls ≡ confirmation.data'

  confirm_roll-IsConfirmed :
      (rolls : List ℕ) (tr : Trace)
      → (confirm_roll sha256 p rolls tr).0 ≡ ok tt
      → IsConfirmed rolls tr (confirm_roll sha256 p rolls tr).1
  unfolding confirm_roll
  confirm_roll-IsConfirmed rolls tr h =
      let own = msg roll_confirmation (encode_rolls rolls) in
      elim (Option-cases (p.send tr own)) [
        | inr (e, q) ↦ absurd (ground (arith, q, h))
        | inl q ↦ elim (Result-cases (p.recv (sent own ∷ tr))) [
          | failed e r ↦ absurd (ground (arith, q, r, h))
          | panicked r ↦ absurd (ground (arith, q, r, h))
          | succeeded m r ↦ record {
            confirmation = m;
            order = ground (arith, q, r, h);
            is_confirmation = ground (arith, q, r, h);
            agrees = bytes_eq_sound _ _ (ground (arith, q, r, h));
          }
        ]
      ]

  pub record IsRoll (r : Roller) (s rolls : List ℕ) (tr tr' : Trace) : Type 0 where
    pub peer_secret : List ℕ
    pub between : Trace
    pub exchanged : IsExchange s peer_secret tr between
    pub computed :
        ◌≡◌ {A = Result Error (List ℕ)} (roll r (roll_sum sha256 s peer_secret)) (ok rolls)
    pub confirmed : IsConfirmed rolls between tr'

  -- Whatever the peer does, a roll that succeeds exchanged six messages in the order of the
  -- protocol: our secret left after the peer's commitment came, the peer's secret hashes to that
  -- commitment, the rolls are those of the two secrets, and the peer confirmed the same rolls.
  pub roll_with-IsRoll :
      (r : Roller) (ctx : Context) (s rolls : List ℕ) (tr : Trace)
      → (roll_with sha256 p r ctx s tr).0 ≡ ok rolls
      → IsRoll r s rolls tr (roll_with sha256 p r ctx s tr).1
  unfolding roll_with
  roll_with-IsRoll r ctx s rolls tr h = elim (Result-cases (exchange sha256 p ctx s tr).0) [
    | failed e q ↦ absurd (ground (arith, q, h))
    | panicked q ↦ absurd (ground (arith, q, h))
    | succeeded x q ↦
        let mid = (exchange sha256 p ctx s tr).1 in
        let rolled : Result Error (List ℕ) = roll r (roll_sum sha256 s x) in
        elim (Result-cases rolled) [
          | failed e u ↦ absurd (ground (arith, q, u, h))
          | panicked u ↦ absurd (ground (arith, q, u, h))
          | succeeded rs u ↦ elim (Result-cases (confirm_roll sha256 p rs mid).0) [
            | failed e v ↦ absurd (ground (arith, q, u, v, h))
            | panicked v ↦ absurd (ground (arith, q, u, v, h))
            | succeeded _ v ↦
                let same : rs ≡ rolls = ground (arith, q, u, v, h) in
                let last : (roll_with sha256 p r ctx s tr).1 ≡ (confirm_roll sha256 p rs mid).1 =
                  ground (arith, q, u, v) in
                rw last (record {
                  peer_secret = x;
                  between = mid;
                  exchanged = exchange-IsExchange ctx s x tr q;
                  computed = u ∙ ap ok same;
                  confirmed =
                      subst (λ z. IsConfirmed z mid (confirm_roll sha256 p rs mid).1) same
                        (confirm_roll-IsConfirmed rs mid v);
                })
          ]
        ]
  ]
