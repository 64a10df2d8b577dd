-- ===== src/Identity/Chain.antt =====
-- The chain of hashes of a sender (identity/chain.go); SHA-256 is a parameter.
use ztg.Prelude.{
  ℕ, ◌+◌, ◌/◌, ◌%◌, ◌^◌, ◌<◌, ◌≡◌, refl, sym, ◌∙◌, ap, ◌↔◌, Bool, true, false, List, [], ◌∷◌, ◌++◌,
  arith, not, if◌then◌else◌, ◌==◌, ltb, All,
}
use ztg.Prelude.Bytes.{bytes_eq, bytes_eq_sound, bytes_eq_refl}

pub record HashChain : Type 0 where
  pub previous_hash : List ℕ
  pub sequence : ℕ

unfoldable pub new_hash_chain : HashChain
new_hash_chain = record { previous_hash = []; sequence = 0 }

-- The eight bytes of a `uint64`, the lowest first.
abbrev pub sequence_bytes : ℕ → List ℕ
sequence_bytes n =
    (n % 256)
    ∷ (n / 2 ^ 8 % 256)
    ∷ (n / 2 ^ 16 % 256)
    ∷ (n / 2 ^ 24 % 256)
    ∷ (n / 2 ^ 32 % 256)
    ∷ (n / 2 ^ 40 % 256)
    ∷ (n / 2 ^ 48 % 256)
    ∷ (n / 2 ^ 56 % 256)
    ∷ []

-- The code of a lower-case hexadecimal digit, and the text `%x` of some bytes.
abbrev pub digit : ℕ → ℕ
digit d = if ltb d 10 then 48 + d else 87 + d

abbrev pub hex : List ℕ → List ℕ
hex [] = []
hex (b ∷ bs) = digit (b / 16) ∷ digit (b % 16) ∷ hex bs

module _ (sha256 : List ℕ → List ℕ) where
  abbrev pub hash_of : HashChain → List ℕ → ℕ → List ℕ
  hash_of hc data' sequence = sha256 (hc.previous_hash ++ data' ++ sequence_bytes sequence)

  unfoldable pub next_hash : List ℕ → HashChain → List ℕ × HashChain
  next_hash data' hc =
      let hash = hash_of hc data' hc.sequence in
      (hash, record { previous_hash = hash; sequence = (hc.sequence + 1) % 2 ^ 64 })

  unfoldable pub verify_hash : List ℕ → List ℕ → ℕ → HashChain → Bool
  verify_hash expected data' sequence hc =
      if not (sequence == hc.sequence)
      then false
      else bytes_eq (hex (hash_of hc data' sequence)) (hex expected)

abbrev pub IsBytes : List ℕ → Type 0
IsBytes = All (λ b. b < 256)

digit_injective : (m n : ℕ) → m < 16 → n < 16 → digit m ≡ digit n → m ≡ n
digit_injective m n h k e = ground arith

byte_injective :
    (a b : ℕ)
    → a < 256
    → b < 256
    → digit (a / 16) ≡ digit (b / 16)
    → digit (a % 16) ≡ digit (b % 16)
    → a ≡ b
byte_injective a b h k e f =
    let high : a / 16 ≡ b / 16 = digit_injective (a / 16) (b / 16) (omega arith) (omega arith) e in
    let low : a % 16 ≡ b % 16 = digit_injective (a % 16) (b % 16) (omega arith) (omega arith) f in
    omega arith

hex_injective : (xs ys : List ℕ) → IsBytes xs → IsBytes ys → hex xs ≡ hex ys → xs ≡ ys
hex_injective [] [] h k e = refl
hex_injective [] (_ ∷ _) h k e = absurd cc
hex_injective (_ ∷ _) [] h k e = absurd cc
hex_injective (x ∷ xs) (y ∷ ys) h k e =
    let high : digit (x / 16) ≡ digit (y / 16) = cc in
    let low : digit (x % 16) ≡ digit (y % 16) = cc in
    let others : hex xs ≡ hex ys = cc in
    let first : x ≡ y = byte_injective x y h.0 k.0 high low in
    let rest : xs ≡ ys = hex_injective xs ys h.1 k.1 others in cc (first, rest)

module _ (sha256 : List ℕ → List ℕ) (byte_hash : (bs : List ℕ) → IsBytes (sha256 bs)) where
  -- The check of a hash accepts exactly the hash that the chain makes next of the same data, at its
  -- own sequence.
  pub verify_hash-next_hash :
      (expected data' : List ℕ) (sequence : ℕ) (hc : HashChain)
      → IsBytes expected
      → (verify_hash sha256 expected data' sequence hc ≡ true)
        ↔ ((sequence ≡ hc.sequence) × (expected ≡ (next_hash sha256 data' hc).0))
  unfolding verify_hash next_hash
  verify_hash-next_hash expected data' sequence hc h = (there, back)
    where
      there :
          verify_hash sha256 expected data' sequence hc ≡ true
          → (sequence ≡ hc.sequence) × (expected ≡ (next_hash sha256 data' hc).0)
      there v =
          let same : sequence ≡ hc.sequence = ground (arith, v) in
          let texts : hex (hash_of sha256 hc data' sequence) ≡ hex expected =
            bytes_eq_sound _ _ (ground (arith, v, same)) in
          (
            same,
            sym (hex_injective _ expected (byte_hash _) h texts)
                ∙ ap (hash_of sha256 hc data') same,
          )

      back :
          (sequence ≡ hc.sequence) × (expected ≡ (next_hash sha256 data' hc).0)
          → verify_hash sha256 expected data' sequence hc ≡ true
      back (e, f) =
          let r = bytes_eq_refl (hex (hash_of sha256 hc data' hc.sequence)) in
          rw (e, f) (ground (arith, r))
