-- ===== src/Cmd/Identities.antt =====
-- The commands that add identities to the store of a server and list them (cmd/identity/identity.go).
-- A text is the codes of its ASCII characters, and the decoders are parameters. What is printed of the
-- list is the result, column by column, without the padding.
use ztg.Prelude.{
  succeeded, panicked, failed, Result-cases, Option, ℕ, ◌≡◌, ◌≤◌, false, List, [], ◌∷◌, ◌++◌, some,
  none, String, Result, ok, err, panic, wrap_err, if◌then◌else◌, ◌==◌, ◌&&◌, ◌||◌, ltb, length,
  take, length-take, length-append, map, arith, Bool-cases, inl, inr,
}
use ztg.Cmd.{new_client, Network, CommandError, decode_failed, over}
use ztg.Prelude.Bytes.{codes}
use ztg.Prelude.Exec.{Exec, ◌>>=◌, pure, lift, wrapping}
use ztg.Identity.Chain.{hex}
use ztg.Server.IdentityCache.{Identity}
use ztg.Server.IdentityService
use ztg.Server.IdentityService.{Service, StatusError}
use ztg.Server.IdentityService.Vouched.{IsVouched, add_identity-IsVouched}

-- `hex.DecodeString` and `base64.StdEncoding.DecodeString`.
pub record Decoders : Type 0 where
  pub hex_decode : List ℕ → Result String (List ℕ)
  pub base64_decode : List ℕ → Result String (List ℕ)

-- The text without "0x" or "0X" at its start.
abbrev pub without_prefix : List ℕ → List ℕ
without_prefix (a ∷ b ∷ rest) = if a == 48 && (b == 120 || b == 88) then rest else a ∷ b ∷ rest
without_prefix (a ∷ []) = a ∷ []
without_prefix [] = []

-- A text that is not hexadecimal is read as base64, without the prefix too.
unfoldable pub decode_key : Decoders → List ℕ → Result CommandError (List ℕ)
decode_key d text = elim (d.hex_decode (without_prefix text)) [
  | ok key ↦ ok key
  | err _ ↦ wrap_err decode_failed (d.base64_decode (without_prefix text))
  | panic ↦ panic
]

abbrev pub new_identity : ℕ → List ℕ → String → String → String → Identity
new_identity now key peer_addr peer_name owner_name = record {
  public_key = key;
  server_address = peer_addr;
  server_name = peer_name;
  owner_name = owner_name;
  capabilities = "ztg.FactorFight.v1" ∷ "ztg.HighRoll.v1" ∷ [];
  created_at = some now;
  is_trusted = false;
  trust_updated_at = none;
}

-- A line of the list.
pub record Listed : Type 0 where
  pub server_address : String
  pub server_name : String
  pub owner_name : String
  pub trusted : String
  pub public_key : List ℕ

-- `hex.EncodeToString`, cut where it is longer than its column.
unfoldable pub listed_key : List ℕ → List ℕ
listed_key key = if ltb 20 (length (hex key)) then take 17 (hex key) ++ codes "..." else hex key

abbrev pub listed : Identity → Listed
listed i = record {
  server_address = i.server_address;
  server_name = i.server_name;
  owner_name = i.owner_name;
  trusted = if i.is_trusted then "Yes" else "No";
  public_key = listed_key i.public_key;
}

module _ {C W : Type 0} (n : Network C W) where
  unfoldable pub add_identity :
      Decoders → ℕ → String → String → String → String → List ℕ → Exec W CommandError (Unit {0})
  add_identity d now server_addr peer_addr peer_name owner_name text = do
    key ← lift (decode_key d text)
    over n server_addr
        (λ conn. n.add_identity conn (new_identity now key peer_addr peer_name owner_name))

  unfoldable pub list_identities : String → Exec W CommandError (List Listed)
  list_identities server_addr = do
    identities ← over n server_addr n.list_identities
    pure (map listed identities)

-- A key fits its column.
length-listed_key : (key : List ℕ) → length (listed_key key) ≤ 20
unfolding listed_key
length-listed_key key = elim (Bool-cases (ltb 20 (length (hex key)))) [
  | inl h ↦
      rw h
        (omega (arith, length-append (take 17 (hex key)) (codes "..."), length-take 17 (hex key)))
  | inr h ↦ ground (arith, h)
]

module _ {C W : Type 0} (n : Network C W) (d : Decoders) (s : Service W)
    (parse : String → Option String) where
  -- A command that succeeds over a connection to a server has read a key of 32 bytes, and if the
  -- peer's address is a URL with a host then the server there reports this key.
  add_identity-keeps_key :
      (text : StatusError → String) (now later : ℕ)
      (server_addr peer_addr peer_name owner_name : String) (typed : List ℕ) (conn : C) (w w' : W)
      → new_client n server_addr w ≡ (ok conn, w')
      → ((i : Identity) (v : W)
          → n.add_identity conn i v
            ≡ wrapping text (IdentityService.add_identity s parse later i) v)
      → (add_identity n d now server_addr peer_addr peer_name owner_name typed w).0 ≡ ok tt
      → (key : List ℕ) × (decode_key d typed ≡ ok key)
        × (length key ≡ 32)
        × IsVouched s (parse peer_addr) (new_identity now key peer_addr peer_name owner_name) w'
  unfolding add_identity
  add_identity-keeps_key text now later server_addr peer_addr peer_name owner_name typed conn w w'
        dialled reached h =
      elim (Result-cases (decode_key d typed)) [
        | failed e q ↦ absurd (ground (arith, q, h))
        | panicked q ↦ absurd (ground (arith, q, h))
        | succeeded key q ↦
            let i = new_identity now key peer_addr peer_name owner_name in
            elim (Result-cases (IdentityService.add_identity s parse later i w').0) [
              | failed e u ↦ absurd (ground (arith, q, dialled, reached i w', u, h))
              | panicked u ↦ absurd (ground (arith, q, dialled, reached i w', u, h))
              | succeeded _ u ↦
                  let v = add_identity-IsVouched s parse later i w' u in (key, q, v.0, v.2)
            ]
      ]
