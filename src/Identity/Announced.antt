-- ===== src/Identity/Announced.antt =====
-- What a server says of itself (identity/identity.go). The clock is an argument, in nanoseconds; a
-- duration may be negative.
use ztg.Prelude.{
  ◌≤◌, ℕ, ◌≡◌, refl, ◌↔◌, Bool, true, List, String, any, In, In-any, any-In, subst, arith,
}
use ztg.Prelude.Int.{ℤ, sub_ℕ, ltb_ℤ}
use Prim.Native.String.{◌++◌ as str_append}
use text.Mathlib.Text.{◌==◌ as str_eq}
use text.Mathlib.TextEquality.{eq_iff}

pub record Identity : Type 0 where
  pub public_key : List ℕ
  pub server_addr : String
  pub server_name : String
  pub owner_name : String
  pub version : String
  pub capabilities : List String
  pub created_at : ℕ

abbrev pub new_identity : ℕ → List ℕ → String → String → String → String → List String → Identity
new_identity now public_key server_addr server_name owner_name version capabilities = record {
  public_key = public_key;
  server_addr = server_addr;
  server_name = server_name;
  owner_name = owner_name;
  version = version;
  capabilities = capabilities;
  created_at = now;
}

-- `slices.Contains`
unfoldable pub has_capability : Identity → String → Bool
has_capability i capability = any i.capabilities (λ c. str_eq c capability)

-- `time.Since(i.CreatedAt) > maxAge`
unfoldable pub is_expired : ℕ → ℤ → Identity → Bool
is_expired now max_age i = ltb_ℤ max_age (sub_ℕ now i.created_at)

unfoldable pub identity_string : Identity → String
identity_string i = str_append "Identity{Server: " (
    str_append i.server_name (
      str_append ", Owner: "
        (str_append i.owner_name (str_append ", Address: " (str_append i.server_addr "}")))))

-- An identity that is expired at a time is expired at each later one.
is_expired-later :
    (now later : ℕ) (max_age : ℤ) (i : Identity)
    → now ≤ later
    → is_expired now max_age i ≡ true
    → is_expired later max_age i ≡ true
unfolding is_expired
is_expired-later now later max_age i h e = ground (arith, h, e)

-- An identity has just the capabilities that it lists.
has_capability_iff : (i : Identity) (c : String) → (has_capability i c ≡ true) ↔ In c i.capabilities
unfolding has_capability
has_capability_iff i c = (there, back)
  where
    there : any i.capabilities (λ x. str_eq x c) ≡ true → In c i.capabilities
    there h =
        let (x, member, same) = any-In (λ x. str_eq x c) i.capabilities h in
        subst (λ z. In z i.capabilities) ((eq_iff x c).0 same) member

    back : In c i.capabilities → any i.capabilities (λ x. str_eq x c) ≡ true
    back member = In-any (λ x. str_eq x c) c i.capabilities member ((eq_iff c c).1 refl)
