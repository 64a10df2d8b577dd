-- ===== src/Cmd/Line/Declared.antt =====
-- The flags that the commands read (cmd/trust/trust.go, cmd/challenge/challenge.go,
-- cmd/identity/identity.go, cmd/key/key.go).
use ztg.Prelude.{
  any, not, flat_map, ◌≡◌, refl, List, [], ◌∷◌, Bool, true, String, All, All-In, In, ◌&&◌,
  if◌then◌else◌,
}
use text.Mathlib.Text.{◌==◌ as str_eq}
use ztg.Cmd.Line.{
  Tools, Command, Group, key_group, challenge_group, trust_group, identity_group, root, action,
  trust_send, trust_create, challenge_send, challenge_create, identity_add, identity_list,
  key_generate, timeout,
}
use ztg.Identity.Keys.{Cache}
use ztg.Cmd.Flags.{Value, string_value, bool_value, int_value, Flag, Parsed}

timeout-same : (p q : Parsed) → p.int "timeout" ≡ q.int "timeout" → timeout p ≡ timeout q
unfolding timeout
timeout-same p q e = rw e refl

-- Two command lines give the flag the same value.
abbrev pub AgreeBy : Parsed → Parsed → String → Value → Type 0
AgreeBy p q name (string_value _) = p.string name ≡ q.string name
AgreeBy p q name (bool_value _) = p.bool name ≡ q.bool name
AgreeBy p q name (int_value _) = p.int name ≡ q.int name

abbrev pub Agree : Parsed → Parsed → Flag → Type 0
Agree p q f = AgreeBy p q f.name f.value

-- The name and the aliases of each flag.
abbrev pub spellings : List Flag → List String
spellings fs = flat_map (λ (f : Flag). f.name ∷ f.aliases) fs

abbrev pub is_distinct : List String → Bool
is_distinct [] = true
is_distinct (x ∷ xs) = not (any xs (str_eq x)) && is_distinct xs

-- No two flags are spelled alike, and what the action of the command does with two command lines that
-- give its flags the same values is the same.
abbrev IsDeclared : {C W : Type 0} → Tools C W → Parsed → Parsed → Command → Type 0
IsDeclared {C} {W} t p q c =
    All (Agree p q) c.flags
    → (is_distinct (spellings c.flags) ≡ true)
      × ((s : Cache × W) → action c.action t p s ≡ action c.action t q s)

module _ {C W : Type 0} (t : Tools C W) (p q : Parsed) where
  key_group-IsDeclared : All (IsDeclared t p q) key_group.commands
  unfolding action key_generate
  key_group-IsDeclared = (λ h. (refl, λ s. rw (h.0) refl), tt)

  challenge_group-IsDeclared : All (IsDeclared t p q) challenge_group.commands
  unfolding action challenge_send challenge_create
  challenge_group-IsDeclared = (
    λ h. (refl, λ s. rw (h.0, h.1.0, h.1.1.0, h.1.1.1.0, timeout-same p q h.1.1.1.1.0) refl),
    (λ h. (refl, λ s. rw (h.0, h.1.0, h.1.1.0, h.1.1.1.0) refl), tt),
  )

  trust_group-IsDeclared : All (IsDeclared t p q) trust_group.commands
  unfolding action trust_send trust_create
  trust_group-IsDeclared = (
    λ h. (refl, λ s. rw (h.0, h.1.0, h.1.1.0, h.1.1.1.0, timeout-same p q h.1.1.1.1.0) refl),
    (λ h. (refl, λ s. rw (h.0, h.1.0, h.1.1.0, h.1.1.1.0) refl), tt),
  )

  identity_group-IsDeclared : All (IsDeclared t p q) identity_group.commands
  unfolding action identity_add identity_list
  identity_group-IsDeclared = (
    λ h. (
      refl,
      λ s. rw (h.0, h.1.0, h.1.1.0, h.1.1.1.0, h.1.1.1.1.0, timeout-same p q h.1.1.1.1.1.1.0) refl,
    ),
    (λ h. (refl, λ s. rw (h.0, timeout-same p q h.1.0) refl), tt),
  )

  root-IsDeclared : All (λ (g : Group). All (IsDeclared t p q) g.commands) root
  root-IsDeclared = (
    key_group-IsDeclared,
    (challenge_group-IsDeclared, (trust_group-IsDeclared, (identity_group-IsDeclared, tt))),
  )

-- For every command in the program's table: its action depends on the flags that stand beside it
-- there, and on nothing else of a command line, so that two lines that give these the same values do
-- the same; and no two of its flags share a name or an alias.
pub action-IsDeclared :
    {C W : Type 0} (g : Group) (c : Command)
    → In g root
    → In c g.commands
    → (t : Tools C W) (p q : Parsed) → All (Agree p q) c.flags
    → (is_distinct (spellings c.flags) ≡ true)
      × ((s : Cache × W) → action c.action t p s ≡ action c.action t q s)
action-IsDeclared g c i j t p q h =
    All-In (IsDeclared t p q) c g.commands
      (All-In (λ (x : Group). All (IsDeclared t p q) x.commands) g root (root-IsDeclared t p q) i) j
      h

abbrev with_key_path : String → Parsed → Parsed
with_key_path path p = record p {
  string = λ name. if str_eq name "key-path" then path else p.string name;
}

-- The path of a key that the command to add an identity declares is not read.
identity_add-with_key_path :
    {C W : Type 0} (t : Tools C W) (path : String) (p : Parsed) (s : Cache × W)
    → identity_add t (with_key_path path p) s ≡ identity_add t p s
unfolding identity_add timeout
identity_add-with_key_path t path p s = refl
