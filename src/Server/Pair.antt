-- ===== src/Server/Pair.antt =====
-- The signer and the verifier of a game (server/signer_verifier.go). Times are in nanoseconds.
use ztg.Prelude.{ℕ, ◌*◌, List, String}
use ztg.Server.Signer.{Signer}
use ztg.Server.Verifier.{Verifier, new_verifier}

-- Five minutes.
abbrev pub default_verifier_ttl : ℕ
default_verifier_ttl = 5 * 60 * 1000000000

abbrev pub default_die_sides : ℕ
default_die_sides = 10

abbrev pub new_signer : List ℕ → String → Signer
new_signer private_key server_addr = record { private_key = private_key; address = server_addr }

unfoldable pub create_signer_verifier_pair : List ℕ → String → Signer × Verifier
unfolding new_verifier
create_signer_verifier_pair private_key server_addr =
    (new_signer private_key server_addr, new_verifier default_verifier_ttl)
