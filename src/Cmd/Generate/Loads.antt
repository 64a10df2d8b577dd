-- ===== src/Cmd/Generate/Loads.antt =====
-- The keys that the command generates are those that a server loads (cmd/key/key.go,
-- identity/key.go).
use Prim.Native.String.{String}
use text.Mathlib.TextLemmas.{append-nil, append_cancel_left}
use ztg.Prelude.{
  sym, ◌∙◌, ℕ, ap, Result-cases, succeeded, failed, panicked, ◌≡◌, ◌≢◌, List, some, Result, ok,
  arith,
}
use ztg.Identity.Keys.{
  KeyLibrary, Block, ed25519, load_key_from_file, load_key_from_string, read_public_key,
}
use ztg.Cmd.Generate.{KeyWriter, public_key_path, generate_key_pair}

-- What the command and the readers of keys rely on: decoders undo the encoders, a generated public key
-- is the part of the private one, and a written file is read back, as long as no other is written to
-- its path. `read` is what a file holds.
pub record ReadsBack {W : Type 0} (k : KeyWriter W) (l : KeyLibrary)
    (read : W → String → Result String String) : Type 0 where
  pub private_parsed :
      (key bytes : List ℕ)
      → k.marshal_pkcs8_private_key key ≡ ok bytes
      → let b : Block = record { type = "ED25519 PRIVATE KEY"; bytes = bytes } in
        (l.pem_decode (k.pem_encode b) ≡ some b)
        × (l.parse_pkcs8_private_key bytes ≡ ok (ed25519 key))
  pub public_parsed :
      (key bytes : List ℕ)
      → k.marshal_pkix_public_key key ≡ ok bytes
      → let b : Block = record { type = "ED25519 PUBLIC KEY"; bytes = bytes } in
        (l.pem_decode (k.pem_encode b) ≡ some b)
        × (l.parse_pkix_public_key bytes ≡ ok (ed25519 key))
  pub generated :
      (w : W) (keys : List ℕ × List ℕ)
      → (k.generate_key w).0 ≡ ok keys
      → keys.0 ≡ l.public_part keys.1
  pub written :
      (path text : String) (w : W)
      → (k.write_file path text w).0 ≡ ok tt
      → read (k.write_file path text w).1 path ≡ ok text
  pub kept :
      (path other text : String) (w : W)
      → path ≢ other
      → read (k.write_file path text w).1 other ≡ read w other

suffix-nonempty : ◌≢◌ {A = String} ".pub" ""
suffix-nonempty e = cc

public_key_path-differs : (path : String) → public_key_path path ≢ path
public_key_path-differs path e =
    suffix-nonempty (append_cancel_left path ".pub" "" (e ∙ sym (append-nil path)))

module _ {W : Type 0} (k : KeyWriter W) (l : KeyLibrary) (read : W → String → Result String String)
    (laws : ReadsBack k l read) where
  -- The library as it reads the files of this world.
  abbrev pub reading : W → KeyLibrary
  reading w = record l { read_file = read w }

  abbrev private_text : List ℕ → String
  private_text bytes = k.pem_encode (record { type = "ED25519 PRIVATE KEY"; bytes = bytes })

  abbrev public_text : List ℕ → String
  public_text bytes = k.pem_encode (record { type = "ED25519 PUBLIC KEY"; bytes = bytes })

  private_loaded :
      (path : String) (key bytes : List ℕ) (w : W)
      → k.marshal_pkcs8_private_key key ≡ ok bytes
      → read w path ≡ ok (private_text bytes)
      → load_key_from_file (reading w) path ≡ ok (key, l.public_part key)
  unfolding load_key_from_file load_key_from_string
  private_loaded path key bytes w encoded holds =
      ground (arith, holds, laws.private_parsed key bytes encoded)

  public_read :
      (key bytes : List ℕ) (w : W)
      → k.marshal_pkix_public_key key ≡ ok bytes
      → read_public_key (reading w) (public_text bytes) ≡ ok key
  unfolding read_public_key
  public_read key bytes w encoded = ground (arith, laws.public_parsed key bytes encoded)

  -- What a command that succeeds has done, from its new keys to the two files.
  record IsGenerated (path : String) (w after : W) : Type 0 where
    public_key : List ℕ
    private_key : List ℕ
    private_bytes : List ℕ
    public_bytes : List ℕ
    made : W
    new : (k.generate_key w).0 ≡ ok (public_key, private_key)
    private_encoded : k.marshal_pkcs8_private_key private_key ≡ ok private_bytes
    public_encoded : k.marshal_pkix_public_key public_key ≡ ok public_bytes
    private_written : (k.write_file path (private_text private_bytes) made).0 ≡ ok tt
    public_written :
        (k.write_file
          (public_key_path path)
          (public_text public_bytes)
          (k.write_file path (private_text private_bytes) made).1).0
        ≡ ok tt
    same :
        after
        ≡ (k.write_file
            (public_key_path path)
            (public_text public_bytes)
            (k.write_file path (private_text private_bytes) made).1).1

  generate_key_pair-IsGenerated :
      (path : String) (w : W)
      → (generate_key_pair k path w).0 ≡ ok tt
      → IsGenerated path w (generate_key_pair k path w).1
  unfolding generate_key_pair
  generate_key_pair-IsGenerated path w h = elim (Result-cases (k.generate_key w).0) [
    | failed e q ↦ absurd (ground (arith, q, h))
    | panicked q ↦ absurd (ground (arith, q, h))
    | succeeded keys q ↦ elim (Result-cases (k.marshal_pkcs8_private_key keys.1)) [
      | failed e r ↦ absurd (ground (arith, q, r, h))
      | panicked r ↦ absurd (ground (arith, q, r, h))
      | succeeded bytes r ↦
          let made = k.mkdir_all (k.dir path) (k.generate_key w).1 in
          let put = k.write_file path (private_text bytes) made.1 in
          elim (Result-cases made.0) [
            | failed e t ↦ absurd (ground (arith, q, r, t, h))
            | panicked t ↦ absurd (ground (arith, q, r, t, h))
            | succeeded _ t ↦ elim (Result-cases put.0) [
              | failed e u ↦ absurd (ground (arith, q, r, t, u, h))
              | panicked u ↦ absurd (ground (arith, q, r, t, u, h))
              | succeeded _ u ↦ elim (Result-cases (k.marshal_pkix_public_key keys.0)) [
                | failed e v ↦ absurd (ground (arith, q, r, t, u, v, h))
                | panicked v ↦ absurd (ground (arith, q, r, t, u, v, h))
                | succeeded bytes' v ↦
                    let end = k.write_file (public_key_path path) (public_text bytes') put.1 in
                    elim (Result-cases end.0) [
                      | failed e x ↦ absurd (ground (arith, q, r, t, u, v, x, h))
                      | panicked x ↦ absurd (ground (arith, q, r, t, u, v, x, h))
                      | succeeded _ x ↦ record {
                        public_key = keys.0;
                        private_key = keys.1;
                        private_bytes = bytes;
                        public_bytes = bytes';
                        made = made.1;
                        new = q;
                        private_encoded = r;
                        public_encoded = v;
                        private_written = u;
                        public_written = x;
                        same = ground (arith, q, r, t, u, v, x);
                      }
                    ]
              ]
            ]
          ]
    ]
  ]

  -- If the command that generates keys ends without an error, a private key is loaded from its file
  -- together with its public part, and this is the key that the file of the public key holds.
  pub generate_key_pair-loads :
      (path : String) (w : W)
      → (generate_key_pair k path w).0 ≡ ok tt
      → let after = (generate_key_pair k path w).1 in
        (key : List ℕ) × (load_key_from_file (reading after) path ≡ ok (key, l.public_part key))
        × (text : String) × (read after (public_key_path path) ≡ ok text)
        × (read_public_key (reading after) text ≡ ok (l.public_part key))
  generate_key_pair-loads path w h =
      let g = generate_key_pair-IsGenerated path w h in
      let part : g.public_key ≡ l.public_part g.private_key = laws.generated w _ g.new in
      let after = (generate_key_pair k path w).1 in
      let held : read after path ≡ ok (private_text g.private_bytes) = rw g.same (
        laws.kept (public_key_path path) path _ _ (public_key_path-differs path)
        ∙ laws.written path _ g.made g.private_written) in
      (
        g.private_key,
        private_loaded path g.private_key g.private_bytes after g.private_encoded held,
        public_text g.public_bytes,
        rw g.same (laws.written _ _ _ g.public_written),
        public_read g.public_key g.public_bytes after g.public_encoded ∙ ap ok part,
      )
