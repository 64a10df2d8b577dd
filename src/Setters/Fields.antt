-- ===== src/Setters/Fields.antt =====
-- The setters that are generated for a file (cmd/protoc-gen-setters/main.go).
use ztg.Prelude.{
  ℕ, ◌≡◌, ◌∙◌, refl, sym, subst, ap, List, [], ◌∷◌, ◌++◌, true, false, ok, map, arith, Bool-cases,
  inl, inr, flat_map, All, if◌then◌else◌,
}
use mathlib.Core.List.{append_assoc, append-nil}
use ztg.Setters.{
  Text, Field, Message, File, Printer, GoIdent, skips, to_lower, setter_lines, print_all,
  type_ident, generate_setter, generate_message_setters, has_generate_setters, filename_of,
  header_lines, generate_messages, generate_file,
}

-- The fields that have a setter.
unfoldable kept : List Field → List Field
kept [] = []
kept (f ∷ fs) = let rest = kept fs in if skips f then rest else f ∷ rest

-- The lines of the setters of some fields, each with the text of its type.
abbrev all_lines : ℕ → Text → List (Field × Text) → List Text
all_lines c name typed =
    flat_map (λ (x : Field × Text). setter_lines (to_lower c ∷ []) (c ∷ name) x.0.go_name x.1) typed

abbrev IsNamed : Message → Type 0
IsNamed msg = (c : ℕ) × (name : Text) × (msg.go_ident.go_name ≡ c ∷ name)

module _ {G : Type 0} (p : Printer G) (lines : G → List Text) where
  -- What is printed stands at the end of the lines of the file.
  pub record IsPrinter : Type 0 where
    pub new : (name path : Text) → lines (p.new_generated_file name path) ≡ []
    pub qualified : (i : GoIdent) (g : G) → lines (p.qualified_go_ident i g).1 ≡ lines g
    pub printed : (l : Text) (g : G) → lines (p.print l g) ≡ lines g ++ l ∷ []

  -- The text of a field's type is what the file gave for its identifier.
  abbrev IsTyped : Field × Text → Type 0
  IsTyped y = (g : G) × (y.1 ≡ (p.qualified_go_ident (type_ident y.0) g).0)

  -- The files that the loop over some messages of a file makes.
  data AreMade (file : File) : List Message → List (Text × G) → Type 0 where
    none_left : AreMade file [] []
    passed :
        {msg : Message} {msgs : List Message} {made : List (Text × G)}
        → has_generate_setters msg ≡ false
        → AreMade file msgs made
        → AreMade file (msg ∷ msgs) made
    written :
        {msg : Message} {msgs : List Message} {made : List (Text × G)} (c : ℕ) (name : Text)
        (typed : List (Field × Text)) (g : G)
        → has_generate_setters msg ≡ true
        → msg.go_ident.go_name ≡ c ∷ name
        → map (λ (y : Field × Text). y.0) typed ≡ kept msg.fields
        → All IsTyped typed
        → lines g ≡ header_lines file.go_package_name ++ all_lines c name typed
        → AreMade file msgs made
        → AreMade file (msg ∷ msgs) ((filename_of file msg, g) ∷ made)

  module _ (x : IsPrinter) where
    lines-print_all : (ls : List Text) (g : G) → lines (print_all p ls g) ≡ lines g ++ ls
    unfolding print_all
    lines-print_all [] g = sym (append-nil (lines g))
    lines-print_all (l ∷ ls) g =
        lines-print_all ls (p.print l g) ∙ (rw (x.printed l g) (append_assoc (lines g) (l ∷ []) ls))

    -- The file of a message with a name, after the loop over some of its fields.
    generate_message_setters-lines :
        (c : ℕ) (name : Text) (fs : List Field) (g : G)
        → (g' : G) × (generate_message_setters p (c ∷ name) fs g ≡ ok g')
          × (typed : List (Field × Text)) × (map (λ (y : Field × Text). y.0) typed ≡ kept fs)
          × All IsTyped typed
          × (lines g' ≡ lines g ++ all_lines c name typed)
    unfolding generate_message_setters generate_setter kept
    generate_message_setters-lines c name [] g = (g, refl, [], refl, tt, sym (append-nil (lines g)))
    generate_message_setters-lines c name (f ∷ fs) g = elim (Bool-cases (skips f)) [
      | inl q ↦
          let (g', e, typed, k, a, l) = generate_message_setters-lines c name fs g in
          (g', rw q e, typed, rw q k, a, l)
      | inr q ↦
          let t = p.qualified_go_ident (type_ident f) g in
          let ls = setter_lines (to_lower c ∷ []) (c ∷ name) f.go_name t.0 in
          let (g', e, typed, k, a, l) =
            generate_message_setters-lines c name fs (print_all p ls t.1) in
          (
            g',
            rw q e,
            (f, t.0) ∷ typed,
            rw q (ap (λ (r : List Field). f ∷ r) k),
            ((g, refl), a),
            l
                ∙ rw (lines-print_all ls t.1, x.qualified (type_ident f) g)
                    (append_assoc (lines g) ls (all_lines c name typed)),
          )
    ]

    generate_messages-AreMade :
        (file : File) (msgs : List Message)
        → All IsNamed msgs
        → (made : List (Text × G)) × (generate_messages p file msgs ≡ ok made)
          × AreMade file msgs made
    unfolding generate_messages
    generate_messages-AreMade file [] h = ([], refl, none_left)
    generate_messages-AreMade file (msg ∷ msgs) ((c, name, named), h) =
        let (made, e, are) = generate_messages-AreMade file msgs h in
        elim (Bool-cases (has_generate_setters msg)) [
          | inr q ↦ (made, rw (q, e) refl, passed q are)
          | inl q ↦
              let start =
                print_all p (header_lines file.go_package_name)
                  (p.new_generated_file (filename_of file msg) file.go_import_path) in
              let (g, f, typed, k, a, l) = generate_message_setters-lines c name msg.fields start in
              let f' =
                subst (λ (z : Text). generate_message_setters p z msg.fields start ≡ ok g)
                  (sym named) f in
              (
                (filename_of file msg, g) ∷ made,
                ground (arith, q, f', e),
                written c name typed g q named k a
                    (l
                      ∙ ap (λ (r : List Text). r ++ all_lines c name typed)
                          (lines-print_all (header_lines file.go_package_name)
                              (p.new_generated_file (filename_of file msg) file.go_import_path)
                            ∙ ap (λ (r : List Text). r ++ header_lines file.go_package_name)
                                (x.new (filename_of file msg) file.go_import_path)))
                    are,
              )
        ]

    -- A file whose messages have names is generated without a panic: for each message with the option,
    -- in order, one file of its own, with the header and then four lines for each field that is not in
    -- a real oneof, in order: a method with the field's name that sets it to a pointer to the text that
    -- the file gave for the identifier of the field's type.
    generate_file-AreMade :
        (file : File)
        → All IsNamed file.messages
        → (made : List (Text × G)) × (generate_file p file ≡ ok made)
          × AreMade file file.messages made
    unfolding generate_file
    generate_file-AreMade file named = generate_messages-AreMade file file.messages named
