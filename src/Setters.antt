-- ===== src/Setters.antt =====
-- The generator of setters for the fields of messages (cmd/protoc-gen-setters/main.go). A text is the
-- codes of its ASCII characters; the descriptors that protoc hands over are records, and the files that
-- are printed to, with the names of their imports, are a parameter.
pub mod Fields
mod Tests
use ztg.Prelude.{
  ℕ, ◌+◌, List, [], ◌∷◌, ◌++◌, Bool, false, ◌&&◌, not, Option, none, some, String, Result, ok,
  panic, ◌>>=◌, if◌then◌else◌, leb,
}
use ztg.Prelude.Bytes.{codes}

abbrev pub Text : Type 0
Text = List ℕ

-- `protogen.GoIdent`
pub record GoIdent : Type 0 where
  pub go_name : Text
  pub import_path : Text

pub data Kind : Type 0 where
  message_kind group_kind scalar_kind : Kind

-- `protogen.Field`: whether it stands in a oneof, and the message that it holds.
pub record Field : Type 0 where
  pub go_name : Text
  pub go_ident : GoIdent
  pub in_oneof : Bool
  pub has_optional_keyword : Bool
  pub kind : Kind
  pub message : Option GoIdent

-- `protogen.Message`. Options that are there have a value of the extension, if it is a Boolean.
pub record Message : Type 0 where
  pub go_ident : GoIdent
  pub options : Option (Option Bool)
  pub fields : List Field

pub record File : Type 0 where
  pub generate : Bool
  pub generated_filename_prefix : Text
  pub go_import_path : Text
  pub go_package_name : Text
  pub messages : List Message

-- `protogen.GeneratedFile`
pub record Printer (G : Type 0) : Type 0 where
  pub new_generated_file : Text → Text → G
  pub qualified_go_ident : GoIdent → G → Text × G
  pub print : Text → G → G

unfoldable pub has_generate_setters : Message → Bool
has_generate_setters msg = elim msg.options [
  | none ↦ false
  | some val ↦ elim val [ none ↦ false | some b ↦ b ]
]

-- A real oneof, which a field with the keyword `optional` is not.
unfoldable pub skips : Field → Bool
skips f = f.in_oneof && not f.has_optional_keyword

-- `strings.ToLower` of a byte.
abbrev pub to_lower : ℕ → ℕ
to_lower c = if leb 65 c && leb c 90 then c + 32 else c

-- The slice `GoName[:1]` panics on an empty name.
abbrev pub receiver : Text → Result String Text
receiver [] = panic
receiver (c ∷ _) = ok (to_lower c ∷ [])

-- The lines of a setter.
abbrev pub setter_lines : Text → Text → Text → Text → List Text
setter_lines recv name field type =
    (codes "func ("
      ++ (recv
          ++ (codes " *"
              ++ (name ++ (codes ") Set" ++ (field ++ (codes "(v *" ++ (type ++ codes ") {"))))))))
    ∷ (codes "    " ++ (recv ++ (codes "." ++ (field ++ codes " = v"))))
    ∷ codes "}"
    ∷ []
    ∷ []

-- The type that a setter takes a pointer to.
abbrev pub type_ident : Field → GoIdent
type_ident f = elim f.kind [
  | message_kind ↦ elim f.message [ none ↦ f.go_ident | some m ↦ m ]
  | group_kind ↦ elim f.message [ none ↦ f.go_ident | some m ↦ m ]
  | scalar_kind ↦ f.go_ident
]

abbrev pub filename_of : File → Message → Text
filename_of file msg =
    file.generated_filename_prefix
    ++ (codes "_" ++ (msg.go_ident.go_name ++ codes "_setters.pb.go"))

abbrev pub header_lines : Text → List Text
header_lines package_name =
    codes "// Code generated by protoc-gen-setters. DO NOT EDIT."
    ∷ []
    ∷ (codes "package " ++ package_name)
    ∷ []
    ∷ []

module _ {G : Type 0} (p : Printer G) where
  -- A file after some lines were printed to it.
  unfoldable pub print_all : List Text → G → G
  print_all [] g = g
  print_all (l ∷ ls) g = print_all ls (p.print l g)

  -- A turn of the loop over the fields.
  unfoldable pub generate_setter : Text → Field → G → Result String G
  generate_setter name f g =
      if skips f
      then ok g
      else (let (type, g') = p.qualified_go_ident (type_ident f) g in
          receiver name >>= λ recv. ok (print_all (setter_lines recv name f.go_name type) g'))

  unfoldable pub generate_message_setters : Text → List Field → G → Result String G
  generate_message_setters name [] g = ok g
  generate_message_setters name (f ∷ fs) g =
      generate_setter name f g >>= λ g'. generate_message_setters name fs g'

  abbrev pub generate_message : File → Message → Result String (List (Text × G))
  generate_message file msg =
      if has_generate_setters msg
      then (generate_message_setters msg.go_ident.go_name msg.fields (
            print_all (header_lines file.go_package_name)
              (p.new_generated_file (filename_of file msg) file.go_import_path))
          >>= λ g. ok ((filename_of file msg, g) ∷ []))
      else ok []

  -- The loop over the messages, with the files that it makes.
  unfoldable pub generate_messages : File → List Message → Result String (List (Text × G))
  generate_messages file [] = ok []
  generate_messages file (msg ∷ msgs) =
      let rest = generate_messages file msgs in
      generate_message file msg >>= λ made. (rest >>= λ more. ok (made ++ more))

  unfoldable pub generate_file : File → Result String (List (Text × G))
  generate_file file = generate_messages file file.messages

  -- The function that `main` hands to protogen.
  unfoldable pub run : List File → Result String (List (Text × G))
  run [] = ok []
  run (file ∷ files) =
      let rest = run files in
      (if file.generate then generate_file file else ok []) >>= λ made.
      (rest >>= λ more. ok (made ++ more))
