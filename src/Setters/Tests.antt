-- ===== src/Setters/Tests.antt =====
-- The setters of the signed messages of the dice (gen/go/proto/dice/v1/dice_SignedMessage_setters.pb.go).
use ztg.Prelude.{◌≡◌, refl, List, [], ◌∷◌, ◌++◌, String, true, false, none, some, ok, if◌then◌else◌}
use ztg.Prelude.Bytes.{codes, bytes_eq}
use ztg.Setters.{
  Text, GoIdent, message_kind, scalar_kind, Field, Message, File, Printer, has_generate_setters,
  skips, print_all, generate_setter, generate_message_setters, generate_messages, generate_file,
  run,
}
use ztg.Setters.Fields.{IsPrinter}

-- A file is its lines, in reverse, and what another package declares has the prefix `v1`.
abbrev qualified : GoIdent → List Text → Text × List Text
qualified i g =
    (if bytes_eq i.import_path (codes "dice") then i.go_name else codes "v1." ++ i.go_name, g)

abbrev a_printer : Printer (List Text)
a_printer = record {
  new_generated_file = λ _ _. [];
  qualified_go_ident = qualified;
  print = λ l g. g ++ l ∷ [];
}

a_printer-IsPrinter : IsPrinter a_printer (λ g. g)
a_printer-IsPrinter = record { new = λ _ _. refl; qualified = λ _ _. refl; printed = λ _ _. refl }

abbrev field : String → String → String → Field
field name type path = record {
  go_name = codes name;
  go_ident = record { go_name = codes "SignedMessage_" ++ codes name; import_path = codes "dice" };
  in_oneof = false;
  has_optional_keyword = false;
  kind = message_kind;
  message = some (record { go_name = codes type; import_path = codes path });
}

abbrev message : String → Message
message name = record {
  go_ident = record { go_name = codes name; import_path = codes "dice" };
  options = none;
  fields = [];
}

abbrev signed_message : Message
signed_message = record (message "SignedMessage") {
  options = some (some true);
  fields = field "Message" "Message" "dice" ∷ field "Signature" "Signature" "identity" ∷ [];
}

abbrev dice_file : File
dice_file = record {
  generate = true;
  generated_filename_prefix = codes "dice/v1/dice";
  go_import_path = codes "dice";
  go_package_name = codes "v1";
  messages = message "Message" ∷ signed_message ∷ [];
}

generated :
    run a_printer (dice_file ∷ record dice_file { generate = false } ∷ [])
    ≡ ok (
        (
          codes "dice/v1/dice_SignedMessage_setters.pb.go",
          codes "// Code generated by protoc-gen-setters. DO NOT EDIT."
              ∷ []
              ∷ codes "package v1"
              ∷ []
              ∷ codes "func (s *SignedMessage) SetMessage(v *Message) {"
              ∷ codes "    s.Message = v"
              ∷ codes "}"
              ∷ []
              ∷ codes "func (s *SignedMessage) SetSignature(v *v1.Signature) {"
              ∷ codes "    s.Signature = v"
              ∷ codes "}"
              ∷ []
              ∷ [],
        )
        ∷ [])
unfolding run generate_file generate_messages has_generate_setters generate_message_setters
    generate_setter skips print_all
generated = refl

-- A scalar field takes a pointer to the field's own name, which is no type.
abbrev scalar : Field
scalar = record (field "Count" "" "") { kind = scalar_kind; message = none }

not_a_type :
    generate_setter a_printer (codes "SignedMessage") scalar []
    ≡ ok (
        codes "func (s *SignedMessage) SetCount(v *SignedMessage_Count) {"
        ∷ codes "    s.Count = v"
        ∷ codes "}"
        ∷ []
        ∷ [])
unfolding generate_setter skips print_all
not_a_type = refl
