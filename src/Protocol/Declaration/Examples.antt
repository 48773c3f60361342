-- ===== src/Protocol/Declaration/Examples.antt =====
-- Declarations and values on the small object table.
use bthome_writable.Common.{◌≡◌, ◌↔◌, ◌⊎◌, refl, Option, some, [], ◌∷◌, ok, err, protocol_error}
use bthome_writable.Common.Int.{pos}
use bthome_writable.Protocol.Walk.{Bytes}
use bthome_writable.Protocol.Walk.Examples.{small_table}
use bthome_writable.Protocol.Declaration.{
  WritableEntry, Declaration, number_from, parse_declaration, decode_object,
}
use bthome_writable.Protocol.Declaration.Parse.{Declares, parse_declaration_iff}
use bthome_writable.Protocol.Declaration.Total.{parse_declaration-total}
use bthome_writable.Protocol.Declaration.Objects.{Decoded, decode_object-encode_object}

abbrev two_entries : Declaration
two_entries = record {
  entries = number_from 1 (0x53 ∷ 0x65 ∷ []);
  settings_revision = some (pos 7);
}

abbrev declaring : Bytes
declaring = 0x65 ∷ 7 ∷ 0xFF ∷ 2 ∷ 0x53 ∷ 0x65 ∷ []

parse_declaration_iff_example :
    (parse_declaration small_table declaring ≡ ok (some two_entries))
    ↔ Declares small_table declaring two_entries
parse_declaration_iff_example = parse_declaration_iff small_table declaring two_entries

parse_declaration-total_example :
    ((found : Option Declaration) × (parse_declaration small_table declaring ≡ ok found))
    ⊎ (parse_declaration small_table declaring ≡ err protocol_error)
parse_declaration-total_example = parse_declaration-total small_table refl declaring

abbrev text_entry : WritableEntry
text_entry = record { entry = 1; object_id = 0x53 }

decode_object-encode_object_example :
    Decoded small_table text_entry
      (0x53 ∷ 1 ∷ 0x68 ∷ [])
      (decode_object small_table text_entry (0x53 ∷ 1 ∷ 0x68 ∷ []))
decode_object-encode_object_example =
    decode_object-encode_object small_table text_entry (0x53 ∷ 1 ∷ 0x68 ∷ [])
