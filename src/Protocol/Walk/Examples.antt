-- ===== src/Protocol/Walk/Examples.antt =====
-- Runs of the walk of custom_components/bthome_writable/protocol.py on a small object table.
use bthome_writable.Common.{
  ℕ, ◌≡◌, refl, ◌⊎◌, inl, Option, none, some, List, [], ◌∷◌, ◌++◌, All, ok, err, protocol_error,
  ◌==◌, if◌then◌else◌, arith,
}
use bthome_writable.Protocol.Walk.{
  Bytes, Table, length_prefixed, command_format, split_objects, walk, value_length,
}
use bthome_writable.Protocol.Walk.Framing.{IsFramed, StopsAt, encode_objects}
use bthome_writable.Protocol.Walk.Sound.{
  split_objects-encode_objects, split_objects_sound, split_objects-total,
}

-- A settings revision of one byte, and a text.
abbrev pub small_table : Table
small_table object_id =
    if object_id == 0x65
    then some ("unsigned_integer", 1)
    else if object_id == 0x53
    then some ("string", 1)
    else none

abbrev pub revision_and_text : List (ℕ × Bytes)
revision_and_text = (0x65, 7 ∷ []) ∷ (0x53, 2 ∷ 0x68 ∷ 0x69 ∷ []) ∷ []

pub revision_and_text-IsFramed : All (IsFramed small_table) revision_and_text
unfolding length_prefixed command_format
revision_and_text-IsFramed = (
  record {
    format = ("unsigned_integer", 1);
    known = refl;
    ordinary = λ e. omega (arith, e);
    value = refl;
  },
  (
    record { format = ("string", 1); known = refl; ordinary = λ e. omega (arith, e); value = refl },
    tt,
  ),
)

split_objects-encode_objects_example :
    split_objects small_table (encode_objects revision_and_text ++ (0xFF ∷ 1 ∷ 0x53 ∷ []))
    ≡ ok (revision_and_text, some 6)
split_objects-encode_objects_example =
    split_objects-encode_objects small_table revision_and_text (0xFF ∷ 1 ∷ 0x53 ∷ []) (some 6)
      revision_and_text-IsFramed (inl (refl, refl))

split_objects_sound_example :
    (rest : Bytes) × (0x65 ∷ 7 ∷ 0xFF ∷ 0 ∷ [] ≡ encode_objects ((0x65, 7 ∷ []) ∷ []) ++ rest)
    × All (IsFramed small_table) ((0x65, 7 ∷ []) ∷ [])
    × StopsAt small_table 2 (some 2) rest
unfolding split_objects walk value_length length_prefixed command_format
split_objects_sound_example =
    split_objects_sound small_table (0x65 ∷ 7 ∷ 0xFF ∷ 0 ∷ []) ((0x65, 7 ∷ []) ∷ []) (some 2) refl

split_objects-total_example :
    ((found : List (ℕ × Bytes) × Option ℕ) × (split_objects small_table (0x53 ∷ 5 ∷ 1 ∷ [])
        ≡ ok found))
    ⊎ (split_objects small_table (0x53 ∷ 5 ∷ 1 ∷ []) ≡ err protocol_error)
split_objects-total_example = split_objects-total small_table (0x53 ∷ 5 ∷ 1 ∷ [])
