-- ===== src/Protocol/Walk.antt =====
-- The walk over BTHome service data: `_value_length` and `split_objects` of
-- custom_components/bthome_writable/protocol.py. Bytes are numbers; the object table of bthome-ble
-- is a parameter.
pub mod Framing
pub mod Rest
pub mod Sound
pub mod Examples
use bthome_writable.Common.{
  ℕ, zero, suc, ◌+◌, ◌<◌, String, str_eq, Bool, true, false, ◌||◌, Option, none, some, List, [],
  ◌∷◌, ◌++◌, bit_and, if◌then◌else◌, ltb, ◌==◌, length, slice, Result, ok, err, protocol_error,
  index_error, out_of_fuel, index, require, ◌>>=◌, ◌>>◌, or_raise,
}
use bthome_writable.Protocol.Const.{declaration_object_id}

abbrev pub Bytes : Type 0
Bytes = List ℕ

abbrev pub IsByte : ℕ → Type 0
IsByte b = b < 256

-- `_object_table()`: for an object id, its data format and its fixed width.
abbrev pub Table : Type 0
Table = ℕ → Option (String × ℕ)

-- `data_format in LENGTH_PREFIXED_FORMATS`
unfoldable pub length_prefixed : String → Bool
length_prefixed f = str_eq f "raw" || str_eq f "string"

-- `data_format == COMMAND_FORMAT`
unfoldable pub command_format : String → Bool
command_format f = str_eq f "command"

unfoldable pub value_length : Bytes → ℕ → String → ℕ → Result ℕ
value_length payload offset data_format fixed =
    if length_prefixed data_format
    then (do
      require (ltb (offset + 1) (length payload)) protocol_error
      size ← index payload (offset + 1)
      ok (1 + size))
    else if command_format data_format
    then (do
      require (ltb (offset + 1) (length payload)) protocol_error
      size ← index payload (offset + 1)
      ok (2 + bit_and size 0x1F))
    else ok fixed

-- The loop of `split_objects`. Each round takes a byte at least.
module _ (table : Table) where
  pub walk : ℕ → Bytes → ℕ → List (ℕ × Bytes) → Result (List (ℕ × Bytes) × Option ℕ)
  walk zero payload offset objects =
      if ltb offset (length payload) then err out_of_fuel else ok (objects, none)
  walk (suc fuel) payload offset objects =
      if ltb offset (length payload)
      then (do
        object_id ← index payload offset
        if object_id == declaration_object_id
            then ok (objects, some offset)
            else elim (table object_id) [
              | none ↦ ok (objects, none)
              | some (data_format, fixed) ↦ do
                size ← value_length payload offset data_format fixed
                let end = offset + 1 + size
                elim (ltb (length payload) end) [
                  | true ↦ err protocol_error
                  | false ↦
                      walk fuel payload end
                        (objects ++ ((object_id, slice payload (offset + 1) end) ∷ []))
                ]
            ])
      else ok (objects, none)

  -- `length payload` rounds are enough.
  pub split_objects : Bytes → Result (List (ℕ × Bytes) × Option ℕ)
  split_objects payload = walk (length payload) payload 0 []
