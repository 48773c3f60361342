-- ===== src/Protocol/Kinds.antt =====
-- What a BTHome object is: `ObjectKind`, `describe`, `event_values`, `encode_scaled` and
-- `decode_scaled` of custom_components/bthome_writable/protocol.py. The tables of bthome-ble and the
-- floating-point numbers are parameters.
pub mod Scaled
pub mod Examples
use bthome_writable.Common.{
  ℕ, suc, ◌+◌, ◌-◌, ◌*◌, ◌^◌, String, str_eq, Bool, true, false, ◌||◌, Option, none, some, List, [],
  ◌∷◌, if◌then◌else◌, ◌==◌, Result, ok, ◌>>=◌,
}
use bthome_writable.Common.Int.{ℤ, pos, negsuc}
use bthome_writable.Protocol.Const.{
  packet_id_object_id, command_object_id, declaration_object_id, settings_revision_object_id,
}
use bthome_writable.Protocol.Walk.{Bytes, Table, length_prefixed, command_format}
use bthome_writable.Protocol.Integers.{to_bytes, from_bytes}

-- Python's floats, as far as scaling uses them. `round` raises on a number that is none and on an
-- infinite one.
pub record Floats : Type 1 where
  pub Float : Type 0
  pub of_int : ℤ → Float
  pub div : Float → Float → Float
  pub mul : Float → Float → Float
  pub round : Float → Result ℤ
  pub truthy : Float → Bool

-- The `meas_format` of a bthome-ble table entry: its class's name and the two attributes read.
pub record MeasFormat : Type 0 where
  pub class_name : String
  pub native_unit_of_measurement : Option String
  pub device_class : Option String

pub data Kind : Type 0 where
  binary numeric string event raw meta : Kind

module _ (fl : Floats) where
  -- An entry of bthome-ble's `MEAS_TYPES`.
  pub record Meas : Type 0 where
    pub data_format : String
    pub data_length : ℕ
    pub factor : Option fl.Float
    pub meas_format : MeasFormat

  pub record ObjectKind : Type 0 where
    pub kind : Kind
    pub length : ℕ
    pub signed : Bool
    pub factor : fl.Float
    pub unit : Option String
    pub device_class : Option String
    pub data_format : String

  abbrev pub MeasTypes : Type 0
  MeasTypes = ℕ → Option Meas

  -- The smallest and the largest number that the encoding carries, before the factor. A signed
  -- object has at least one byte.
  pub minimum : ObjectKind → fl.Float
  minimum k =
      if k.signed
      then fl.mul (fl.of_int (negsuc (2 ^ (8 * k.length - 1) - 1))) k.factor
      else fl.of_int (pos 0)

  pub maximum : ObjectKind → fl.Float
  maximum k =
      let bits = 8 * k.length - (if k.signed then 1 else 0) in
      fl.mul (fl.of_int (pos (2 ^ bits - 1))) k.factor

  pub variable : ObjectKind → Bool
  variable k = length_prefixed k.data_format || command_format k.data_format

  pub classify : String → String → Kind
  classify data_format name =
      if length_prefixed data_format
      then (if str_eq data_format "raw" then raw else string)
      else if str_eq name "BaseBinarySensorDescription"
      then binary
      else if str_eq name "EventDeviceKeys"
      then event
      else if str_eq name "BaseSensorDescription"
      then numeric
      else meta

  -- `getattr(meas, "factor", 1) or 1`
  pub factor_or_one : Option fl.Float → fl.Float
  factor_or_one none = fl.of_int (pos 1)
  factor_or_one (some f) = if fl.truthy f then f else fl.of_int (pos 1)

  pub kind_of : Meas → ObjectKind
  kind_of meas = record {
    kind = classify meas.data_format meas.meas_format.class_name;
    length = meas.data_length;
    signed = str_eq meas.data_format "signed_integer";
    factor = factor_or_one meas.factor;
    unit = meas.meas_format.native_unit_of_measurement;
    device_class = meas.meas_format.device_class;
    data_format = meas.data_format;
  }

  pub describe : MeasTypes → ℕ → Option ObjectKind
  describe meas_types object_id = elim (meas_types object_id) [
    | none ↦ none
    | some meas ↦ some (kind_of meas)
  ]

  -- The adapter `_object_table`.
  pub object_table : MeasTypes → Table
  object_table meas_types object_id = elim (meas_types object_id) [
    | none ↦ none
    | some meas ↦ some (meas.data_format, meas.data_length)
  ]

  pub encode_scaled : fl.Float → ObjectKind → Result Bytes
  encode_scaled value k = do
    scaled ← fl.round (fl.div value k.factor)
    to_bytes scaled k.length k.signed

  pub decode_scaled : Bytes → ObjectKind → fl.Float
  decode_scaled value k = fl.mul (fl.of_int (from_bytes value k.signed)) k.factor

-- A code's name is missing where bthome-ble's table holds `None`.
named_events : List (ℕ × Option String) → List (ℕ × String)
named_events [] = []
named_events ((code, none) ∷ table) = named_events table
named_events ((code, some name) ∷ table) = (code, name) ∷ named_events table

pub event_values :
    List (ℕ × Option String) → List (ℕ × Option String) → ℕ → Option (List (ℕ × String))
unfolding named_events
event_values button_events dimmer_events object_id =
    if object_id == 0x3A
    then some (named_events button_events)
    else if object_id == 0x3C
    then some (named_events dimmer_events)
    else none

-- `object_id in FORBIDDEN_ENTRIES`
pub forbidden_entry : ℕ → Bool
forbidden_entry object_id =
    object_id == packet_id_object_id
    || object_id == command_object_id
    || object_id == declaration_object_id
    || object_id == settings_revision_object_id
    || object_id == 0xF0
    || object_id == 0xF1
    || object_id == 0xF2
