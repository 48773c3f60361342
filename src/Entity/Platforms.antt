-- ===== src/Entity/Platforms.antt =====
-- What the platforms of custom_components/bthome_writable add to an entity: the values of number.py
-- and switch.py, and the payloads and the entries of button.py.
use bthome_writable.Common.{
  ℕ, Bool, false, not, ◌&&◌, Option, none, some, String, List, [], ◌∷◌, if◌then◌else◌, ◌==◌, length,
  Result, ok, index, ◌>>=◌,
}
use bthome_writable.Protocol.Walk.{Bytes}
use bthome_writable.Protocol.Kinds.{
  Floats, Kind, ObjectKind, MeasTypes, describe, encode_scaled, decode_scaled, event_values,
}
use bthome_writable.Protocol.Declaration.{WritableEntry, offered}
use bthome_writable.Coordinator.{Coordinator, is_some}

module _ (fl : Floats) where
  -- `is_kind(wanted)`, of an entry whose offer and description are in hand. `same_kind` compares kinds.
  abbrev pub described_as : (Kind → Bool) → Option (ObjectKind fl) → Bool
  described_as wanted none = false
  described_as wanted (some kind) = wanted kind.kind

  unfoldable pub is_kind : MeasTypes fl → (Kind → Bool) → WritableEntry → Bool
  is_kind meas_types wanted e =
      offered fl meas_types e && described_as wanted (describe fl meas_types e.object_id)

  -- `native_value` of a number.
  unfoldable pub number_value : ObjectKind fl → Option Bytes → Option fl.Float
  number_value kind none = none
  number_value kind (some value) =
      if not (length value == kind.length) then none else some (decode_scaled fl value kind)

  -- `async_set_native_value`: what is applied.
  unfoldable pub set_number : ObjectKind fl → fl.Float → Result Bytes
  set_number kind value = encode_scaled fl value kind

-- `is_on`
unfoldable pub is_on : Option Bytes → Result (Option Bool)
is_on none = ok none
is_on (some value) = index value 0 >>= (λ b. ok (some (not (b == 0))))

-- What `async_turn_on` and `async_turn_off` apply.
abbrev pub turn_on : Bytes
turn_on = 1 ∷ []

abbrev pub turn_off : Bytes
turn_off = 0 ∷ []

abbrev pub dimmer : ℕ
dimmer = 0x3C

abbrev pub steps : ℕ
steps = 1

unfoldable pub event_payload : ℕ → ℕ → Bytes
event_payload object_id code = if object_id == dimmer then code ∷ steps ∷ [] else code ∷ []

-- A button: its entry, its code and the name of that code, before it is made a label.
pub record Button : Type 0 where
  pub entry : WritableEntry
  pub code : ℕ
  pub name : String

abbrev pub buttons_of : WritableEntry → List (ℕ × String) → List Button
buttons_of e [] = []
buttons_of e ((code, name) ∷ events) =
    record { entry = e; code = code; name = name } ∷ buttons_of e events

-- `event_values(object_id) or {}`
abbrev pub events_or_none : Option (List (ℕ × String)) → List (ℕ × String)
events_or_none none = []
events_or_none (some events) = events

unfoldable pub build_buttons :
    List (ℕ × Option String) → List (ℕ × Option String) → WritableEntry → List Button
build_buttons button_events dimmer_events e =
    buttons_of e (events_or_none (event_values button_events dimmer_events e.object_id))

-- Whether the platform adds the button that resynchronises the write counter.
abbrev pub adds_resync_button : Coordinator → Bool
adds_resync_button c = is_some c.bindkey
