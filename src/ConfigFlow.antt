-- ===== src/ConfigFlow.antt =====
-- The configuration flow of custom_components/bthome_writable/config_flow.py: each step as a function
-- from the flow's fields and what the user or the stack brought, to the fields and the result that
-- Home Assistant is given. A text is the list of its code points; what a form shows beside its fields
-- is left out.
pub mod Steps
pub mod Session
pub mod Opening
pub mod Proved
pub mod Examples
use bthome_writable.Common.{
  ℕ, ◌+◌, ◌*◌, Bool, true, false, not, ◌&&◌, ◌||◌, Option, none, some, String, List, [], ◌∷◌,
  reverse, if◌then◌else◌, ltb, leb, ◌==◌, length, drop, Result, ok, err, Error, protocol_error,
  stale_entry, ◌>>=◌,
}
use bthome_writable.Protocol.Walk.{Bytes, Table}
use bthome_writable.Protocol.Text.{Text, from_hex, remove}
use bthome_writable.Protocol.Declaration.{WritableEntry, Declaration, parse_declaration}
use bthome_writable.Protocol.Sealing.{Ccm, is_encrypted, objects_at, decrypt_advertising}

abbrev pub bindkey_length : ℕ
bindkey_length = 32

-- What Python counts as whitespace.
pub is_whitespace : ℕ → Bool
is_whitespace c =
    (leb 9 c && leb c 13)
    || (leb 28 c && leb c 32)
    || (c == 0x85 || c == 0xA0 || c == 0x1680)
    || ((leb 0x2000 c && leb c 0x200A) || (leb 0x2028 c && leb c 0x2029))
    || (c == 0x202F || c == 0x205F || c == 0x3000)

pub lstrip : Text → Text
lstrip [] = []
lstrip (c ∷ text) = let rest = lstrip text in if is_whitespace c then rest else c ∷ text

-- `text.strip()`
pub strip : Text → Text
strip text = reverse (lstrip (reverse (lstrip text)))

-- `replace("-", "").replace(":", "")`
abbrev pub without_separators : Text → Text
without_separators text = remove b':' (remove b'-' text)

abbrev pub sixteen : Result Bytes → Option Bytes
sixteen (err e) = none
sixteen (ok bindkey) = if length bindkey * 2 == bindkey_length then some bindkey else none

unfoldable pub parse_bindkey : Text → Option Bytes
parse_bindkey text = sixteen (from_hex (without_separators (strip text)))

-- `BluetoothServiceInfoBleak`: `payload` is its service data under BTHome's UUID.
pub record Discovery : Type 0 where
  pub name : String
  pub address : Text
  pub payload : Option Bytes

abbrev pub long_enough : Option Bytes → Option Bytes
long_enough none = none
long_enough (some payload) = if leb 2 (length payload) then some payload else none

unfoldable pub service_data : Discovery → Option Bytes
service_data discovery = long_enough discovery.payload

abbrev pub sealed : Option Bytes → Bool
sealed none = false
sealed (some payload) = is_encrypted payload

unfoldable pub needs_bindkey : Discovery → Bool
needs_bindkey discovery = sealed (service_data discovery)

-- `except ProtocolError`
abbrev pub tolerant : Result (Option Declaration) → Result (Option Declaration)
tolerant (err protocol_error) = ok none
tolerant (err stale_entry) = ok none
tolerant other = other

module _ (ccm : Ccm) (table : Table) where
  abbrev pub parse_opened : Option Bytes → Result (Option Declaration)
  parse_opened none = ok none
  parse_opened (some objects) = tolerant (parse_declaration table objects)

  abbrev pub opened : Bytes → Option Bytes → Text → Result (Option Bytes)
  opened payload none address = ok none
  opened payload (some bindkey) address = decrypt_advertising ccm payload bindkey address

  unfoldable pub declaration_in : Option Bytes → Option Bytes → Text → Result (Option Declaration)
  declaration_in none bindkey address = ok none
  declaration_in (some payload) bindkey address =
      if is_encrypted payload
      then (opened payload bindkey address >>= parse_opened)
      else parse_opened (some (drop (objects_at payload) payload))

  unfoldable pub declaration_from : Discovery → Option Bytes → Result (Option Declaration)
  declaration_from discovery bindkey =
      declaration_in (service_data discovery) bindkey discovery.address
