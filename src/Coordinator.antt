-- ===== src/Coordinator.antt =====
-- One device's coordinator: its state and what is asked of it, `__init__`, `reports_state`,
-- `value_of`, `entry` and `still_declared` of custom_components/bthome_writable/coordinator.py. Time is the monotonic clock in milliseconds.
-- What a callback or a task is called with is one entry of `calls`, the newest first; `drops_table`
-- is `clear_cache` of a connection in hand, `writes_entry` a write with response to the
-- characteristic of that number, `holds_off` the host's hold-off, `acknowledges` is `on_acknowledged`.
pub mod Advertising
pub mod Counters
pub mod Queue
pub mod Reading
pub mod Writing
pub mod Asking
use bthome_writable.Common.{
  ℕ, zero, suc, ◌+◌, ◌-◌, ◌≤◌, ◌≡◌, All, ◌++◌, Bool, true, false, not, ◌&&◌, ◌||◌, Option, none,
  some, List, [], ◌∷◌, if◌then◌else◌, ltb, leb, ◌==◌, length, get_elem?, drop, Result, ok, err,
  protocol_error,
}
use bthome_writable.Common.Int.{ℤ, pos, negsuc}
use bthome_writable.Protocol.Const.{
  allow_counter_sync, authentication_failures_before_reauth, counter_restart_ceiling, read_retry,
}
use bthome_writable.Protocol.Walk.{Bytes, Table}
use bthome_writable.Protocol.Text.{Text}
use bthome_writable.Protocol.Declaration.{WritableEntry, Declaration, layout, parse_declaration}
use bthome_writable.Protocol.Sealing.{
  Ccm, is_encrypted, trigger_based, objects_at, advertising_counter, bytes_eq, decrypt_advertising,
}

pub data Call : Type 0 where
  saves_counter : ℕ → Call
  saves_declaration : Declaration → Call
  saves_sleepy_device : Bool → Call
  writes_entry : ℕ → Bytes → Call
  asks_reauthentication starts_read clears_service_cache drops_table notifies : Call
  holds_off acknowledges fires_write : Call

-- A call that writes nothing.
abbrev pub IsQuiet : Call → Type 0
IsQuiet (writes_entry number payload) = ⊥
IsQuiet other = Unit {0}

pub record Coordinator : Type 0 where
  pub address : Text
  pub bindkey : Option Bytes
  pub bindkey_verified : Option Bool
  pub authentication_failures : ℕ
  pub encryption_counter : ℕ
  pub sleepy_device : Bool
  pub advertises_encrypted : Option Bool
  pub counter : ℕ
  pub counter_mark : ℕ
  pub declaration : Option Declaration
  pub available : Bool
  pub advertisements : ℕ
  pub values : List (ℕ × Bytes)
  pub revision_advertised : Option ℤ
  pub revision_read : Option ℤ
  pub read_failed_at : Option ℕ
  pub reading : Bool
  pub read_connected : Bool
  pub resync_counter : Bool
  pub offers_counter_report : Option Bool
  pub counter_table_dropped : Bool
  pub calls : List Call

pub init : Text → Option Bytes → ℕ → Option Declaration → Bool → Coordinator
init address bindkey write_counter declaration sleepy_device = record {
  address = address;
  bindkey = bindkey;
  bindkey_verified = none;
  authentication_failures = 0;
  encryption_counter = 0;
  sleepy_device = sleepy_device;
  advertises_encrypted = none;
  counter = write_counter;
  counter_mark = write_counter;
  declaration = declaration;
  available = false;
  advertisements = 0;
  values = [];
  revision_advertised = none;
  revision_read = none;
  read_failed_at = none;
  reading = false;
  read_connected = false;
  resync_counter = false;
  offers_counter_report = none;
  counter_table_dropped = false;
  calls = [];
}

abbrev pub call : Call → Coordinator → Coordinator
call x c = record c { calls = x ∷ c.calls }

-- What else happens to the coordinator while an operation of its own awaits: it is the same device
-- under the same key, nothing is written, and the counter does not fall.
pub record Keeps (meanwhile : Coordinator → Coordinator) : Type 0 where
  pub same_key : (c : Coordinator) → (meanwhile c).bindkey ≡ c.bindkey
  pub same_address : (c : Coordinator) → (meanwhile c).address ≡ c.address
  pub onward : (c : Coordinator) → c.counter ≤ (meanwhile c).counter
  pub quiet :
      (c : Coordinator)
      → (more : List Call) × ((meanwhile c).calls ≡ more ++ c.calls) × All IsQuiet more

-- And the values are left alone, as they are where the layout stays, and so is what was read.
pub record KeepsValues (meanwhile : Coordinator → Coordinator) : Type 0 where
  pub keeps : Keeps meanwhile
  pub same_values : (c : Coordinator) → (meanwhile c).values ≡ c.values
  pub same_read : (c : Coordinator) → (meanwhile c).revision_read ≡ c.revision_read

abbrev pub is_some {ℓ} : {A : Type ℓ} → Option A → Bool
is_some none = false
is_some (some a) = true

-- `flag is True` and `flag is False`, of a flag that may be None.
abbrev pub is_true : Option Bool → Bool
is_true none = false
is_true (some b) = b

abbrev pub is_false : Option Bool → Bool
is_false none = false
is_false (some b) = not b

abbrev pub int_eq : ℤ → ℤ → Bool
int_eq (pos m) (pos n) = m == n
int_eq (negsuc m) (negsuc n) = m == n
int_eq (pos m) (negsuc n) = false
int_eq (negsuc m) (pos n) = false

abbrev pub revision_eq : Option ℤ → Option ℤ → Bool
revision_eq none none = true
revision_eq (some a) (some b) = int_eq a b
revision_eq none (some b) = false
revision_eq (some a) none = false

-- The entry of that number in a declaration.
pub entry_of : Option Declaration → ℕ → Option WritableEntry
entry_of none number = none
entry_of (some d) number =
    if not (leb 1 number && leb number (length d.entries))
    then none
    else get_elem? d.entries (number - 1)

pub entry : Coordinator → ℕ → Option WritableEntry
entry c number = entry_of c.declaration number

pub still_declared : Coordinator → ℕ → ℕ → Bool
still_declared c number object_id = elim (entry c number) [
  | none ↦ false
  | some e ↦ e.object_id == object_id
]

abbrev pub lookup : ℕ → List (ℕ × Bytes) → Option Bytes
lookup number [] = none
lookup number ((n, value) ∷ values) =
    let rest = lookup number values in if n == number then some value else rest

pub value_of : Coordinator → ℕ → Option Bytes
value_of c number = lookup number c.values

-- `self._values[number] = value`
pub put_value : ℕ → Bytes → List (ℕ × Bytes) → List (ℕ × Bytes)
put_value number value [] = (number, value) ∷ []
put_value number value ((n, old) ∷ values) =
    let rest = put_value number value values in
    if n == number then (number, value) ∷ values else (n, old) ∷ rest

pub reports_state : Coordinator → Bool
reports_state c = elim c.declaration [ none ↦ false | some d ↦ is_some d.settings_revision ]
