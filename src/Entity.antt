-- ===== src/Entity.antt =====
-- What the entities of a device show and how they come about: the state of entity.py, the value of
-- text.py and `add_entities_as_declared` of switch.py, in custom_components/bthome_writable.
pub mod Shown
pub mod Declared
pub mod Text
pub mod Platforms
pub mod Examples
use bthome_writable.Common.{
  ℕ, suc, ◌+◌, ◌-◌, Bool, true, false, not, ◌&&◌, ◌||◌, Option, none, some, List, [], ◌∷◌, ◌++◌,
  if◌then◌else◌, ltb, leb, ◌==◌, length, drop, Result, ok, err, write_failed, value_error,
}
use bthome_writable.Protocol.Walk.{Bytes}
use bthome_writable.Protocol.Declaration.{WritableEntry}
use bthome_writable.Coordinator.{Coordinator, still_declared, reports_state, value_of}

-- `BTHomeWritableEntity`: what it is built for, and the commands of its own that are out.
pub record Entity : Type 0 where
  pub entry : ℕ
  pub object_id : ℕ
  pub coalesce : Bool
  pub in_flight : Option Bytes
  pub writes_in_flight : ℕ

pub init : Bool → WritableEntry → Entity
init coalesce e = record {
  entry = e.entry;
  object_id = e.object_id;
  coalesce = coalesce;
  in_flight = none;
  writes_in_flight = 0;
}

pub available : Coordinator → Entity → Bool
available c s =
    if not (still_declared c s.entry s.object_id) then false else c.sleepy_device || c.available

pub assumed_state : Coordinator → Bool
assumed_state c = not (reports_state c)

-- `_value`
pub shown_value : Coordinator → Entity → Option Bytes
shown_value c s = elim s.in_flight [ some value ↦ some value | none ↦ value_of c s.entry ]

-- `async_apply` up to its await. `HomeAssistantError` is `write_failed`.
pub begin_apply : Coordinator → Bytes → Entity → Result Entity
begin_apply c value s =
    if not (still_declared c s.entry s.object_id)
    then err write_failed
    else ok (record s {
      in_flight = if s.coalesce then some value else none;
      writes_in_flight = s.writes_in_flight + 1;
    })

-- `_settled`, which `async_apply` calls when its write has returned or raised an `Exception`.
pub settled : Entity → Entity
settled s =
    let left = s.writes_in_flight - 1 in
    record s { in_flight = if left == 0 then none else s.in_flight; writes_in_flight = left }

-- What happens to an entity: an action is called while the coordinator is in this state, one of its
-- writes returns or raises an `Exception`, or the task of one is cancelled while it awaits its write:
-- `CancelledError` is no `Exception`, and passes by both calls of `_settled`.
pub data Event : Type 0 where
  applies : Coordinator → Bytes → Event
  ends cancelled : Event

pub happen : Event → Entity → Entity
happen (applies c value) s = elim (begin_apply c value s) [ ok s' ↦ s' | err x ↦ s ]
happen ends s = settled s
happen cancelled s = s

-- The newest event stands first.
pub happened : List Event → Entity → Entity
happened [] s = s
happened (e ∷ es) s = happen e (happened es s)

-- `known` of `add_entities_as_declared`.
abbrev pub Key : Type 0
Key = ℕ × ℕ

pub is_known : Key → List Key → Bool
is_known key [] = false
is_known key (k ∷ known) = (k.0 == key.0 && k.1 == key.1) || is_known key known

module _ (wanted : WritableEntry → Bool) where
  -- One `_sync`: what is known afterwards, the newest first, and the entries to build for.
  pub sync : List WritableEntry → List Key → List Key × List WritableEntry
  sync [] known = (known, [])
  sync (e ∷ es) known =
      let key : Key = (e.entry, e.object_id) in
      let skipped = sync es known in
      let added = sync es (key ∷ known) in
      if is_known key known || not (wanted e) then skipped else (added.0, e ∷ added.1)

  -- One `_sync` for each declaration there is, and everything that was built.
  pub syncs : List (List WritableEntry) → List Key → List Key × List WritableEntry
  syncs [] known = (known, [])
  syncs (es ∷ rest) known =
      let first = sync es known in let later = syncs rest first.0 in (later.0, first.1 ++ later.1)

abbrev pub max_length : ℕ
max_length = 255

-- `native_value` of a text, before the bytes are decoded.
pub native_value : Option Bytes → Option Bytes
native_value none = none
native_value (some value) = if ltb (length value) 1 then none else some (drop 1 value)

-- `async_set_value`, after the text is encoded: what it applies.
pub set_value : Bytes → Result Bytes
set_value body = if ltb max_length (length body) then err value_error else ok (length body ∷ body)
