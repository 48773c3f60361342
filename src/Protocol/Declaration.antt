-- ===== src/Protocol/Declaration.antt =====
-- The declaration: `WritableEntry`, `Declaration`, `parse_declaration`, `encode_object` and
-- `decode_object` of custom_components/bthome_writable/protocol.py.
pub mod Parse
pub mod Objects
pub mod Total
pub mod Examples
use bthome_writable.Common.{
  ℕ, zero, suc, ◌+◌, ◌-◌, String, str_eq, Bool, true, false, not, ◌&&◌, Option, none, some, List,
  [], ◌∷◌, ◌++◌, map, if◌then◌else◌, ltb, leb, ◌==◌, length, slice, drop, Result, ok, err,
  protocol_error, stale_entry, index_error, index, require, or_raise, ◌>>=◌, ◌>>◌,
}
use bthome_writable.Common.Int.{ℤ, pos, negsuc}
use bthome_writable.Protocol.Const.{declaration_object_id, settings_revision_object_id}
use bthome_writable.Protocol.Walk.{Bytes, Table, split_objects, value_length}
use bthome_writable.Protocol.Kinds.{Kind, Kind.meta, Floats, MeasTypes, describe, forbidden_entry}

pub record WritableEntry : Type 0 where
  pub entry : ℕ
  pub object_id : ℕ

pub record Declaration : Type 0 where
  pub entries : List WritableEntry
  pub settings_revision : Option ℤ

abbrev is_meta : Kind → Bool
is_meta meta = true
is_meta _ = false

module _ (fl : Floats) (meas_types : MeasTypes fl) where
  -- `WritableEntry.offered`
  pub offered : WritableEntry → Bool
  offered e =
      if forbidden_entry e.object_id then false else elim (describe fl meas_types e.object_id) [
        | none ↦ false
        | some k ↦ not (is_meta k.kind)
      ]

  filter_offered : List WritableEntry → List WritableEntry
  filter_offered [] = []
  filter_offered (e ∷ es) = let rest = filter_offered es in if offered e then e ∷ rest else rest

  -- `Declaration.offered`
  pub offered_entries : Declaration → List WritableEntry
  unfolding filter_offered
  offered_entries d = filter_offered d.entries

unfoldable pub layout : Declaration → List ℕ
layout d = map (λ e. e.object_id) d.entries

-- `enumerate(ids, start=k)`, an entry for each.
unfoldable pub number_from : ℕ → List ℕ → List WritableEntry
number_from k [] = []
number_from k (object_id ∷ ids) =
    record { entry = k; object_id = object_id } ∷ number_from (k + 1) ids

-- The first settings revision among the objects, as `next(value[0] for ...)`.
pub first_revision : List (ℕ × Bytes) → Result (Option ℤ)
first_revision [] = ok none
first_revision ((object_id, value) ∷ objects) =
    let rest = first_revision objects in
    if object_id == settings_revision_object_id
    then (do revision ← index value 0; ok (some (pos revision)))
    else rest

module _ (table : Table) where
  parse_at : Bytes → List (ℕ × Bytes) → Option ℕ → Result (Option Declaration)
  parse_at payload objects none = ok none
  parse_at payload objects (some offset) = do
    require (ltb (offset + 1) (length payload)) protocol_error
    count ← index payload (offset + 1)
    let ids = slice payload (offset + 2) (offset + 2 + count)
    require (length ids == count) protocol_error
    revision ← first_revision objects
    ok (some (record { entries = number_from 1 ids; settings_revision = revision }))

  pub parse_declaration : Bytes → Result (Option Declaration)
  unfolding parse_at
  parse_declaration [] = ok none
  parse_declaration (b ∷ payload) = do
    (objects, offset) ← split_objects table (b ∷ payload)
    parse_at (b ∷ payload) objects offset

  unfoldable pub decode_object : WritableEntry → Bytes → Result Bytes
  decode_object e [] = err protocol_error
  decode_object e (b ∷ rest) = do
    require (b == e.object_id) stale_entry
    (data_format, fixed) ← or_raise (table e.object_id) protocol_error
    size ← value_length (b ∷ rest) 0 data_format fixed
    require (length (b ∷ rest) == 1 + size) protocol_error
    ok (drop 1 (b ∷ rest))

pub encode_object : WritableEntry → Bytes → Bytes
encode_object e value = e.object_id ∷ value
