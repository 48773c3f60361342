-- ===== src/Protocol/Stored.antt =====
-- `Declaration.stored` and `Declaration.restore` of protocol.py, over the JSON values that a config
-- entry holds.
pub mod Examples
use bthome_writable.Common.{
  ℕ, ◌≡◌, refl, String, str_eq, Bool, true, false, Option, none, some, List, [], ◌∷◌, map,
  if◌then◌else◌, leb, All, arith, le→leb,
}
use bthome_writable.Common.Int.{ℤ, pos, negsuc}
use bthome_writable.Protocol.Walk.{Bytes, IsByte}
use mathlib.Core.Option
use bthome_writable.Protocol.Declaration.{WritableEntry, Declaration, layout, number_from}

mutual
  pub data Json : Type 0 where
    null : Json
    bool : Bool → Json
    int : ℤ → Json
    real : Json
    text : String → Json
    list : Items → Json
    dict : Fields → Json

  pub data Items : Type 0 where
    nil : Items
    cons : Json → Items → Items

  pub data Fields : Type 0 where
    end : Fields
    field : String → Json → Fields → Fields

-- `stored.get(key)`, which is `None` where the key is missing.
pub get : String → Fields → Json
get key end = null
get key (field k v fields) = let rest = get key fields in if str_eq k key then v else rest

-- `isinstance(item, int)`: a Python `bool` is an `int`, with the values 0 and 1.
pub as_int : Json → Option ℤ
as_int (int z) = some z
as_int (bool true) = some (pos 1)
as_int (bool false) = some (pos 0)
as_int _ = none

-- `isinstance(item, int) and 0 <= item <= 0xFF`
pub as_byte : Json → Option ℕ
as_byte item = elim (as_int item) [
  | none ↦ none
  | some z ↦ elim z [ pos n ↦ if leb n 0xFF then some n else none | negsuc n ↦ none ]
]

pub as_layout : Items → Option (List ℕ)
as_layout nil = some []
as_layout (cons item items) = elim (as_byte item) [
  | none ↦ none
  | some object_id ↦ Option.map (λ ids. object_id ∷ ids) (as_layout items)
]

-- The stored revision: `none` is a value that is neither `None` nor an integer.
pub as_revision : Json → Option (Option ℤ)
as_revision null = some none
as_revision (bool b) = Option.map some (as_int (bool b))
as_revision (int z) = Option.map some (as_int (int z))
as_revision _ = none

restore_layout : Json → Json → Option Declaration
restore_layout (list items) revision = elim (as_layout items) [
  | none ↦ none
  | some ids ↦
      Option.map (λ r. record { entries = number_from 1 ids; settings_revision = r })
        (as_revision revision)
]
restore_layout _ revision = none

unfoldable pub restore : Json → Option Declaration
unfolding restore_layout
restore (dict fields) = restore_layout (get "layout" fields) (get "settings_revision" fields)
restore _ = none

pub as_items : List ℕ → Items
as_items [] = nil
as_items (object_id ∷ ids) = cons (int (pos object_id)) (as_items ids)

pub revision_json : Option ℤ → Json
revision_json none = null
revision_json (some z) = int z

pub stored : Declaration → Json
stored d = dict (
    field "layout" (list (as_items (layout d)))
      (field "settings_revision" (revision_json d.settings_revision) end))

as_layout-as_items : (ids : List ℕ) → All IsByte ids → as_layout (as_items ids) ≡ some ids
unfolding as_layout as_items as_byte as_int
as_layout-as_items [] h = refl
as_layout-as_items (object_id ∷ ids) h =
    ground (arith, as_layout-as_items ids h.1, le→leb object_id 0xFF (omega arith))

as_revision-revision_json : (r : Option ℤ) → as_revision (revision_json r) ≡ some r
unfolding as_revision revision_json as_int
as_revision-revision_json none = refl
as_revision-revision_json (some z) = refl

-- A declaration whose entries are numbered from 1, as every parsed one is, and whose ids are bytes,
-- is restored from what was stored of it, its settings revision with it.
pub restore-stored :
    (d : Declaration)
    → d.entries ≡ number_from 1 (layout d)
    → All IsByte (layout d)
    → restore (stored d) ≡ some d
unfolding restore stored get
restore-stored d numbered bytes =
    ground
      (arith, as_layout-as_items (layout d) bytes, as_revision-revision_json d.settings_revision)
