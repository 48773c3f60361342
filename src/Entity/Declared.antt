-- ===== src/Entity/Declared.antt =====
-- The entities that `add_entities_as_declared` of
-- custom_components/bthome_writable/switch.py builds over all advertisements.
use bthome_writable.Common.{◌≡◌, ◌⊎◌, Bool, true, false, List, [], ◌∷◌, All}
use bthome_writable.Protocol.Declaration.{WritableEntry}
use bthome_writable.Entity.{Key, is_known}

abbrev pub key_of : WritableEntry → Key
key_of e = (e.entry, e.object_id)

-- No key twice.
abbrev pub Unique : List Key → Type 0
Unique [] = Unit {0}
Unique (k ∷ ks) = (is_known k ks ≡ false) × Unique ks

-- The keys of what was built come on top of those known, one after another.
pub pushed : List WritableEntry → List Key → List Key
pushed [] known = known
pushed (e ∷ es) known = pushed es (key_of e ∷ known)

module _ (wanted : WritableEntry → Bool) where
  -- The entry is of another kind, or is known.
  abbrev pub Served : List Key → WritableEntry → Type 0
  Served known e = (wanted e ≡ false) ⊎ (is_known (key_of e) known ≡ true)

  -- What the declarations `ess` lead to: `built` is what was built, `known` what is known.
  pub record Built (ess : List (List WritableEntry)) (before known : List Key)
      (built : List WritableEntry) : Type 0 where
    pub exactly : known ≡ pushed built before
    pub once : Unique known
    pub all : All (All (Served known)) ess
