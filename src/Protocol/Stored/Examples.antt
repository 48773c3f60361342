-- ===== src/Protocol/Stored/Examples.antt =====
-- A declaration, stored and restored.
use bthome_writable.Common.{◌≡◌, refl, some, [], ◌∷◌, arith}
use bthome_writable.Common.Int.{pos}
use bthome_writable.Protocol.Declaration.{Declaration, number_from, layout}
use bthome_writable.Protocol.Stored.{restore, stored, restore-stored}

abbrev lamp : Declaration
lamp = record {
  entries = record { entry = 1; object_id = 0x0F } ∷ record { entry = 2; object_id = 0x53 } ∷ [];
  settings_revision = some (pos 7);
}

restore-stored_example : restore (stored lamp) ≡ some lamp
unfolding number_from layout
restore-stored_example = restore-stored lamp refl (omega arith, (omega arith, tt))
