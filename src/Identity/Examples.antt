-- ===== src/Identity/Examples.antt =====
-- The third entry of a device, a button.
use bthome_writable.Common.{◌≡◌, refl, false, none, some, List, [], ◌∷◌, ◌++◌, ok}
use bthome_writable.Protocol.Sealing.Examples.{home}
use bthome_writable.Protocol.Declaration.{WritableEntry}
use bthome_writable.Identity.{
  decimal, hex_02, entity_unique_id, event_unique_id, other_domain, button, migrate, object_of,
}
use bthome_writable.Identity.Settled.{migrate_settles}

abbrev third : List WritableEntry
third = record { entry = 3; object_id = 0x3A } ∷ []

third-declared : object_of 3 third ≡ some 0x3A
unfolding object_of
third-declared = refl

migrate_settles_example :
    (migrate home third (λ id. false) other_domain (home ++ (b'-' ∷ decimal 3))
      ≡ ok (some (entity_unique_id home 3 0x3A)))
    × (migrate home third (λ id. false) button (home ++ (b'-' ∷ decimal 3 ++ (b'-' ∷ hex_02 1)))
        ≡ ok (some (event_unique_id home 3 0x3A 1)))
    × (migrate home third (λ id. false) button (entity_unique_id home 3 0x3A) ≡ ok none)
    × (migrate home third (λ id. false) button (event_unique_id home 3 0x3A 1) ≡ ok none)
migrate_settles_example =
    migrate_settles home third (λ id. false) 3 0x3A third-declared 1 (λ id. false) button refl refl
