-- ===== src/Coordinator/Asking/Examples.antt =====
-- Two looks at a device that does not have the characteristic, beside commands that draw counters.
use bthome_writable.Common.{◌+◌, refl, true, [], ◌∷◌}
use bthome_writable.Protocol.Sealing.Examples.{plain_ccm}
use bthome_writable.Coordinator.Reading.{Attempt.connects}
use bthome_writable.Coordinator.Reading.Examples.{lamp_client}
use bthome_writable.Coordinator.Writing.{not_in_table}
use bthome_writable.Coordinator.Writing.Examples.{keyed}
use bthome_writable.Coordinator.Asking.{Look, async_sync_write_counter}
use bthome_writable.Coordinator.Asking.Learned.{IsCalm, Learned, sync-Learned}

abbrev missing : Look
missing = record {
  meanwhile = λ c. record c { counter = c.counter + 1 };
  connection = connects lamp_client;
  reported = not_in_table;
}

missing-IsCalm : IsCalm missing
missing-IsCalm = record { same_address = λ c. refl; same_offers = λ c. refl }

sync-Learned_example :
    Learned plain_ccm
      (7 ∷ [])
      missing
      missing
      keyed
      (async_sync_write_counter plain_ccm true (7 ∷ []) missing missing keyed).0
sync-Learned_example =
    sync-Learned plain_ccm true (7 ∷ []) missing missing keyed missing-IsCalm missing-IsCalm
