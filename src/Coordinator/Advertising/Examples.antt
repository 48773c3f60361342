-- ===== src/Coordinator/Advertising/Examples.antt =====
-- A sealed advertisement that the key held opens.
use bthome_writable.Common.{refl, false, none, some, [], ◌∷◌}
use bthome_writable.Protocol.Walk.{Bytes}
use bthome_writable.Protocol.Walk.Examples.{small_table}
use bthome_writable.Protocol.Sealing.{is_encrypted, flag}
use bthome_writable.Protocol.Sealing.Examples.{plain_ccm, home}
use bthome_writable.Coordinator.{Coordinator, init}
use bthome_writable.Coordinator.Advertising.{async_handle_advertisement}
use bthome_writable.Coordinator.Advertising.Replay.{Guarded, async_handle_advertisement-Guarded}

abbrev keyed : Coordinator
keyed = init home (some []) 40 none false

-- A settings revision, an empty declaration, the counter 258 and the tag.
abbrev sealed_packet : Bytes
sealed_packet = 0x41 ∷ 0x65 ∷ 7 ∷ 0xFF ∷ 1 ∷ 0x53 ∷ 2 ∷ 1 ∷ 0 ∷ 0 ∷ 0 ∷ 0 ∷ 0 ∷ 0 ∷ []

async_handle_advertisement-Guarded_example :
    Guarded plain_ccm sealed_packet keyed
      (async_handle_advertisement plain_ccm small_table 0 sealed_packet keyed).0
unfolding is_encrypted flag
async_handle_advertisement-Guarded_example =
    async_handle_advertisement-Guarded plain_ccm small_table 0 sealed_packet keyed refl
