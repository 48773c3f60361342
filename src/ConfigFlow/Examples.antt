-- ===== src/ConfigFlow/Examples.antt =====
-- A device that advertises one text entry in clear, discovered and confirmed.
use bthome_writable.Common.{none, some, [], ◌∷◌}
use bthome_writable.Protocol.Walk.Examples.{small_table}
use bthome_writable.Protocol.Sealing.Examples.{plain_ccm, home}
use bthome_writable.ConfigFlow.{Discovery}
use bthome_writable.ConfigFlow.Session.{Input, discovered, session}
use bthome_writable.ConfigFlow.Proved.{IsProved}
use bthome_writable.ConfigFlow.Proved.Run.{session-IsProved}

abbrev lamp : Discovery
lamp = record { name = "Lamp"; address = home; payload = some (0x40 ∷ 0xFF ∷ 1 ∷ 0x53 ∷ []) }

abbrev agrees : Input
agrees = record { text = []; chosen = []; claimed = none; air = [] }

session-IsProved_example :
    IsProved plain_ccm small_table
      (λ d. d.entries)
      none
      (session plain_ccm small_table (λ d. d.entries) none (discovered none lamp) (agrees ∷ []))
session-IsProved_example =
    session-IsProved plain_ccm small_table (λ d. d.entries) none (discovered none lamp)
      (agrees ∷ [])
