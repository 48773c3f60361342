-- ===== src/Entity/Examples.antt =====
-- A lamp's entity over two actions, and a declaration that grows.
use bthome_writable.Common.{true, List, [], ◌∷◌}
use bthome_writable.Protocol.Declaration.{WritableEntry}
use bthome_writable.Coordinator.Reading.Examples.{watching}
use bthome_writable.Entity.{
  init, shown_value, Event, Event.applies, Event.ends, Event.cancelled, happened,
}
use bthome_writable.Entity.Shown.{Shows, happened-Shows}

abbrev text_entry : WritableEntry
text_entry = record { entry = 1; object_id = 0x53 }

abbrev other_entry : WritableEntry
other_entry = record { entry = 2; object_id = 0x65 }

-- Two actions, the end of one of them and the cancellation of the other; the newest first.
abbrev two_actions : List Event
two_actions =
    cancelled ∷ ends ∷ applies watching (1 ∷ 0x62 ∷ []) ∷ applies watching (1 ∷ 0x61 ∷ []) ∷ []

happened-Shows_example :
    Shows text_entry watching two_actions
      (shown_value watching (happened two_actions (init true text_entry)))
happened-Shows_example = happened-Shows text_entry watching two_actions

abbrev growing : List (List WritableEntry)
growing = (text_entry ∷ []) ∷ (text_entry ∷ other_entry ∷ []) ∷ []
