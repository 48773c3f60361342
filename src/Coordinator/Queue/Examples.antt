-- ===== src/Coordinator/Queue/Examples.antt =====
-- A run of the queue: a slider that moves twice, and an event.
use bthome_writable.Common.{List, [], ◌∷◌, true, false, arith}
use bthome_writable.Coordinator.Queue.{
  Event, Event.commands, Event.takes, Event.acknowledges, happens, idle, happen, keep, async_write,
  loop, take_next, done, answer,
}
use bthome_writable.Coordinator.Queue.Accounted.{Accounted}
use bthome_writable.Coordinator.Queue.Told.{idle-Accounted}

abbrev slider : List Event
slider =
    commands 0 1 (10 ∷ []) true
    ∷ takes
    ∷ commands 5 1 (20 ∷ []) true
    ∷ commands 6 1 (30 ∷ []) true
    ∷ commands 7 1 (1 ∷ []) false
    ∷ acknowledges
    ∷ []

idle-Accounted_example : Accounted (happens idle slider) 1
unfolding happens happen async_write loop take_next done answer keep
idle-Accounted_example = idle-Accounted slider 1 (omega arith)
