-- ===== src/Coordinator/Queue/Coalescing.antt =====
-- Coalescing in `async_write` of custom_components/bthome_writable/coordinator.py.
use bthome_writable.Common.{◌≡◌, ◌⊎◌, false, List, [], ◌∷◌, All}
use bthome_writable.Coordinator.Queue.{
  Queued, superseded, Event, Event.commands, Event.takes, Event.acknowledges, Event.cancels,
  Event.ends,
}

-- No later item replaces the first one, and so on: a coalescing entry waits once at most.
abbrev pub Single : List Queued → Type 0
Single [] = Unit {0}
Single (item ∷ items) =
    ((item.coalesce ≡ false) ⊎ All (λ i. superseded item.entry i ≡ false) items) × Single items
