-- ===== src/Coordinator/Counters/Examples.antt =====
-- A life of a write counter.
use bthome_writable.Common.{none, some, [], ◌∷◌, false}
use bthome_writable.Coordinator.Counters.Life.{
  Event.writes, Event.jumps, Event.hears, Event.restarts, lives, Increasing, begin,
  lives-Increasing,
}

-- Two writes, a restart with the clock behind, a counter report and one more write.
lives-Increasing_example :
    Increasing
      (lives
        (begin [] none none false 1000 500)
        (writes ∷ writes ∷ restarts 900 ∷ writes ∷ hears (some 5000) ∷ jumps ∷ writes ∷ [])).issued
lives-Increasing_example =
    lives-Increasing [] none none false 1000 500
      (writes ∷ writes ∷ restarts 900 ∷ writes ∷ hears (some 5000) ∷ jumps ∷ writes ∷ [])
