-- ===== src/Slots/Examples.antt =====
-- Runs of the gate of custom_components/bthome_writable/slots.py.
use bthome_writable.Common.{◌+◌, ◌≤◌, ◌≡◌, max, true, [], ◌∷◌}
use bthome_writable.Slots.{init, acquire, admit, resize}
use bthome_writable.Slots.Admission.{Admits, admit-Admits}
use bthome_writable.Slots.System.{
  System, slots_of, Step.arrives, Step.resizes, Reach.here, Reach.next, start,
}
use bthome_writable.Slots.System.Futures.{granted_below}
use bthome_writable.Slots.System.Owners.{Reach-in_flight}
use bthome_writable.Slots.System.Cap.{Step-Within}
use bthome_writable.Slots.System.Wakeups.{Awake, Reach-Awake}
use bthome_writable.Slots.Requests.{fresh, registers, withdraws, answers}
use bthome_writable.Slots.Requests.Standing.{IsCap, answers-IsCap}

admit-Admits_example : Admits 5 (init 2) (admit 5 (init 2))
admit-Admits_example = admit-Admits 5 (init 2)

-- One caller has arrived at a gate of one slot.
abbrev arrived : System
arrived = record (start 1) {
  gate = (acquire (start 1).clock true (start 1).gate).0;
  held = (start 1).held + slots_of (acquire (start 1).clock true (start 1).gate).1;
}

Reach-in_flight_example :
    arrived.gate.in_flight
    ≡ arrived.held + granted_below arrived.gate.futures arrived.gate.next_future
Reach-in_flight_example = Reach-in_flight 1 (next here (arrives true))

Step-Within_example :
    (resize (start 2).clock 1 (start 2).gate).in_flight
    ≤ max (start 2).gate.in_flight (resize (start 2).clock 1 (start 2).gate).limit
Step-Within_example = Step-Within {s = start 2} (resizes 1)

Reach-Awake_example : Awake arrived.clock arrived.gate
Reach-Awake_example = Reach-Awake 1 (next here (arrives true))

-- a asks for 3, b for 1, and b is removed.
answers-IsCap_example :
    IsCap
      (registers 0 "a" 3 ∷ registers 1 "b" 1 ∷ withdraws 2 "b" ∷ [])
      (answers fresh (registers 0 "a" 3 ∷ registers 1 "b" 1 ∷ withdraws 2 "b" ∷ [])).gate.limit
answers-IsCap_example = answers-IsCap (registers 0 "a" 3 ∷ registers 1 "b" 1 ∷ withdraws 2 "b" ∷ [])
