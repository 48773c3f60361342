-- ===== src/Slots/System/Cap.antt =====
-- The cap of slots.py: no step takes a slot beyond the limit.
use bthome_writable.Common.{
  ℕ, ◌+◌, ◌-◌, ◌≤◌, ◌≡◌, refl, inl, inr, Bool, true, false, ltb, ◌==◌, ◌&&◌, max, Bool-cases, arith,
}
use bthome_writable.Slots.{
  Gate, Future, pending, granted, cancelled, dropped, admit, resize, hold_off, resume, acquire,
  interrupted, release, remove_first, holding_off, enqueue, waiting, update,
}
use bthome_writable.Slots.Admission.{admit-Admits}
use bthome_writable.Slots.System.{
  System, Step, waits, arrives, cancels, resumes, interrupts, releases, resizes, holds_off, fires,
}
use bthome_writable.Slots.System.Books.{unqueue-same}

-- From `g` to `h` the slots in flight do not grow beyond what the new limit allows.
abbrev pub Within : Gate → Gate → Type 0
Within g h = h.in_flight ≤ max g.in_flight h.limit

admit-Within : (now : ℕ) (g : Gate) → Within g (admit now g)
admit-Within now g = elim (admit-Admits now g) [
  | inl (cooling, e) ↦ rw e (omega arith)
  | inr (warm, (front, s, drained)) ↦ omega (arith, s.capped, s.same_limit)
]

enqueue-same : (urgent : Bool) (w : ℕ) (g : Gate) → (enqueue urgent w g).in_flight ≡ g.in_flight
unfolding enqueue
enqueue-same true w g = refl
enqueue-same false w g = refl

acquire-Within : (now : ℕ) (urgent : Bool) (g : Gate) → Within g (acquire now urgent g).0
unfolding acquire
acquire-Within now urgent g = elim (Bool-cases (ltb 0 (holding_off g now))) [
  | inl cooling ↦ rw cooling (omega arith)
  | inr warm ↦ elim (Bool-cases (waiting g == 0 && ltb g.in_flight g.limit)) [
    | inl room ↦ rw (warm, room) (ground arith)
    | inr full ↦
        rw (warm, full)
          (omega (
            arith,
            enqueue-same urgent g.next_future (record g {
              futures = update g.futures g.next_future pending;
              next_future = g.next_future + 1;
            }),
          ))
  ]
]

interrupted-Within :
    (now : ℕ) (urgent : Bool) (w : ℕ) (g : Gate) (f : Future)
    → g.futures w ≡ f
    → Within g (interrupted now urgent w g)
unfolding interrupted
interrupted-Within now urgent w g granted e =
    rw (e, interrupted) (omega (arith, admit-Within now (record g { in_flight = g.in_flight - 1 })))
interrupted-Within now urgent w g cancelled e =
    rw (e, interrupted) (omega (arith, unqueue-same urgent w g))
interrupted-Within now urgent w g pending e =
    rw (e, interrupted) (omega (arith, unqueue-same urgent w g))
interrupted-Within now urgent w g dropped e =
    rw (e, interrupted) (omega (arith, unqueue-same urgent w g))

release-Within : (now : ℕ) (g : Gate) → Within g (release now g)
unfolding release
release-Within now g = elim (Bool-cases (ltb 0 g.in_flight)) [
  | inl some_held ↦
      rw some_held (omega (arith, admit-Within now (record g { in_flight = g.in_flight - 1 })))
  | inr idle ↦ rw idle (admit-Within now g)
]

resize-Within : (now limit : ℕ) (g : Gate) → Within g (resize now limit g)
unfolding resize
resize-Within now limit g = elim (Bool-cases (max 1 limit == g.limit)) [
  | inl same ↦ rw same (omega arith)
  | inr other ↦ rw other (admit-Within now (record g { limit = max 1 limit }))
]

resume-Within : (now : ℕ) (g : Gate) → Within g (resume now g)
unfolding resume
resume-Within now g = elim (Bool-cases (ltb 0 (holding_off g now))) [
  | inl cooling ↦ rw cooling (omega arith)
  | inr warm ↦ rw warm (admit-Within now g)
]

-- No step takes a slot beyond the limit that stands after it: the slots in flight never grow past
-- it, and after a limit was lowered they only fall until they meet it.
pub Step-Within : {s t : System} → Step s t → t.gate.in_flight ≤ max s.gate.in_flight t.gate.limit
Step-Within (waits now h) = omega arith
Step-Within {s} (arrives urgent) = acquire-Within s.clock urgent s.gate
Step-Within (cancels w e) = omega arith
Step-Within (resumes w e) = omega arith
Step-Within {s} (interrupts urgent w e) =
    interrupted-Within s.clock urgent w s.gate (s.gate.futures w) refl
Step-Within {s} (releases held e) = release-Within s.clock s.gate
Step-Within {s} (resizes limit) = resize-Within s.clock limit s.gate
Step-Within {s} (holds_off seconds) = unfold hold_off in ground arith
Step-Within {s} (fires due m h) =
    resume-Within s.clock (record s.gate { timers = remove_first due s.gate.timers })
