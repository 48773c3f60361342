-- ===== src/Slots/System/Owners.antt =====
-- The slots in flight are those that callers hold, and those granted to a task that has not run on
-- yet (slots.py): no interleaving loses one, and none opens more than the limit.
use bthome_writable.Common.{
  ℕ, suc, ◌+◌, ◌-◌, ◌≡◌, refl, ◌⊎◌, inl, inr, Bool, true, ltb, ◌==◌, max, Bool-cases, lt→ltb, arith,
}
use bthome_writable.Slots.{
  Gate, Future, pending, granted, cancelled, dropped, init, admit, resize, hold_off, resume,
  interrupted, release, holding_off, unqueue,
}
use bthome_writable.Slots.System.{
  System, Step, Reach, start, set_future, waits, arrives, cancels, resumes, interrupts, releases,
  resizes, holds_off, fires, here, next,
}
use bthome_writable.Slots.System.Futures.{granted_below, granted_below-pos}
use bthome_writable.Slots.System.Books.{
  Accounted, admit-Accounted, admit-granted, set_future-Accounted, known_future, acquire-Accounted,
  unqueue-same, unqueue-Accounted,
}

abbrev pub Balanced : System → Type 0
Balanced s = Accounted 0 s.gate s.held

interrupts-Balanced :
    (now : ℕ) (urgent : Bool) (held w : ℕ) (g : Gate) (f : Future)
    → g.futures w ≡ f
    → (f ≡ granted) ⊎ (f ≡ cancelled)
    → Accounted 0 g held
    → Accounted 0 (set_future w dropped (interrupted now urgent w g)) held
unfolding interrupted
interrupts-Balanced now urgent held w g granted e h a =
    let back : Gate = record g { in_flight = g.in_flight - 1 } in
    let below = known_future 0 held w g a (λ d. cc) in
    let some_granted = granted_below-pos g.futures w g.next_future e below in
    let given : Accounted 1 back held = record {
      slots = omega (arith, a.slots);
      known = a.known;
      unused = a.unused;
    } in
    let after = admit-Accounted now 1 held back given in
    let still = admit-granted now w back e in
    rw (e, interrupted)
      (set_future-Accounted 1 0 held held w dropped (admit now back)
        (known_future 1 held w (admit now back) after (λ d. cc)) (ground (arith, still)) after)
interrupts-Balanced now urgent held w g cancelled e h a =
    let below = known_future 0 held w g a (λ d. cc) in
    let after = unqueue-Accounted urgent held w g a in
    let (same_next, same_futures, _) = unqueue-same urgent w g in
    rw (e, interrupted)
      (set_future-Accounted 0 0 held held w dropped (unqueue urgent w g)
        (omega (arith, below, same_next)) (ground (arith, same_futures, e)) after)
interrupts-Balanced now urgent held w g pending e h a = absurd (ground arith)
interrupts-Balanced now urgent held w g dropped e h a = absurd (ground arith)

release-Balanced :
    (now owed held : ℕ) (g : Gate)
    → owed ≡ suc held
    → Accounted 0 g owed
    → Accounted 0 (release now g) held
unfolding release
release-Balanced now owed held g e a =
    let holds : ltb 0 g.in_flight ≡ true = lt→ltb _ _ (omega (arith, a.slots)) in
    rw holds (
      admit-Accounted now 0 held (record g { in_flight = g.in_flight - 1 })
        (record { slots = omega (arith, a.slots); known = a.known; unused = a.unused }))

resize-Balanced :
    (now limit held : ℕ) (g : Gate) → Accounted 0 g held → Accounted 0 (resize now limit g) held
unfolding resize
resize-Balanced now limit held g a = elim (Bool-cases (max 1 limit == g.limit)) [
  | inl same ↦ rw same a
  | inr other ↦ rw other (
      admit-Accounted now 0 held (record g { limit = max 1 limit })
        (record { slots = a.slots; known = a.known; unused = a.unused }))
]

hold_off-Balanced :
    (now seconds held : ℕ) (g : Gate)
    → Accounted 0 g held
    → Accounted 0 (hold_off now seconds g) held
unfolding hold_off
hold_off-Balanced now seconds held g a = elim (Bool-cases (ltb g.held_off_until (now + seconds))) [
  | inl later ↦ rw later (record { slots = a.slots; known = a.known; unused = a.unused })
  | inr sooner ↦ rw sooner a
]

resume-Balanced : (now held : ℕ) (g : Gate) → Accounted 0 g held → Accounted 0 (resume now g) held
unfolding resume
resume-Balanced now held g a = elim (Bool-cases (ltb 0 (holding_off g now))) [
  | inl cooling ↦ rw cooling (record { slots = a.slots; known = a.known; unused = a.unused })
  | inr warm ↦ rw warm (admit-Accounted now 0 held g a)
]

Step-Balanced : {s t : System} → Step s t → Balanced s → Balanced t
Step-Balanced (waits now h) a = a
Step-Balanced {s} (arrives urgent) a = acquire-Accounted s.clock urgent s.held s.gate a
Step-Balanced {s} (cancels w e) a =
    set_future-Accounted 0 0 s.held s.held w cancelled s.gate
      (known_future 0 s.held w s.gate a (λ d. cc)) (ground arith) a
Step-Balanced {s} (resumes w e) a =
    set_future-Accounted 0 0 s.held (s.held + 1) w dropped s.gate
      (known_future 0 s.held w s.gate a (λ d. cc)) (ground arith) a
Step-Balanced {s} (interrupts urgent w e) a =
    interrupts-Balanced s.clock urgent s.held w s.gate (s.gate.futures w) refl e a
Step-Balanced {s} (releases held e) a = release-Balanced s.clock s.held held s.gate e a
Step-Balanced {s} (resizes limit) a = resize-Balanced s.clock limit s.held s.gate a
Step-Balanced {s} (holds_off seconds) a = hold_off-Balanced s.clock seconds s.held s.gate a
Step-Balanced {s} (fires due m h) a =
    resume-Balanced s.clock s.held _
      (record { slots = a.slots; known = a.known; unused = a.unused })

start-Balanced : (limit : ℕ) → Balanced (start limit)
unfolding start init
start-Balanced limit = record {
  slots = unfold granted_below in refl;
  known = tt;
  unused = λ w h. refl;
}

Reach-Balanced : {s t : System} → Balanced s → Reach s t → Balanced t
Reach-Balanced a here = a
Reach-Balanced a (next r step) = Step-Balanced step (Reach-Balanced a r)

-- After any history of a fresh gate, the slots in flight are exactly those that callers hold and
-- those granted to a task that has not run on yet: a cancellation at any moment, before or after
-- the grant, loses no slot and frees none twice.
pub Reach-in_flight :
    (limit : ℕ) {s : System}
    → Reach (start limit) s
    → s.gate.in_flight ≡ s.held + granted_below s.gate.futures s.gate.next_future
Reach-in_flight limit r = omega (arith, (Reach-Balanced (start-Balanced limit) r).slots)
