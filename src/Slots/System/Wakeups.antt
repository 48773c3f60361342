-- ===== src/Slots/System/Wakeups.antt =====
-- No waiter of slots.py is forgotten: while somebody waits, the cap is spent or a timer is due.
use bthome_writable.Common.{
  ℕ, ◌+◌, ◌-◌, ◌≤◌, ◌≡◌, ◌≢◌, refl, sym, ◌∙◌, ◌⊎◌, inl, inr, Bool, true, false, List, [], ◌∷◌, ltb,
  ◌==◌, ◌&&◌, max, length, Bool-cases, ==→eq, arith,
}
use bthome_writable.Slots.{
  Gate, Future, pending, granted, cancelled, dropped, update, init, admit, resize, hold_off, resume,
  acquire, interrupted, release, remove_first, holding_off, unqueue, enqueue, waiting,
}
use bthome_writable.Slots.Admission.{Drained, admit-Admits}
use bthome_writable.Slots.System.{
  System, Step, Reach, Member, start, waits, arrives, cancels, resumes, interrupts, releases,
  resizes, holds_off, fires, here, next,
}

-- `rearmed`: while connections are held off, a timer is set for the moment that ends. `moving`: a
-- waiter is left waiting only by a spent cap or with that timer to come.
pub record Awake (clock : ℕ) (g : Gate) : Type 0 where
  pub rearmed : Member g.held_off_until g.timers ⊎ (g.held_off_until ≤ clock)
  pub moving : Drained g ⊎ Member g.held_off_until g.timers

admit-Awake :
    (clock : ℕ) (g : Gate)
    → Member g.held_off_until g.timers ⊎ (g.held_off_until ≤ clock)
    → Awake clock (admit clock g)
admit-Awake clock g armed = elim (admit-Admits clock g) [
  | inl (cooling, e) ↦ rw e (record {
    rearmed = armed;
    moving = elim armed [ inl m ↦ inr m | inr p ↦ absurd (omega arith) ];
  })
  | inr (warm, (front, s, drained)) ↦ record {
    rearmed = inr (omega (arith, s.same_hold));
    moving = inl drained;
  }
]

Member-remove_first : (d u : ℕ) (ts : List ℕ) → u ≢ d → Member u ts → Member u (remove_first d ts)
unfolding remove_first
Member-remove_first d u [] h m = m
Member-remove_first d u (t ∷ ts) h m = elim (Bool-cases (t == d)) [
  | inl gone ↦ rw gone (elim m [ inl e ↦ absurd (h (sym e ∙ ==→eq _ _ gone)) | inr later ↦ later ])
  | inr kept ↦
      rw kept (elim m [ inl e ↦ inl e | inr later ↦ inr (Member-remove_first d u ts h later) ])
]

length-remove_first : (w : ℕ) (ws : List ℕ) → length (remove_first w ws) ≤ length ws
unfolding remove_first
length-remove_first w [] = omega arith
length-remove_first w (v ∷ ws) = ground (arith, length-remove_first w ws)

enqueue-Awake :
    (clock : ℕ) (urgent : Bool) (w : ℕ) (g : Gate)
    → (g.limit ≤ g.in_flight) ⊎ Member g.held_off_until g.timers
    → Awake clock g
    → Awake clock (enqueue urgent w g)
unfolding enqueue
enqueue-Awake clock true w g stuck a = record {
  rearmed = a.rearmed;
  moving = elim stuck [ inl full ↦ inl (inr full) | inr m ↦ inr m ];
}
enqueue-Awake clock false w g stuck a = record {
  rearmed = a.rearmed;
  moving = elim stuck [ inl full ↦ inl (inr full) | inr m ↦ inr m ];
}

acquire-Awake :
    (clock : ℕ) (urgent : Bool) (g : Gate) → Awake clock g → Awake clock (acquire clock urgent g).0
unfolding acquire
acquire-Awake clock urgent g a = elim (Bool-cases (ltb 0 (holding_off g clock))) [
  | inl cooling ↦ rw cooling a
  | inr warm ↦ elim (Bool-cases (waiting g == 0 && ltb g.in_flight g.limit)) [
    | inl room ↦ rw (warm, room) (record { rearmed = a.rearmed; moving = inl (inl (ground arith)) })
    | inr full ↦
        let stuck : (g.limit ≤ g.in_flight) ⊎ Member g.held_off_until g.timers = elim a.moving [
          | inr m ↦ inr m
          | inl (inr spent) ↦ inl spent
          | inl (inl nobody) ↦ inl (ground arith)
        ] in
        rw (warm, full)
          (enqueue-Awake clock urgent g.next_future
            (record g {
              futures = update g.futures g.next_future pending;
              next_future = g.next_future + 1;
            })
            stuck (record { rearmed = a.rearmed; moving = a.moving }))
  ]
]

unqueue-Awake :
    (clock : ℕ) (urgent : Bool) (w : ℕ) (g : Gate)
    → Awake clock g
    → Awake clock (unqueue urgent w g)
unfolding unqueue
unqueue-Awake clock true w g a = record {
  rearmed = a.rearmed;
  moving = elim a.moving [
    | inr m ↦ inr m
    | inl (inr spent) ↦ inl (inr spent)
    | inl (inl nobody) ↦ inl (inl (omega (arith, length-remove_first w g.urgent)))
  ];
}
unqueue-Awake clock false w g a = record {
  rearmed = a.rearmed;
  moving = elim a.moving [
    | inr m ↦ inr m
    | inl (inr spent) ↦ inl (inr spent)
    | inl (inl nobody) ↦ inl (inl (omega (arith, length-remove_first w g.ordinary)))
  ];
}

interrupted-Awake :
    (clock : ℕ) (urgent : Bool) (w : ℕ) (g : Gate) (f : Future)
    → g.futures w ≡ f
    → Awake clock g
    → Awake clock (interrupted clock urgent w g)
unfolding interrupted
interrupted-Awake clock urgent w g granted e a =
    rw (e, interrupted) (admit-Awake clock (record g { in_flight = g.in_flight - 1 }) a.rearmed)
interrupted-Awake clock urgent w g cancelled e a =
    rw (e, interrupted) (unqueue-Awake clock urgent w g a)
interrupted-Awake clock urgent w g pending e a =
    rw (e, interrupted) (unqueue-Awake clock urgent w g a)
interrupted-Awake clock urgent w g dropped e a =
    rw (e, interrupted) (unqueue-Awake clock urgent w g a)

release-Awake : (clock : ℕ) (g : Gate) → Awake clock g → Awake clock (release clock g)
unfolding release
release-Awake clock g a = elim (Bool-cases (ltb 0 g.in_flight)) [
  | inl some_held ↦
      rw some_held (admit-Awake clock (record g { in_flight = g.in_flight - 1 }) a.rearmed)
  | inr idle ↦ rw idle (admit-Awake clock g a.rearmed)
]

resize-Awake : (clock limit : ℕ) (g : Gate) → Awake clock g → Awake clock (resize clock limit g)
unfolding resize
resize-Awake clock limit g a = elim (Bool-cases (max 1 limit == g.limit)) [
  | inl same ↦ rw same a
  | inr other ↦ rw other (admit-Awake clock (record g { limit = max 1 limit }) a.rearmed)
]

hold_off-Awake :
    (clock seconds : ℕ) (g : Gate) → Awake clock g → Awake clock (hold_off clock seconds g)
unfolding hold_off
hold_off-Awake clock seconds g a = elim (Bool-cases (ltb g.held_off_until (clock + seconds))) [
  | inl later ↦ rw later (record { rearmed = inl (inl refl); moving = inr (inl refl) })
  | inr sooner ↦ rw sooner a
]

resume-Awake :
    (clock : ℕ) (g : Gate)
    → Member g.held_off_until g.timers ⊎ (g.held_off_until ≤ clock)
    → Awake clock (resume clock g)
unfolding resume
resume-Awake clock g armed = elim (Bool-cases (ltb 0 (holding_off g clock))) [
  | inl cooling ↦
      let end : clock + holding_off g clock ≡ g.held_off_until = ground arith in
      rw cooling (record { rearmed = inl (inl end); moving = inr (inl end) })
  | inr warm ↦ rw warm (admit-Awake clock g armed)
]

fired-armed :
    (due clock until : ℕ) (timers : List ℕ)
    → due ≤ clock
    → Member until timers ⊎ (until ≤ clock)
    → Member until (remove_first due timers) ⊎ (until ≤ clock)
fired-armed due clock until timers h (inr past) = inr past
fired-armed due clock until timers h (inl m) = elim (Bool-cases (until == due)) [
  | inl same ↦ inr (ground arith)
  | inr other ↦ inl (Member-remove_first due until timers (ground arith) m)
]

Step-Awake : {s t : System} → Step s t → Awake s.clock s.gate → Awake t.clock t.gate
Step-Awake {s} (waits now h) a = record {
  rearmed = elim a.rearmed [ inl m ↦ inl m | inr p ↦ inr (omega arith) ];
  moving = a.moving;
}
Step-Awake {s} (arrives urgent) a = acquire-Awake s.clock urgent s.gate a
Step-Awake {s} (cancels w e) a = record { rearmed = a.rearmed; moving = a.moving }
Step-Awake {s} (resumes w e) a = record { rearmed = a.rearmed; moving = a.moving }
Step-Awake {s} (interrupts urgent w e) a =
    let after = interrupted-Awake s.clock urgent w s.gate (s.gate.futures w) refl a in
    record { rearmed = after.rearmed; moving = after.moving }
Step-Awake {s} (releases held e) a = release-Awake s.clock s.gate a
Step-Awake {s} (resizes limit) a = resize-Awake s.clock limit s.gate a
Step-Awake {s} (holds_off seconds) a = hold_off-Awake s.clock seconds s.gate a
Step-Awake {s} (fires due m h) a =
    resume-Awake s.clock (record s.gate { timers = remove_first due s.gate.timers })
      (fired-armed due s.clock s.gate.held_off_until s.gate.timers h a.rearmed)

start-Awake : (limit : ℕ) → Awake 0 (start limit).gate
unfolding start init
start-Awake limit = record { rearmed = inr (omega arith); moving = inl (inl refl) }

start-clock : (limit : ℕ) → (start limit).clock ≡ 0
unfolding start
start-clock limit = refl

Reach-Awake_from : {s t : System} → Awake s.clock s.gate → Reach s t → Awake t.clock t.gate
Reach-Awake_from a here = a
Reach-Awake_from a (next r step) = Step-Awake step (Reach-Awake_from a r)

-- After any history of a fresh gate, nobody waits while there is room: either the queues are empty,
-- or the slots in flight have reached the limit, or a timer is set for the very moment that the
-- hold-off ends. A hold-off always leaves that timer while it lasts.
pub Reach-Awake : (limit : ℕ) {s : System} → Reach (start limit) s → Awake s.clock s.gate
Reach-Awake limit r = Reach-Awake_from (rw start-clock (start-Awake limit)) r
