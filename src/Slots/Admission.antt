-- ===== src/Slots/Admission.antt =====
-- Whom `_admit` of slots.py lets through: the pending waiters, commands first, each queue in the
-- order of arrival, as many as the limit allows.
use bthome_writable.Common.{
  ℕ, zero, suc, ◌+◌, ◌≤◌, ◌<◌, ◌≡◌, refl, ap, ◌∙◌, ◌⊎◌, inl, inr, true, none, some, List, [], ◌∷◌,
  ◌++◌, if◌then◌else◌, ltb, length, Bool-cases, arith, ltb_false→le, ltb→lt, max, ltb→lt, max,
}
use bthome_writable.Slots.{
  Future, granted, Gate, waiting, update, is_pending, popleft, grant, admit_loop, admit,
  holding_off,
}

-- Everyone in a queue, in the order in which `_admit` takes them.
abbrev pub line : Gate → List ℕ
line g = g.urgent ++ g.ordinary

-- The futures after the waiters of a list have had their turn, and how many of them took a slot.
unfoldable pub mark : (ℕ → Future) → List ℕ → ℕ → Future
mark futures [] = futures
mark futures (w ∷ ws) =
    mark (if is_pending (futures w) then update futures w granted else futures) ws

unfoldable pub slots_taken : (ℕ → Future) → List ℕ → ℕ
slots_taken futures [] = 0
slots_taken futures (w ∷ ws) =
    (if is_pending (futures w) then 1 else 0)
    + slots_taken (if is_pending (futures w) then update futures w granted else futures) ws

-- The waiters of `front` have been served, in order; nobody else has, and nothing else changed.
pub record Served (g h : Gate) (front : List ℕ) : Type 0 where
  pub in_order : line g ≡ front ++ line h
  pub marked : h.futures ≡ mark g.futures front
  pub capped : h.in_flight ≤ max g.in_flight g.limit
  pub counted : h.in_flight ≡ g.in_flight + slots_taken g.futures front
  pub same_limit : h.limit ≡ g.limit
  pub same_timers : h.timers ≡ g.timers
  pub same_hold : h.held_off_until ≡ g.held_off_until
  pub same_next : h.next_future ≡ g.next_future

-- Nobody waits while there is room.
abbrev pub Drained : Gate → Type 0
Drained g = (waiting g ≡ 0) ⊎ (g.limit ≤ g.in_flight)

-- One waiter's turn, taken from the front of the line.
record Turn (g h : Gate) (w : ℕ) : Type 0 where
  first : line g ≡ w ∷ line h
  fewer : waiting g ≡ suc (waiting h)
  marked : h.futures ≡ (if is_pending (g.futures w) then update g.futures w granted else g.futures)
  counted : h.in_flight ≡ g.in_flight + (if is_pending (g.futures w) then 1 else 0)
  same_limit : h.limit ≡ g.limit
  same_timers : h.timers ≡ g.timers
  same_hold : h.held_off_until ≡ g.held_off_until
  same_next : h.next_future ≡ g.next_future

popleft_cases :
    (urgent ordinary : List ℕ)
    → (popleft urgent ordinary ≡ none) × (length urgent + length ordinary ≡ 0)
      ⊎ ((w : ℕ) × (urgent' : List ℕ) × (ordinary' : List ℕ) × (popleft urgent ordinary
            ≡ some (w, urgent', ordinary'))
          × (urgent ++ ordinary ≡ w ∷ urgent' ++ ordinary')
          × (length urgent + length ordinary ≡ suc (length urgent' + length ordinary')))
unfolding popleft
popleft_cases [] [] = inl (refl, refl)
popleft_cases [] (w ∷ ordinary) = inr (w, [], ordinary, refl, refl, omega arith)
popleft_cases (w ∷ urgent) ordinary = inr (w, urgent, ordinary, refl, refl, omega arith)

grant-Turn :
    (g : Gate) (w : ℕ) (urgent ordinary : List ℕ)
    → line g ≡ w ∷ urgent ++ ordinary
    → waiting g ≡ suc (length urgent + length ordinary)
    → Turn g (grant w (record g { urgent = urgent; ordinary = ordinary })) w
grant-Turn g w urgent ordinary first fewer = elim (Bool-cases (is_pending (g.futures w))) [
  | inl p ↦ record {
    first = rw (p, grant) first;
    fewer = rw (p, grant) fewer;
    marked = rw p;
    counted = rw p;
    same_limit = rw p;
    same_timers = rw p;
    same_hold = rw p;
    same_next = rw p;
  }
  | inr p ↦ record {
    first = rw (p, grant) first;
    fewer = rw (p, grant) fewer;
    marked = rw p;
    counted = rw p (omega arith);
    same_limit = rw p;
    same_timers = rw p;
    same_hold = rw p;
    same_next = rw p;
  }
]

-- The loop ends, or one waiter has its turn and it goes on.
admit_loop_cases :
    (fuel : ℕ) (g : Gate)
    → ((admit_loop (suc fuel) g ≡ g) × Drained g)
      ⊎ ((w : ℕ) × (h : Gate) × (admit_loop (suc fuel) g ≡ admit_loop fuel h)
          × (g.in_flight < g.limit)
          × Turn g h w)
unfolding admit_loop
admit_loop_cases fuel g = elim (popleft_cases g.urgent g.ordinary) [
  | inl (e, empty) ↦ inl (ground (arith, empty, e), inl empty)
  | inr (w, urgent, ordinary, e, first, fewer) ↦ elim (Bool-cases (ltb g.in_flight g.limit)) [
    | inl room ↦ inr (
      w,
      grant w (record g { urgent = urgent; ordinary = ordinary }),
      (let some_wait : ltb 0 (waiting g) ≡ true = ground (arith, fewer) in
          rw (some_wait, room, e, admit_loop)),
      ltb→lt _ _ room,
      grant-Turn g w urgent ordinary first fewer,
    )
    | inr full ↦ inl (ground (arith, fewer), inr (ltb_false→le _ _ full))
  ]
]

one_slot : (f : Future) → (if is_pending f then 1 else 0) ≤ 1
one_slot f = ground arith

admit_loop-Served :
    (fuel : ℕ) (g : Gate)
    → waiting g ≤ fuel
    → (front : List ℕ) × Served g (admit_loop fuel g) front × Drained (admit_loop fuel g)
unfolding admit_loop mark slots_taken
admit_loop-Served zero g h = (
  [],
  record {
    in_order = refl;
    marked = refl;
    counted = omega arith;
    capped = omega arith;
    same_limit = refl;
    same_timers = refl;
    same_hold = refl;
    same_next = refl;
  },
  inl (omega arith),
)
admit_loop-Served (suc fuel) g h = elim (admit_loop_cases fuel g) [
  | inl (e, drained) ↦ rw e (
    [],
    record {
      in_order = refl;
      marked = refl;
      counted = omega arith;
      capped = omega arith;
      same_limit = refl;
      same_timers = refl;
      same_hold = refl;
      same_next = refl;
    },
    drained,
  )
  | inr (w, k, e, room, turn) ↦
      let (front, served, drained) = admit_loop-Served fuel k (omega (arith, turn.fewer)) in
      rw e (
        w ∷ front,
        record {
          in_order = turn.first ∙ ap (λ t. w ∷ t) served.in_order;
          marked = served.marked ∙ ap (λ f. mark f front) turn.marked;
          counted = omega (
            arith,
            served.counted,
            turn.counted,
            ap (λ (f : ℕ → Future). slots_taken f front) turn.marked,
          );
          capped =
              omega
                (arith, served.capped, turn.counted, turn.same_limit, room, one_slot (g.futures w));
          same_limit = served.same_limit ∙ turn.same_limit;
          same_timers = served.same_timers ∙ turn.same_timers;
          same_hold = served.same_hold ∙ turn.same_hold;
          same_next = served.same_next ∙ turn.same_next;
        },
        drained,
      )
]

-- What `_admit` does at a time: nothing while connections are held off; else it serves from the
-- front of the line until nobody waits or the limit is reached.
abbrev pub Admits : ℕ → Gate → Gate → Type 0
Admits now g h =
    ((now < g.held_off_until) × (h ≡ g))
    ⊎ ((g.held_off_until ≤ now) × ((front : List ℕ) × Served g h front × Drained h))

-- `_admit` takes the waiters of a prefix of the line, commands before housekeeping and each queue in
-- its order of arrival, gives a slot to those of them that still wait and to no other, and stops
-- only when nobody is left or the limit is reached; while connections are held off it changes
-- nothing.
pub admit-Admits : (now : ℕ) (g : Gate) → Admits now g (admit now g)
unfolding admit
admit-Admits now g = elim (Bool-cases (ltb 0 (holding_off g now))) [
  | inl cooling ↦ inl (ground arith, rw cooling)
  | inr warm ↦ inr (ground arith, rw warm (admit_loop-Served (waiting g) g (omega arith)))
]
