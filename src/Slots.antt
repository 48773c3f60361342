-- ===== src/Slots.antt =====
-- `ConnectionSlots` of custom_components/bthome_writable/slots.py. A future is a number, its state
-- is kept in the gate, and the clock is an argument, in ticks. A method is the code up to its next
-- `await`; the event loop's `call_later` is the list of times at which `_resume` is due.
pub mod Admission
pub mod System
pub mod Requests
pub mod Examples
use bthome_writable.Common.{
  ℕ, zero, suc, ◌+◌, ◌-◌, Bool, true, false, ◌&&◌, max, Option, none, some, List, [], ◌∷◌, ◌++◌,
  if◌then◌else◌, ltb, ◌==◌, length,
}

-- `pending`, `granted` and `cancelled` are asyncio's pending, finished and cancelled. `dropped` is a
-- future that its task has picked up.
pub data Future : Type 0 where
  pending granted cancelled dropped : Future

pub record Gate : Type 0 where
  pub limit : ℕ
  pub in_flight : ℕ
  pub urgent : List ℕ
  pub ordinary : List ℕ
  pub held_off_until : ℕ
  pub timers : List ℕ
  pub futures : ℕ → Future
  pub next_future : ℕ

pub init : ℕ → Gate
init limit = record {
  limit = max 1 limit;
  in_flight = 0;
  urgent = [];
  ordinary = [];
  held_off_until = 0;
  timers = [];
  futures = λ w. dropped;
  next_future = 0;
}

abbrev pub waiting : Gate → ℕ
waiting g = length g.urgent + length g.ordinary

-- `max(0.0, self._held_off_until - time.monotonic())`
abbrev pub holding_off : Gate → ℕ → ℕ
holding_off g now = g.held_off_until - now

abbrev pub update : (ℕ → Future) → ℕ → Future → ℕ → Future
update futures w f v = if v == w then f else futures v

abbrev pub is_pending : Future → Bool
is_pending pending = true
is_pending _ = false

-- `(self._urgent or self._ordinary).popleft()`, with both queues afterwards.
pub popleft : List ℕ → List ℕ → Option (ℕ × List ℕ × List ℕ)
popleft [] [] = none
popleft [] (w ∷ ordinary) = some (w, [], ordinary)
popleft (w ∷ urgent) ordinary = some (w, urgent, ordinary)

-- One turn of `_admit`'s loop for a waiter taken from its queue.
abbrev pub grant : ℕ → Gate → Gate
grant w g =
    if is_pending (g.futures w)
    then record g { in_flight = g.in_flight + 1; futures = update g.futures w granted }
    else g

pub admit_loop : ℕ → Gate → Gate
unfolding popleft
admit_loop zero g = g
admit_loop (suc fuel) g = elim (ltb 0 (waiting g) && ltb g.in_flight g.limit) [
  | false ↦ g
  | true ↦ elim (popleft g.urgent g.ordinary) [
    | none ↦ g
    | some (w, urgent, ordinary) ↦
        admit_loop fuel (grant w (record g { urgent = urgent; ordinary = ordinary }))
  ]
]

-- Each turn takes a waiter off its queue, so as many turns as waiters are enough.
pub admit : ℕ → Gate → Gate
admit now g = if ltb 0 (holding_off g now) then g else admit_loop (waiting g) g

pub resize : ℕ → ℕ → Gate → Gate
resize now limit g =
    if max 1 limit == g.limit then g else admit now (record g { limit = max 1 limit })

abbrev pub resume_later : ℕ → ℕ → Gate → Gate
resume_later now seconds g = record g { timers = (now + seconds) ∷ g.timers }

pub hold_off : ℕ → ℕ → Gate → Gate
hold_off now seconds g =
    if ltb g.held_off_until (now + seconds)
    then resume_later now seconds (record g { held_off_until = now + seconds })
    else g

-- `_resume`, when the timer that was due calls it.
pub resume : ℕ → Gate → Gate
resume now g =
    if ltb 0 (holding_off g now) then resume_later now (holding_off g now) g else admit now g

-- What `acquire` comes to: a sleep after which it tests again, a slot, or a future to wait for.
pub data Acquired : Type 0 where
  asleep : ℕ → Acquired
  taken : Acquired
  queued : ℕ → Acquired

pub enqueue : Bool → ℕ → Gate → Gate
enqueue true w g = record g { urgent = g.urgent ++ (w ∷ []) }
enqueue false w g = record g { ordinary = g.ordinary ++ (w ∷ []) }

pub acquire : ℕ → Bool → Gate → Gate × Acquired
unfolding enqueue
acquire now urgent g =
    if ltb 0 (holding_off g now)
    then (g, asleep (holding_off g now))
    else if waiting g == 0 && ltb g.in_flight g.limit
    then (record g { in_flight = g.in_flight + 1 }, taken)
    else (
      enqueue urgent g.next_future (record g {
        futures = update g.futures g.next_future pending;
        next_future = g.next_future + 1;
      }),
      queued g.next_future,
    )

pub remove_first : ℕ → List ℕ → List ℕ
remove_first w [] = []
remove_first w (v ∷ ws) = let rest = remove_first w ws in if v == w then ws else v ∷ rest

pub unqueue : Bool → ℕ → Gate → Gate
unfolding remove_first
unqueue true w g = record g { urgent = remove_first w g.urgent }
unqueue false w g = record g { ordinary = remove_first w g.ordinary }

-- The `except asyncio.CancelledError` of `acquire`.
pub interrupted : ℕ → Bool → ℕ → Gate → Gate
unfolding unqueue
interrupted now urgent w g = elim (g.futures w) [
  | granted ↦ admit now (record g { in_flight = g.in_flight - 1 })
  | _ ↦ unqueue urgent w g
]

pub release : ℕ → Gate → Gate
release now g =
    admit now (if ltb 0 g.in_flight then record g { in_flight = g.in_flight - 1 } else g)
