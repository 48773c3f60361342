-- ===== src/Coordinator/Queue/Told.antt =====
-- No caller is forgotten: `async_write` and `_flush_soon` of
-- custom_components/bthome_writable/coordinator.py, over every order of events.
use bthome_writable.Common.{
  ℕ, ◌<◌, refl, inl, inr, Bool, true, false, Option, none, some, List, [], ◌∷◌, Option-cases,
  Bool-cases, list_cases, Error, arith,
}
use bthome_writable.Coordinator.Queue.{
  Queued, Commands, stop, take_next, answer, done, ended, cancel, loop, Event, Event.commands,
  Event.takes, Event.acknowledges, Event.cancels, Event.ends, happen, happens, idle,
}
use bthome_writable.Coordinator.Queue.Accounted.{Accounted}
use bthome_writable.Coordinator.Queue.Steps.{AllTold, async_write-Told, loop-Accounted}
use bthome_writable.Coordinator.Queue.Answered.{done-Accounted, ended-Accounted, cancel-Accounted}

-- Only `async_write` makes callers.
pub loop-callers :
    (n : ℕ) (q : Commands) (busy : Option (Queued × Bool)) (flushing : Bool)
    → n < (loop busy flushing q).next_waiter
    → n < q.next_waiter
unfolding loop take_next stop
loop-callers n q (some x) flushing h = h
loop-callers n q none false h = h
loop-callers n q none true h = elim (list_cases q.pending) [
  | inl empty ↦ rw (empty, take_next) at h
  | inr (item, items, e) ↦ rw (e, take_next) at h
]

pub done-callers : (n : ℕ) (q : Commands) → n < (done q).next_waiter → n < q.next_waiter
unfolding done answer
done-callers n q h = elim (Option-cases q.in_flight) [
  | inl free ↦ rw (free, done) at h
  | inr ((item, answered), e) ↦ rw (e, done) at h
]

pub ended-callers :
    (n : ℕ) (error : Option Error) (q : Commands)
    → n < (ended error q).next_waiter
    → n < q.next_waiter
unfolding ended answer
ended-callers n error q h = elim (Option-cases q.in_flight) [
  | inl free ↦ rw (free, ended) at h
  | inr ((item, true), e) ↦ rw (e, ended) at h
  | inr ((item, false), e) ↦ rw (e, ended) at h
]

pub cancel-callers : (n : ℕ) (q : Commands) → n < (cancel q).next_waiter → n < q.next_waiter
unfolding cancel stop
cancel-callers n q h = elim (Option-cases q.in_flight) [
  | inl free ↦ elim (Bool-cases q.flushing) [
    | inl runs ↦ rw (free, runs, cancel) at h
    | inr asleep ↦ rw (free, asleep, cancel) at h
  ]
  | inr ((item, true), e) ↦ rw (e, cancel) at h
  | inr ((item, false), e) ↦ rw (e, cancel) at h
]

happen-Told : (q : Commands) (e : Event) → AllTold q → AllTold (happen q e)
unfolding AllTold happen
happen-Told q (commands now entry value coalesce) t n h =
    async_write-Told now entry value coalesce q n t h
happen-Told q takes t n h =
    loop-Accounted n q q.in_flight q.flushing refl (t n (loop-callers n q q.in_flight q.flushing h))
happen-Told q acknowledges t n h = done-Accounted n q q.in_flight refl (t n (done-callers n q h))
happen-Told q cancels t n h =
    cancel-Accounted n q q.in_flight q.flushing refl refl (t n (cancel-callers n q h))
happen-Told q (ends error) t n h =
    ended-Accounted n error q q.in_flight refl (t n (ended-callers n error q h))

happens-Told : (q : Commands) (es : List Event) → AllTold q → AllTold (happens q es)
unfolding happens
happens-Told q [] t = t
happens-Told q (e ∷ es) t = happens-Told (happen q e) es (happen-Told q e t)

-- Whatever commands come, whatever happens to the one in flight and whenever the task is cancelled,
-- every caller has its answer, or its command waits in the queue or is in flight, or the task was
-- cancelled while its command was in flight.
pub idle-Accounted :
    (es : List Event) (n : ℕ) → n < (happens idle es).next_waiter → Accounted (happens idle es) n
unfolding AllTold
idle-Accounted es n h = happens-Told idle es (λ m none. absurd (omega arith)) n h
