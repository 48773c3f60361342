-- ===== src/Coordinator/Queue.antt =====
-- The queue of commands: `_settle`, `_Queued`, `async_write` and `_flush_soon` of
-- custom_components/bthome_writable/coordinator.py. `_write_now` is what `_flush_soon` waits for:
-- it comes back as the events `acknowledges` and `ends`. Nothing is awaited under the lock, so what
-- it covers is one step.
pub mod Coalescing
pub mod Accounted
pub mod Steps
pub mod Answered
pub mod Told
pub mod Examples
use bthome_writable.Common.{
  ℕ, suc, ◌+◌, Bool, true, false, not, ◌&&◌, Option, none, some, List, [], ◌∷◌, ◌++◌, if◌then◌else◌,
  ◌==◌, Error, write_failed,
}
use bthome_writable.Protocol.Walk.{Bytes}

-- A waiter is the future of one caller.
pub data Waiter : Type 0 where
  awaited succeeded : Waiter
  failed : Error → Waiter

pub record Queued : Type 0 where
  pub entry : ℕ
  pub value : Bytes
  pub coalesce : Bool
  pub queued_at : ℕ
  pub waiter : ℕ

-- `flushing`: the flush task is running. `in_flight`: the item it works on, and whether it is
-- answered. `reports` is what the listeners were told, the newest first. `lost` records the waiters
-- whose command was in flight and not answered when the task was cancelled.
pub record Commands : Type 0 where
  pub pending : List Queued
  pub waiters : ℕ → Waiter
  pub next_waiter : ℕ
  pub flushing : Bool
  pub in_flight : Option (Queued × Bool)
  pub reports : List (ℕ × Option Error)
  pub lost : List ℕ

pub outcome : Option Error → Waiter
outcome none = succeeded
outcome (some e) = failed e

-- `_settle`: a waiter that is done stays as it is.
pub finish : Waiter → Option Error → Waiter
finish awaited error = outcome error
finish succeeded error = succeeded
finish (failed e) error = failed e

pub settle : ℕ → Option Error → (ℕ → Waiter) → ℕ → Waiter
settle waiter error waiters n = if n == waiter then finish (waiters n) error else waiters n

-- The item is the one that a new command for the entry replaces.
pub superseded : ℕ → Queued → Bool
superseded entry item = item.entry == entry && item.coalesce

pub keep : ℕ → List Queued → List Queued
keep entry [] = []
keep entry (item ∷ items) =
    let rest = keep entry items in if superseded entry item then rest else item ∷ rest

-- The callers of the items that are replaced are told that they succeeded.
pub supersede : ℕ → List Queued → (ℕ → Waiter) → ℕ → Waiter
supersede entry [] waiters = waiters
supersede entry (item ∷ items) waiters =
    let settled = if superseded entry item then settle item.waiter none waiters else waiters in
    supersede entry items settled

-- `async_write` up to its last line, at the monotonic time `now`.
pub async_write : ℕ → ℕ → Bytes → Bool → Commands → Commands
async_write now entry value coalesce q =
    let item : Queued = record {
      entry = entry;
      value = value;
      coalesce = coalesce;
      queued_at = now;
      waiter = q.next_waiter;
    } in
    let kept = if coalesce then keep entry q.pending else q.pending in
    let settled = if coalesce then supersede entry q.pending q.waiters else q.waiters in
    record q {
      pending = kept ++ (item ∷ []);
      waiters = settled;
      next_waiter = suc q.next_waiter;
      flushing = true;
    }

-- The `finally` of `_flush_soon`.
pub strand : List Queued → (ℕ → Waiter) → ℕ → Waiter
strand [] waiters = waiters
strand (item ∷ items) waiters = strand items (settle item.waiter (some write_failed) waiters)

pub stop : Commands → Commands
stop q = record q {
  pending = [];
  waiters = strand q.pending q.waiters;
  flushing = false;
  in_flight = none;
}

-- The top of the loop: the next item, or the end.
pub take_next : Commands → Commands
take_next q = elim q.pending [
  | [] ↦ stop q
  | item ∷ items ↦ record q { pending = items; in_flight = some (item, false) }
]

-- `_report` and `_settle` of the item in flight.
pub answer : Queued → Option Error → Commands → Commands
answer item error q = record q {
  waiters = settle item.waiter error q.waiters;
  reports = (item.entry, error) ∷ q.reports;
}

-- `done`, which `_write_now` calls when the device has acknowledged.
pub done : Commands → Commands
done q = elim q.in_flight [
  | none ↦ q
  | some (item, answered) ↦ record (answer item none q) { in_flight = some (item, true) }
]

-- `_write_now` returned, or raised.
pub ended : Option Error → Commands → Commands
ended error q = elim q.in_flight [
  | none ↦ q
  | some (item, true) ↦ record q { in_flight = none }
  | some (item, false) ↦ record (answer item error q) { in_flight = none }
]

-- The task is cancelled while it waits for the lock or for `_write_now`.
pub cancel : Commands → Commands
cancel q = elim q.in_flight [
  | none ↦ if q.flushing then stop q else q
  | some (item, true) ↦ stop q
  | some (item, false) ↦ stop (record q { lost = item.waiter ∷ q.lost })
]

-- The loop takes an item when the task runs and nothing is in flight.
pub loop : Option (Queued × Bool) → Bool → Commands → Commands
loop none true q = take_next q
loop none false q = q
loop (some busy) flushing q = q

pub data Event : Type 0 where
  commands : ℕ → ℕ → Bytes → Bool → Event
  takes acknowledges cancels : Event
  ends : Option Error → Event

pub happen : Commands → Event → Commands
happen q (commands now entry value coalesce) = async_write now entry value coalesce q
happen q takes = loop q.in_flight q.flushing q
happen q acknowledges = done q
happen q cancels = cancel q
happen q (ends error) = ended error q

pub happens : Commands → List Event → Commands
happens q [] = q
happens q (e ∷ es) = happens (happen q e) es

abbrev pub idle : Commands
idle = record {
  pending = [];
  waiters = λ n. awaited;
  next_waiter = 0;
  flushing = false;
  in_flight = none;
  reports = [];
  lost = [];
}
