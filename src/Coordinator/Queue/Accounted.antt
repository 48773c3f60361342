-- ===== src/Coordinator/Queue/Accounted.antt =====
-- No caller is forgotten: `async_write` and `_flush_soon` of
-- custom_components/bthome_writable/coordinator.py, over every order of events.
use bthome_writable.Common.{
  ℕ, ◌≡◌, ◌≢◌, sym, subst, ◌⊎◌, inl, inr, Bool, true, false, Option, none, some, List, [], ◌∷◌,
  ◌++◌, ◌==◌, Bool-cases, Error, write_failed, eq→==,
}
use bthome_writable.Slots.System.{Member}
use bthome_writable.Coordinator.Queue.{
  Waiter, Waiter.awaited, Waiter.succeeded, Waiter.failed, Queued, Commands, outcome, finish,
  settle, superseded, keep, supersede, strand,
}

-- The waiter of one of the items.
abbrev pub Waits : ℕ → List Queued → Type 0
Waits n [] = ⊥
Waits n (item ∷ items) = (item.waiter ≡ n) ⊎ Waits n items

abbrev pub InFlight : ℕ → Option (Queued × Bool) → Type 0
InFlight n none = ⊥
InFlight n (some (item, answered)) = (item.waiter ≡ n) × (answered ≡ false)

abbrev pub Settled : Waiter → Type 0
Settled w = w ≢ awaited

-- The caller has its answer, or its command waits or is in flight, or the task was cancelled under
-- its command.
abbrev pub Accounted : Commands → ℕ → Type 0
Accounted q n = Settled (q.waiters n) ⊎ Waits n q.pending ⊎ InFlight n q.in_flight ⊎ Member n q.lost

IsAwaited : Waiter → Type 0
IsAwaited awaited = Unit {0}
IsAwaited succeeded = ⊥
IsAwaited (failed e) = ⊥

outcome-Settled : (error : Option Error) → Settled (outcome error)
unfolding outcome IsAwaited
outcome-Settled none e = subst IsAwaited (sym e) tt
outcome-Settled (some x) e = subst IsAwaited (sym e) tt

finish-Settled : (w : Waiter) (error : Option Error) → Settled (finish w error)
unfolding finish IsAwaited
finish-Settled awaited error e = outcome-Settled error e
finish-Settled succeeded error e = subst IsAwaited (sym e) tt
finish-Settled (failed x) error e = subst IsAwaited (sym e) tt

pub settle-Settled :
    (n waiter : ℕ) (error : Option Error) (waiters : ℕ → Waiter)
    → Settled (waiters n)
    → Settled (settle waiter error waiters n)
unfolding settle
settle-Settled n waiter error waiters s = elim (Bool-cases (n == waiter)) [
  | inl same ↦ rw same (finish-Settled (waiters n) error)
  | inr other ↦ rw other s
]

pub settle_self :
    (n waiter : ℕ) (error : Option Error) (waiters : ℕ → Waiter)
    → waiter ≡ n
    → Settled (settle waiter error waiters n)
unfolding settle
settle_self n waiter error waiters e =
    let same : (n == waiter) ≡ true = eq→== _ _ (sym e) in
    rw same (finish-Settled (waiters n) error)

pub supersede-Settled :
    (n entry : ℕ) (items : List Queued) (waiters : ℕ → Waiter)
    → Settled (waiters n)
    → Settled (supersede entry items waiters n)
unfolding supersede
supersede-Settled n entry [] waiters s = s
supersede-Settled n entry (item ∷ items) waiters s = elim (Bool-cases (superseded entry item)) [
  | inl gone ↦
      rw gone (supersede-Settled n entry items _ (settle-Settled n item.waiter none waiters s))
  | inr stays ↦ rw stays (supersede-Settled n entry items waiters s)
]

-- Who waited still waits, or was told.
pub supersede-Waits :
    (n entry : ℕ) (items : List Queued) (waiters : ℕ → Waiter)
    → Waits n items
    → Settled (supersede entry items waiters n) ⊎ Waits n (keep entry items)
unfolding supersede keep
supersede-Waits n entry [] waiters w = absurd w
supersede-Waits n entry (item ∷ items) waiters w = elim (Bool-cases (superseded entry item)) [
  | inl gone ↦ rw gone (elim w [
    | inl here ↦
        inl (supersede-Settled n entry items _ (settle_self n item.waiter none waiters here))
    | inr later ↦ supersede-Waits n entry items _ later
  ])
  | inr stays ↦ rw stays (elim w [
    | inl here ↦ inr (inl here)
    | inr later ↦ elim (supersede-Waits n entry items waiters later) [
      | inl told ↦ inl told
      | inr waits ↦ inr (inr waits)
    ]
  ])
]

pub strand-Settled :
    (n : ℕ) (items : List Queued) (waiters : ℕ → Waiter)
    → Settled (waiters n)
    → Settled (strand items waiters n)
unfolding strand
strand-Settled n [] waiters s = s
strand-Settled n (item ∷ items) waiters s =
    strand-Settled n items _ (settle-Settled n item.waiter (some write_failed) waiters s)

pub strand-Waits :
    (n : ℕ) (items : List Queued) (waiters : ℕ → Waiter)
    → Waits n items
    → Settled (strand items waiters n)
unfolding strand
strand-Waits n [] waiters w = absurd w
strand-Waits n (item ∷ items) waiters (inl here) =
    strand-Settled n items _ (settle_self n item.waiter (some write_failed) waiters here)
strand-Waits n (item ∷ items) waiters (inr later) = strand-Waits n items _ later

pub Waits-front : (n : ℕ) (items more : List Queued) → Waits n items → Waits n (items ++ more)
Waits-front n [] more w = absurd w
Waits-front n (item ∷ items) more (inl here) = inl here
Waits-front n (item ∷ items) more (inr later) = inr (Waits-front n items more later)

pub Waits-last :
    (n : ℕ) (items : List Queued) (item : Queued) → item.waiter ≡ n → Waits n (items ++ (item ∷ []))
Waits-last n [] item e = inl e
Waits-last n (i ∷ items) item e = inr (Waits-last n items item e)
