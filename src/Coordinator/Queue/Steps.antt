-- ===== src/Coordinator/Queue/Steps.antt =====
-- What a new command and the next one taken mean for the callers: `async_write` and `_flush_soon`
-- of custom_components/bthome_writable/coordinator.py.
use bthome_writable.Common.{
  ℕ, suc, ◌<◌, ◌≡◌, refl, sym, subst, ◌⊎◌, inl, inr, Bool, true, false, Option, none, some, List,
  [], ◌∷◌, Bool-cases, ◌==◌, ==→eq, arith,
}
use bthome_writable.Protocol.Walk.{Bytes}
use bthome_writable.Slots.System.{Member}
use bthome_writable.Coordinator.Queue.{Queued, Commands, keep, async_write, stop, take_next, loop}
use bthome_writable.Coordinator.Queue.Accounted.{
  Waits, InFlight, Settled, Accounted, supersede-Settled, supersede-Waits, strand-Settled,
  strand-Waits, Waits-front, Waits-last,
}

-- Every caller so far.
unfoldable pub AllTold : Commands → Type 0
AllTold q = (n : ℕ) → n < q.next_waiter → Accounted q n

pub stop-Accounted :
    (n : ℕ) (q : Commands)
    → Settled (q.waiters n) ⊎ Waits n q.pending ⊎ Member n q.lost
    → Accounted (stop q) n
unfolding stop
stop-Accounted n q (inl told) = inl (strand-Settled n q.pending q.waiters told)
stop-Accounted n q (inr (inl waits)) = inl (strand-Waits n q.pending q.waiters waits)
stop-Accounted n q (inr (inr lost)) = inr (inr (inr lost))

-- An accounted caller, by the item in flight.
pub by_flight :
    (n : ℕ) (q : Commands) (busy : Option (Queued × Bool))
    → q.in_flight ≡ busy
    → Accounted q n
    → Settled (q.waiters n) ⊎ Waits n q.pending ⊎ InFlight n busy ⊎ Member n q.lost
by_flight n q busy e a =
    subst (λ f. Settled (q.waiters n) ⊎ Waits n q.pending ⊎ InFlight n f ⊎ Member n q.lost) e a

pub no_flight :
    (n : ℕ) (q : Commands)
    → Settled (q.waiters n) ⊎ Waits n q.pending ⊎ InFlight n none ⊎ Member n q.lost
    → Settled (q.waiters n) ⊎ Waits n q.pending ⊎ Member n q.lost
no_flight n q (inl told) = inl told
no_flight n q (inr (inl waits)) = inr (inl waits)
no_flight n q (inr (inr (inl nothing))) = elim nothing [ ]
no_flight n q (inr (inr (inr lost))) = inr (inr lost)

-- The items of `async_write`, before and with the new one.
old_caller :
    (n now entry : ℕ) (value : Bytes) (coalesce : Bool) (q : Commands)
    → Accounted q n
    → Accounted (async_write now entry value coalesce q) n
unfolding async_write
old_caller n now entry value coalesce q (inr (inr other)) = inr (inr other)
old_caller n now entry value true q (inl told) =
    inl (supersede-Settled n entry q.pending q.waiters told)
old_caller n now entry value true q (inr (inl waits)) =
    elim (supersede-Waits n entry q.pending q.waiters waits) [
      | inl told ↦ inl told
      | inr waits ↦ inr (inl (Waits-front n (keep entry q.pending) _ waits))
    ]
old_caller n now entry value false q (inl told) = inl told
old_caller n now entry value false q (inr (inl waits)) = inr (inl (Waits-front n q.pending _ waits))

new_caller :
    (now entry : ℕ) (value : Bytes) (coalesce : Bool) (q : Commands)
    → Accounted (async_write now entry value coalesce q) q.next_waiter
unfolding async_write
new_caller now entry value true q =
    inr (inl (Waits-last q.next_waiter (keep entry q.pending) _ refl))
new_caller now entry value false q = inr (inl (Waits-last q.next_waiter q.pending _ refl))

pub async_write-Told :
    (now entry : ℕ) (value : Bytes) (coalesce : Bool) (q : Commands) (n : ℕ)
    → AllTold q
    → n < (async_write now entry value coalesce q).next_waiter
    → Accounted (async_write now entry value coalesce q) n
unfolding AllTold
async_write-Told now entry value coalesce q n t h =
    let below : n < suc q.next_waiter = unfold async_write in h in
    elim (Bool-cases (n == q.next_waiter)) [
      | inl same ↦
          subst (Accounted (async_write now entry value coalesce q)) (sym (==→eq _ _ same))
            (new_caller now entry value coalesce q)
      | inr other ↦ old_caller n now entry value coalesce q (t n (ground arith))
    ]

take_next-Accounted :
    (n : ℕ) (q : Commands) (items : List Queued)
    → q.pending ≡ items
    → q.in_flight ≡ none
    → Accounted q n
    → Accounted (take_next q) n
take_next-Accounted n q [] e free a =
    let is : take_next q ≡ stop q = unfold take_next in rw e in
    subst (λ r. Accounted r n) (sym is)
      (stop-Accounted n q (no_flight n q (by_flight n q none free a)))
take_next-Accounted n q (item ∷ items) e free a =
    let is : take_next q ≡ record q { pending = items; in_flight = some (item, false) } =
      unfold take_next in rw e in
    subst (λ r. Accounted r n) (sym is)
      (elim (by_flight n q none free a) [
        | inl told ↦ inl told
        | inr (inl waits) ↦ elim (subst (Waits n) e waits) [
          | inl here ↦ inr (inr (inl (here, refl)))
          | inr later ↦ inr (inl later)
        ]
        | inr (inr (inl nothing)) ↦ elim nothing [ ]
        | inr (inr (inr lost)) ↦ inr (inr (inr lost))
      ])

pub loop-Accounted :
    (n : ℕ) (q : Commands) (busy : Option (Queued × Bool)) (flushing : Bool)
    → q.in_flight ≡ busy
    → Accounted q n
    → Accounted (loop busy flushing q) n
unfolding loop
loop-Accounted n q none true free a = take_next-Accounted n q q.pending refl free a
loop-Accounted n q none false free a = a
loop-Accounted n q (some x) flushing e a = a
