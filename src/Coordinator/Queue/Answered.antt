-- ===== src/Coordinator/Queue/Answered.antt =====
-- What the end of a command means for the callers: `_flush_soon` of
-- custom_components/bthome_writable/coordinator.py.
use bthome_writable.Common.{
  ℕ, ◌≡◌, refl, sym, subst, ◌⊎◌, inl, inr, Bool, true, false, Option, none, some, ◌∷◌, Error, arith,
}
use bthome_writable.Slots.System.{Member}
use bthome_writable.Coordinator.Queue.{Queued, Commands, stop, answer, done, ended, cancel}
use bthome_writable.Coordinator.Queue.Accounted.{
  Waits, InFlight, Settled, Accounted, settle-Settled, settle_self,
}
use bthome_writable.Coordinator.Queue.Steps.{stop-Accounted, by_flight, no_flight}

-- The item in flight is answered, and `busy` is in flight then.
answered-Accounted :
    (n : ℕ) (q : Commands) (item : Queued) (error : Option Error) (busy : Option (Queued × Bool))
    → Settled (q.waiters n) ⊎ Waits n q.pending ⊎ InFlight n (some (item, false)) ⊎ Member n q.lost
    → Accounted (record (answer item error q) { in_flight = busy }) n
unfolding answer
answered-Accounted n q item error busy (inl told) =
    inl (settle-Settled n item.waiter error q.waiters told)
answered-Accounted n q item error busy (inr (inl waits)) = inr (inl waits)
answered-Accounted n q item error busy (inr (inr (inl (mine, unanswered)))) =
    inl (settle_self n item.waiter error q.waiters mine)
answered-Accounted n q item error busy (inr (inr (inr lost))) = inr (inr (inr lost))

true≢false : true ≡ false → ⊥
true≢false e = grind arith

-- An answered item in flight is nobody's.
no_longer :
    (n : ℕ) (q : Commands) (item : Queued)
    → Settled (q.waiters n) ⊎ Waits n q.pending ⊎ InFlight n (some (item, true)) ⊎ Member n q.lost
    → Settled (q.waiters n) ⊎ Waits n q.pending ⊎ Member n q.lost
no_longer n q item (inl told) = inl told
no_longer n q item (inr (inl waits)) = inr (inl waits)
no_longer n q item (inr (inr (inl (mine, unanswered)))) = absurd (true≢false unanswered)
no_longer n q item (inr (inr (inr lost))) = inr (inr lost)

outside_flight :
    (n : ℕ) (q : Commands) (busy : Option (Queued × Bool))
    → Settled (q.waiters n) ⊎ Waits n q.pending ⊎ Member n q.lost
    → Accounted (record q { in_flight = busy }) n
outside_flight n q busy (inl told) = inl told
outside_flight n q busy (inr (inl waits)) = inr (inl waits)
outside_flight n q busy (inr (inr lost)) = inr (inr (inr lost))

reopen :
    (n : ℕ) (q : Commands) (item : Queued) (answered : Bool)
    → Settled (q.waiters n)
      ⊎ Waits n q.pending
      ⊎ InFlight n (some (item, answered))
      ⊎ Member n q.lost
    → Settled (q.waiters n) ⊎ Waits n q.pending ⊎ InFlight n (some (item, false)) ⊎ Member n q.lost
reopen n q item answered (inl told) = inl told
reopen n q item answered (inr (inl waits)) = inr (inl waits)
reopen n q item answered (inr (inr (inl (mine, unanswered)))) = inr (inr (inl (mine, refl)))
reopen n q item answered (inr (inr (inr lost))) = inr (inr (inr lost))

pub done-Accounted :
    (n : ℕ) (q : Commands) (busy : Option (Queued × Bool))
    → q.in_flight ≡ busy
    → Accounted q n
    → Accounted (done q) n
done-Accounted n q none free a =
    let is : done q ≡ q = unfold done in rw free in subst (λ r. Accounted r n) (sym is) a
done-Accounted n q (some (item, answered)) e a =
    let is : done q ≡ record (answer item none q) { in_flight = some (item, true) } =
      unfold done in rw e in
    let settled : Settled (q.waiters n)
        ⊎ Waits n q.pending
        ⊎ InFlight n (some (item, false))
        ⊎ Member n q.lost =
      reopen n q item answered (by_flight n q (some (item, answered)) e a) in
    subst (λ r. Accounted r n) (sym is)
      (answered-Accounted n q item none (some (item, true)) settled)

pub ended-Accounted :
    (n : ℕ) (error : Option Error) (q : Commands) (busy : Option (Queued × Bool))
    → q.in_flight ≡ busy
    → Accounted q n
    → Accounted (ended error q) n
ended-Accounted n error q none free a =
    let is : ended error q ≡ q = unfold ended in rw free in subst (λ r. Accounted r n) (sym is) a
ended-Accounted n error q (some (item, true)) e a =
    let is : ended error q ≡ record q { in_flight = none } = unfold ended in rw e in
    subst (λ r. Accounted r n) (sym is)
      (outside_flight n q none (no_longer n q item (by_flight n q _ e a)))
ended-Accounted n error q (some (item, false)) e a =
    let is : ended error q ≡ record (answer item error q) { in_flight = none } =
      unfold ended in rw e in
    subst (λ r. Accounted r n) (sym is)
      (answered-Accounted n q item error none (by_flight n q _ e a))

pub cancel-Accounted :
    (n : ℕ) (q : Commands) (busy : Option (Queued × Bool)) (flushing : Bool)
    → q.in_flight ≡ busy
    → q.flushing ≡ flushing
    → Accounted q n
    → Accounted (cancel q) n
cancel-Accounted n q none true free runs a =
    let is : cancel q ≡ stop q = unfold cancel in rw (free, runs) in
    subst (λ r. Accounted r n) (sym is)
      (stop-Accounted n q (no_flight n q (by_flight n q none free a)))
cancel-Accounted n q none false free asleep a =
    let is : cancel q ≡ q = unfold cancel in rw (free, asleep) in
    subst (λ r. Accounted r n) (sym is) a
cancel-Accounted n q (some (item, true)) flushing e f a =
    let is : cancel q ≡ stop q = unfold cancel in rw e in
    subst (λ r. Accounted r n) (sym is)
      (stop-Accounted n q (no_longer n q item (by_flight n q _ e a)))
cancel-Accounted n q (some (item, false)) flushing e f a =
    let is : cancel q ≡ stop (record q { lost = item.waiter ∷ q.lost }) = unfold cancel in rw e in
    subst (λ r. Accounted r n) (sym is)
      (stop-Accounted n (record q { lost = item.waiter ∷ q.lost })
        (elim (by_flight n q _ e a) [
          | inl told ↦ inl told
          | inr (inl waits) ↦ inr (inl waits)
          | inr (inr (inl (mine, unanswered))) ↦ inr (inr (inl mine))
          | inr (inr (inr lost)) ↦ inr (inr (inr lost))
        ]))
