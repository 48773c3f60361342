-- ===== src/Slots/System/Books.antt =====
-- The slots in flight have owners, whatever the methods of slots.py do.
use bthome_writable.Common.{
  ℕ, ◌+◌, ◌≤◌, ◌<◌, ◌≡◌, ◌≢◌, refl, ◌∙◌, inl, inr, Bool, true, false, ◌&&◌, List, [], ◌∷◌, ◌++◌,
  All, All-append, ltb, ◌==◌, Bool-cases, ltb→lt, ltb_false→le, arith, subst,
}
use native.Mathlib.Nat.{add-zero}
use bthome_writable.Slots.{
  Gate, Future, pending, granted, dropped, update, admit, acquire, remove_first, unqueue, enqueue,
  waiting, holding_off,
}
use bthome_writable.Slots.Admission.{line, admit-Admits}
use bthome_writable.Slots.System.{set_future, slots_of}
use bthome_writable.Slots.System.Futures.{
  granted_count, granted_below, granted_below-update, granted_below-mark, granted_below-fresh,
  mark_above, mark-granted,
}

-- Every slot in flight has one owner: a caller that holds it or a task it was granted to. `slack`
-- counts slots that a method has given back and whose owner has not been crossed out yet. Only
-- futures that exist stand in a queue, and those to come are unused.
pub record Accounted (slack : ℕ) (g : Gate) (held : ℕ) : Type 0 where
  pub slots : g.in_flight + slack ≡ held + granted_below g.futures g.next_future
  pub known : All (λ w. w < g.next_future) (line g)
  pub unused : (w : ℕ) → g.next_future ≤ w → g.futures w ≡ dropped

pub All-front :
    (n : ℕ) (front back : List ℕ)
    → All (λ w. w < n) (front ++ back)
    → All (λ w. w < n) front × All (λ w. w < n) back
All-front n [] back h = (tt, h)
All-front n (w ∷ front) back h = let (hf, hb) = All-front n front back h.1 in ((h.0, hf), hb)

pub All-weaken : (n : ℕ) (ws : List ℕ) → All (λ w. w < n) ws → All (λ w. w < n + 1) ws
All-weaken n [] h = tt
All-weaken n (w ∷ ws) h = (omega arith, All-weaken n ws h.1)

All-remove_first :
    (n w : ℕ) (ws : List ℕ) → All (λ v. v < n) ws → All (λ v. v < n) (remove_first w ws)
unfolding remove_first
All-remove_first n w [] h = tt
All-remove_first n w (v ∷ ws) h = ground (arith, All-remove_first n w ws h.1)

pub admit-Accounted :
    (now slack held : ℕ) (g : Gate) → Accounted slack g held → Accounted slack (admit now g) held
admit-Accounted now slack held g a = elim (admit-Admits now g) [
  | inl (cooling, e) ↦ rw e a
  | inr (warm, (front, s, drained)) ↦
      let (hf, hb) =
        All-front g.next_future front (line (admit now g))
          (subst (All (λ w. w < g.next_future)) s.in_order a.known) in
      record {
        slots =
            rw (s.marked, s.same_next)
              (omega
                (arith, s.counted, a.slots, granted_below-mark front g.futures g.next_future hf));
        known = rw s.same_next hb;
        unused = λ w h.
            let h' : g.next_future ≤ w = rw s.same_next at h in
            rw s.marked (mark_above front g.futures g.next_future w hf h' ∙ a.unused w h');
      }
]

pub admit-granted :
    (now w : ℕ) (g : Gate) → g.futures w ≡ granted → (admit now g).futures w ≡ granted
admit-granted now w g h = elim (admit-Admits now g) [
  | inl (cooling, e) ↦ rw e h
  | inr (warm, (front, s, drained)) ↦ rw s.marked (mark-granted front g.futures w h)
]

-- A known future changes its state, and the books are balanced.
pub set_future-Accounted :
    (slack slack' held held' w : ℕ) (f : Future) (g : Gate)
    → w < g.next_future
    → held + slack' + granted_count (g.futures w) ≡ held' + slack + granted_count f
    → Accounted slack g held
    → Accounted slack' (set_future w f g) held'
set_future-Accounted slack slack' held held' w f g h balance a = record {
  slots = omega (arith, a.slots, granted_below-update g.futures w g.next_future f h);
  known = a.known;
  unused = λ v above. ground (arith, a.unused v above);
}

-- A future in use is one that exists.
pub known_future :
    (slack held w : ℕ) (g : Gate)
    → Accounted slack g held
    → g.futures w ≢ dropped
    → w < g.next_future
known_future slack held w g a h = elim (Bool-cases (ltb w g.next_future)) [
  | inl below ↦ ltb→lt _ _ below
  | inr above ↦ absurd (h (a.unused w (ltb_false→le _ _ above)))
]

pub enqueue-Accounted :
    (urgent : Bool) (held : ℕ) (g : Gate)
    → Accounted 0 g held
    → Accounted 0
        (enqueue urgent g.next_future (record g {
          futures = update g.futures g.next_future pending;
          next_future = g.next_future + 1;
        }))
        held
unfolding enqueue
enqueue-Accounted true held g a =
    let (hu, ho) = All-front g.next_future g.urgent g.ordinary a.known in
    record {
      slots = omega (arith, a.slots, granted_below-fresh g.futures g.next_future);
      known =
          All-append (λ w. w < g.next_future + 1) (g.urgent ++ (g.next_future ∷ [])) g.ordinary
            (All-append (λ w. w < g.next_future + 1) g.urgent (g.next_future ∷ [])
              (All-weaken g.next_future g.urgent hu) (omega arith))
            (All-weaken g.next_future g.ordinary ho);
      unused = λ v above. ground (arith, a.unused v (omega arith));
    }
enqueue-Accounted false held g a =
    let (hu, ho) = All-front g.next_future g.urgent g.ordinary a.known in
    record {
      slots = omega (arith, a.slots, granted_below-fresh g.futures g.next_future);
      known =
          All-append (λ w. w < g.next_future + 1) g.urgent (g.ordinary ++ (g.next_future ∷ []))
            (All-weaken g.next_future g.urgent hu)
            (All-append (λ w. w < g.next_future + 1) g.ordinary (g.next_future ∷ [])
              (All-weaken g.next_future g.ordinary ho) (omega arith));
      unused = λ v above. ground (arith, a.unused v (omega arith));
    }

pub acquire-Accounted :
    (now : ℕ) (urgent : Bool) (held : ℕ) (g : Gate)
    → Accounted 0 g held
    → Accounted 0 (acquire now urgent g).0 (held + slots_of (acquire now urgent g).1)
unfolding acquire
acquire-Accounted now urgent held g a = elim (Bool-cases (ltb 0 (holding_off g now))) [
  | inl cooling ↦ rw cooling (rw add-zero a)
  | inr warm ↦ elim (Bool-cases (waiting g == 0 && ltb g.in_flight g.limit)) [
    | inl room ↦
        rw (warm, room)
          (record { slots = omega (arith, a.slots); known = a.known; unused = a.unused })
    | inr full ↦ rw (warm, full, add-zero) (enqueue-Accounted urgent held g a)
  ]
]

pub unqueue-Accounted :
    (urgent : Bool) (held w : ℕ) (g : Gate)
    → Accounted 0 g held
    → Accounted 0 (unqueue urgent w g) held
unfolding unqueue
unqueue-Accounted true held w g a =
    let (hu, ho) = All-front g.next_future g.urgent g.ordinary a.known in
    record {
      slots = a.slots;
      known = All-append _ _ g.ordinary (All-remove_first g.next_future w g.urgent hu) ho;
      unused = a.unused;
    }
unqueue-Accounted false held w g a =
    let (hu, ho) = All-front g.next_future g.urgent g.ordinary a.known in
    record {
      slots = a.slots;
      known = All-append _ g.urgent _ hu (All-remove_first g.next_future w g.ordinary ho);
      unused = a.unused;
    }

pub unqueue-same :
    (urgent : Bool) (w : ℕ) (g : Gate)
    → ((unqueue urgent w g).next_future ≡ g.next_future)
      × ((unqueue urgent w g).futures ≡ g.futures)
      × ((unqueue urgent w g).in_flight ≡ g.in_flight)
unfolding unqueue
unqueue-same true w g = (refl, refl, refl)
unqueue-same false w g = (refl, refl, refl)
