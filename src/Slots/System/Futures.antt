-- ===== src/Slots/System/Futures.antt =====
-- Futures of slots.py that were granted a slot, counted.
use bthome_writable.Common.{
  ℕ, zero, suc, ◌+◌, ◌≤◌, ◌<◌, ◌≡◌, refl, ap, ◌∙◌, inl, inr, true, List, [], ◌∷◌, All,
  if◌then◌else◌, ltb, ◌==◌, Bool-cases, ==→eq, ltb→lt, ltb_false→le, arith,
}
use native.Mathlib.Numerals.{add-one}
use bthome_writable.Slots.{Future, pending, granted, dropped, update, is_pending}
use bthome_writable.Slots.Admission.{mark, slots_taken}

abbrev pub granted_count : Future → ℕ
granted_count granted = 1
granted_count _ = 0

-- The futures below `n` that are granted.
unfoldable pub granted_below : (ℕ → Future) → ℕ → ℕ
granted_below futures zero = 0
granted_below futures (suc n) = granted_count (futures n) + granted_below futures n

pub is_pending-count : (f : Future) → is_pending f ≡ true → granted_count f ≡ 0
is_pending-count f h = ground arith

pub granted_below-update_above :
    (futures : ℕ → Future) (w n : ℕ) (f : Future)
    → n ≤ w
    → granted_below (update futures w f) n ≡ granted_below futures n
unfolding granted_below
granted_below-update_above futures w zero f h = refl
granted_below-update_above futures w (suc n) f h =
    ground (arith, granted_below-update_above futures w n f (omega arith))

pub granted_below-update :
    (futures : ℕ → Future) (w n : ℕ) (f : Future)
    → w < n
    → granted_below (update futures w f) n + granted_count (futures w)
      ≡ granted_below futures n + granted_count f
unfolding granted_below
granted_below-update futures w zero f h = absurd (omega arith)
granted_below-update futures w (suc n) f h = elim (Bool-cases (n == w)) [
  | inl same ↦
      let e : n ≡ w = ==→eq _ _ same in
      rw same (
        omega (
          arith,
          ap granted_count (ap futures e),
          granted_below-update_above futures w n f (omega arith),
        ))
  | inr other ↦ rw other (omega (arith, granted_below-update futures w n f (ground arith)))
]

pub granted_below-mark :
    (front : List ℕ) (futures : ℕ → Future) (n : ℕ)
    → All (λ w. w < n) front
    → granted_below (mark futures front) n ≡ granted_below futures n + slots_taken futures front
unfolding mark slots_taken
granted_below-mark [] futures n h = omega arith
granted_below-mark (w ∷ front) futures n h = elim (Bool-cases (is_pending (futures w))) [
  | inl p ↦ rw p (
      omega (
        arith,
        granted_below-update futures w n granted h.0,
        granted_below-mark front (update futures w granted) n h.1,
        is_pending-count (futures w) p,
      ))
  | inr p ↦ rw p (omega (arith, granted_below-mark front futures n h.1))
]

pub granted_below-same :
    (futures : ℕ → Future) (w n : ℕ) (f : Future)
    → granted_count (futures w) ≡ granted_count f
    → granted_below (update futures w f) n ≡ granted_below futures n
granted_below-same futures w n f h = elim (Bool-cases (ltb w n)) [
  | inl below ↦ omega (arith, granted_below-update futures w n f (ltb→lt _ _ below))
  | inr above ↦ granted_below-update_above futures w n f (ltb_false→le _ _ above)
]

pub granted_below-fresh :
    (futures : ℕ → Future) (n : ℕ)
    → granted_below (update futures n pending) (n + 1) ≡ granted_below futures n
granted_below-fresh futures n = rw add-one (
    unfold granted_below in
    ground (arith, granted_below-update_above futures n n pending (omega arith)))

pub mark_above :
    (front : List ℕ) (futures : ℕ → Future) (n w : ℕ)
    → All (λ v. v < n) front
    → n ≤ w
    → mark futures front w ≡ futures w
unfolding mark
mark_above [] futures n w h above = refl
mark_above (v ∷ front) futures n w h above =
    mark_above front (if is_pending (futures v) then update futures v granted else futures) n w h.1
      above
    ∙ ground (arith, h.0)

pub mark-granted :
    (front : List ℕ) (futures : ℕ → Future) (w : ℕ)
    → futures w ≡ granted
    → mark futures front w ≡ granted
unfolding mark
mark-granted [] futures w h = h
mark-granted (v ∷ front) futures w h =
    mark-granted front (if is_pending (futures v) then update futures v granted else futures) w
      (ground arith)

pub granted_below-pos :
    (futures : ℕ → Future) (w n : ℕ) → futures w ≡ granted → w < n → 0 < granted_below futures n
granted_below-pos futures w n g h =
    omega (arith, granted_below-update futures w n dropped h, ap granted_count g)
