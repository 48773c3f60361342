-- ===== src/Entity/Shown.antt =====
-- What an entity of custom_components/bthome_writable/entity.py shows.
use bthome_writable.Common.{
  ℕ, ◌+◌, ◌-◌, ◌≤◌, ◌≡◌, refl, sym, ap, ◌∙◌, ◌⊎◌, inl, inr, true, false, Option, none, some, List,
  [], ◌∷◌, if◌then◌else◌, ◌==◌, Bool-cases, arith,
}
use bthome_writable.Protocol.Walk.{Bytes}
use bthome_writable.Protocol.Declaration.{WritableEntry}
use bthome_writable.Coordinator.{Coordinator, still_declared, value_of}
use bthome_writable.Entity.{
  Entity, init, shown_value, begin_apply, settled, Event, Event.applies, Event.ends,
  Event.cancelled, happen, happened,
}

module _ (e : WritableEntry) where
  -- The actions that began and have not settled: a cancelled one never does.
  pub outstanding : List Event → ℕ
  outstanding [] = 0
  outstanding (applies c value ∷ es) =
      let before = outstanding es in
      if still_declared c e.entry e.object_id then before + 1 else before
  outstanding (ends ∷ es) = outstanding es - 1
  outstanding (cancelled ∷ es) = outstanding es

  -- The value of the action that began last.
  pub newest : List Event → Option Bytes
  newest [] = none
  newest (applies c value ∷ es) =
      let before = newest es in if still_declared c e.entry e.object_id then some value else before
  newest (ends ∷ es) = newest es
  newest (cancelled ∷ es) = newest es

  -- An action that is out has a value.
  newest-some : (es : List Event) → 1 ≤ outstanding es → (value : Bytes) × (newest es ≡ some value)
  unfolding outstanding newest
  newest-some [] h = absurd (omega arith)
  newest-some (ends ∷ es) h = newest-some es (omega arith)
  newest-some (cancelled ∷ es) h = newest-some es h
  newest-some (applies c value ∷ es) h = elim (Bool-cases (still_declared c e.entry e.object_id)) [
    | inl there ↦ (value, rw there)
    | inr gone ↦ let (older, is) = newest-some es (rw gone at h) in (older, rw gone is)
  ]

  record Tracks (s : Entity) (es : List Event) : Type 0 where
    entry : s.entry ≡ e.entry
    object_id : s.object_id ≡ e.object_id
    coalesce : s.coalesce ≡ true
    count : s.writes_in_flight ≡ outstanding es
    value : s.in_flight ≡ (if outstanding es == 0 then none else newest es)

  shown_lem :
      (shown last : Option Bytes) (n m : ℕ)
      → n ≡ m
      → last ≡ shown
      → (m == 0) ≡ false
      → shown ≡ (if n == 0 then none else last)
  shown_lem shown last n m count is out = rw (count, is, out)

  -- The action starts, or belongs to a layout that the device has replaced.
  applied-Tracks :
      (c : Coordinator) (value : Bytes) (es : List Event) (s : Entity)
      → Tracks s es
      → Tracks (happen (applies c value) s) (applies c value ∷ es)
  unfolding happen begin_apply outstanding newest
  applied-Tracks c value es s t = elim (Bool-cases (still_declared c e.entry e.object_id)) [
    | inl there ↦
        let declared : still_declared c s.entry s.object_id ≡ true =
          rw (t.entry, t.object_id) there in
        let out : (outstanding es + 1 == 0) ≡ false = ground arith in
        let count : outstanding (applies c value ∷ es) ≡ outstanding es + 1 = rw there in
        let last : newest (applies c value ∷ es) ≡ some value = rw there in
        rw (declared, happen, begin_apply)
          (record {
            entry = t.entry;
            object_id = t.object_id;
            coalesce = t.coalesce;
            count = ap (λ n. n + 1) t.count ∙ sym count;
            value = rw t.coalesce (shown_lem _ _ _ (outstanding es + 1) count last out);
          })
    | inr gone ↦
        let declared : still_declared c s.entry s.object_id ≡ false =
          rw (t.entry, t.object_id) gone in
        let count : outstanding (applies c value ∷ es) ≡ outstanding es = rw gone in
        let last : newest (applies c value ∷ es) ≡ newest es = rw gone in
        rw (declared, happen, begin_apply)
          (record {
            entry = t.entry;
            object_id = t.object_id;
            coalesce = t.coalesce;
            count = t.count ∙ sym count;
            value =
                t.value
                ∙ ap (λ n. if n == 0 then none else newest es) (sym count)
                ∙ ap (λ v. if outstanding (applies c value ∷ es) == 0 then none else v) (sym last);
          })
  ]

  settled-Tracks : (es : List Event) (s : Entity) → Tracks s es → Tracks (settled s) (ends ∷ es)
  unfolding settled outstanding newest
  settled-Tracks es s t = record {
    entry = t.entry;
    object_id = t.object_id;
    coalesce = t.coalesce;
    count = ap (λ n. n - 1) t.count;
    value = elim (Bool-cases (outstanding es - 1 == 0)) [
      | inl last ↦ rw (t.count, last)
      | inr more ↦
          let out : (outstanding es == 0) ≡ false = ground arith in
          rw (t.count, more) (t.value ∙ rw out)
    ];
  }

  happened-Tracks : (es : List Event) → Tracks (happened es (init true e)) es
  unfolding happened init happen outstanding newest
  happened-Tracks [] = record {
    entry = refl;
    object_id = refl;
    coalesce = refl;
    count = refl;
    value = refl;
  }
  happened-Tracks (cancelled ∷ es) =
      let t = happened-Tracks es in
      record {
        entry = t.entry;
        object_id = t.object_id;
        coalesce = t.coalesce;
        count = t.count;
        value = t.value;
      }
  happened-Tracks (ends ∷ es) = settled-Tracks es _ (happened-Tracks es)
  happened-Tracks (applies c value ∷ es) = applied-Tracks c value es _ (happened-Tracks es)

  -- What the entity shows: the newest action's value while an action of its own has not settled, and
  -- the last known value of its entry otherwise.
  abbrev pub Shows : Coordinator → List Event → Option Bytes → Type 0
  Shows c es shown =
      ((outstanding es ≡ 0) × (shown ≡ value_of c e.entry))
      ⊎ ((value : Bytes) × (1 ≤ outstanding es) × (newest es ≡ some value) × (shown ≡ some value))

  -- Whatever actions begin, end and are cancelled in whatever order, and whichever layout the device
  -- declares meanwhile, the entity shows what the coordinator knows of its entry once every action
  -- that began has settled, and the value of the newest action until then. An action settles when
  -- its write returns or raises an `Exception`; one that is cancelled never settles.
  pub happened-Shows :
      (c : Coordinator) (es : List Event) → Shows c es (shown_value c (happened es (init true e)))
  unfolding shown_value
  happened-Shows c es =
      let s = happened es (init true e) in
      let t = happened-Tracks es in
      elim (Bool-cases (outstanding es == 0)) [
        | inl none_out ↦
            let empty : s.in_flight ≡ none = t.value ∙ rw none_out in
            inl (ground arith, rw (empty, shown_value) (ap (value_of c) t.entry))
        | inr out ↦
            let (value, is) = newest-some es (ground arith) in
            let shown : s.in_flight ≡ some value = t.value ∙ rw (out, is) in
            inr (value, ground arith, is, rw (shown, shown_value))
      ]
