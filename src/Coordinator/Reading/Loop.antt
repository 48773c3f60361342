-- ===== src/Coordinator/Reading/Loop.antt =====
-- How the read loop ends: `_read_loop` of custom_components/bthome_writable/coordinator.py.
use bthome_writable.Common.{
  ℕ, ◌≡◌, refl, sym, ◌⊎◌, inl, inr, Bool, true, false, Option, some, List, [], ◌∷◌, Bool-cases,
  Result, ok, err, arith,
}
use bthome_writable.Common.Int.{ℤ}
use bthome_writable.Protocol.Walk.{Table}
use bthome_writable.Protocol.Declaration.{WritableEntry, Declaration}
use bthome_writable.Protocol.Sealing.{Ccm}
use bthome_writable.Coordinator.{Coordinator, revision_eq}
use bthome_writable.Coordinator.Reading.{Round, is_done, record_read, async_read_all, read_loop}

clash : true ≡ false → ⊥
clash e = grind arith

module _ (ccm : Ccm) (table : Table) (offered_entries : Declaration → List WritableEntry) where
  -- The flag is down, and the revision read is the one advertised or the failure is noted.
  abbrev pub Rested : Coordinator → Type 0
  Rested c =
      (c.reading ≡ false)
      × ((revision_eq c.revision_advertised c.revision_read ≡ true)
          ⊎ ((now : ℕ) × (c.read_failed_at ≡ some now)))

  failed :
      (now : ℕ) (target : Option ℤ) (result : Result Bool) (c : Coordinator)
      → is_done ccm table offered_entries result ≡ false
      → (record_read ccm table now target result c).read_failed_at ≡ some now
  unfolding is_done record_read
  failed now target (ok true) c h = absurd (clash h)
  failed now target (ok false) c h = refl
  failed now target (err x) c h = refl

  -- A loop that has ended has taken its flag down, and it ended because the revision read is the one
  -- advertised or because a read failed, which is noted with its time.
  read_loop-Rested :
      (rounds : List (Round ccm table offered_entries)) (c : Coordinator)
      → (read_loop ccm table offered_entries rounds c).1 ≡ true
      → Rested (read_loop ccm table offered_entries rounds c).0
  unfolding read_loop
  read_loop-Rested [] c h = absurd (clash (sym h))
  read_loop-Rested (r ∷ rounds) c h =
      let read =
        async_read_all ccm table offered_entries r.reachable r.first r.second (r.meanwhile c) in
      let c' = record_read ccm table r.now c.revision_advertised read.1 (r.since read.0) in
      elim (Bool-cases (is_done ccm table offered_entries read.1)) [
        | inr missed ↦
            rw (missed, read_loop)
              (refl, inr (r.now, failed r.now c.revision_advertised read.1 (r.since read.0) missed))
        | inl done ↦ elim (Bool-cases (revision_eq c'.revision_advertised c'.revision_read)) [
          | inl current ↦ rw (done, current, read_loop) (refl, inl current)
          | inr moved ↦
              rw (done, moved, read_loop)
                (read_loop-Rested rounds c' (rw (done, moved, read_loop) at h))
        ]
      ]
