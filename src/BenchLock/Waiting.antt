-- ===== src/BenchLock/Waiting.antt =====
-- `acquire` with nobody beside it: it ends, and it gets a bench whose lease runs out in time.
use bthome_writable.Common.{
  ℕ, zero, suc, ◌+◌, ◌*◌, ◌<◌, ◌≤◌, ◌≡◌, refl, ap, ◌∙◌, ◌⊎◌, true, false, some, String, str_eq, ltb,
  leb, Result, ok, inl, inr, if_cases, arith,
}
use bthome_writable.BenchLock.{
  Lock, File, absent, garbage, locked, Share, read_lock, has_expired, is_held_by, write_lock,
  acquire, decide, Outcome, perform, turn, main, exits, slept, unreadable,
}

-- The lock that `write_lock` writes.
abbrev pub written : String → String → ℕ → ℕ → Lock
written holder note minutes now = record {
  holder = some holder;
  note = some note;
  expires = now + minutes * 60;
}

-- The file is another's, with a lease that lasts until the deadline. A file that cannot be parsed
-- always has a minute to go.
abbrev pub Lasts : String → ℕ → File → Type 0
Lasts holder deadline absent = ⊥
Lasts holder deadline garbage = str_eq unreadable holder ≡ false
Lasts holder deadline (locked lock) =
    (is_held_by lock.holder holder ≡ false) × (deadline ≤ lock.expires)

-- Taken at some moment from `now` on, or left to the other holder.
abbrev pub Ended : String → String → ℕ → ℕ → ℕ → Share → Share × Result ℕ → Type 0
Ended holder note minutes deadline now share end =
    ((then' : ℕ) × (now ≤ then')
      × (end ≡ (record share { file = locked (written holder note minutes then') }, ok 0)))
    ⊎ ((end ≡ (share, ok 1)) × Lasts holder deadline share.file)

module _ (holder note : String) (minutes deadline poll : ℕ) where
  -- One turn: the bench is taken, or given up at the deadline, or looked at again later.
  Turned : ℕ → Share → Share × Outcome → Type 0
  Turned now share end =
      (end ≡ (record share { file = locked (written holder note minutes now) }, exits 0))
      ⊎ (((end ≡ (share, exits 1)) × Lasts holder deadline share.file)
          ⊎ ((end ≡ (share, slept)) × (now < deadline)))

  turn-Turned :
      (now : ℕ) (file : File)
      → Turned now
          (record { up = true; file = file })
          (turn holder (acquire note minutes deadline) now (record { up = true; file = file }))
  unfolding Turned turn read_lock decide perform write_lock
  turn-Turned now absent = inl refl
  turn-Turned now garbage =
      let s : Share = record { up = true; file = garbage } in
      let fresh : ltb (now + 60) now ≡ false = ground arith in
      if_cases (λ a. Turned now s (perform holder a now s)) (str_eq unreadable holder) _ _
        (λ own. inl refl)
        (λ other. rw fresh (
          if_cases (λ a. Turned now s (perform holder a now s)) (leb deadline now) _ _
            (λ late. inr (inl (refl, other))) (λ early. inr (inr (refl, ground arith)))))
  turn-Turned now (locked lock) =
      let s : Share = record { up = true; file = locked lock } in
      if_cases (λ a. Turned now s (perform holder a now s)) (is_held_by lock.holder holder) _ _
        (λ own. inl refl)
        (λ other.
          if_cases (λ a. Turned now s (perform holder a now s)) (has_expired now lock) _ _
            (λ over. inl refl)
            (λ runs.
              if_cases (λ a. Turned now s (perform holder a now s)) (leb deadline now) _ _
                (λ late. inr (inl (refl, (other, ground arith))))
                (λ early. inr (inr (refl, ground arith)))))

  -- A command `acquire` with a poll that is not 0, on a share that can be reached and with nobody
  -- beside it, returns. It has taken the bench, with a lease of `minutes` from a moment no earlier
  -- than its start, and returned 0; or it returned 1 and left the file as it was, which another
  -- holder's lease covers until the deadline. So one whose deadline lies past the lease gets the
  -- bench.
  pub acquire-Ended :
      (fuel now : ℕ) (file : File)
      → 0 < poll
      → 0 < fuel
      → deadline < fuel + now
      → Ended holder note minutes deadline now
          (record { up = true; file = file })
          (main fuel holder
            (acquire note minutes deadline)
            poll
            now
            (record { up = true; file = file }))
  unfolding main Turned
  acquire-Ended zero now file p f h = absurd (omega arith)
  acquire-Ended (suc fuel) now file p f h = elim (turn-Turned now file) [
    | inl taken ↦ inl (now, omega arith, rw (taken, main) (ap (λ t. (t.0, ok 0)) taken))
    | inr (inl (left, lasts)) ↦ inr (rw (left, main) (ap (λ t. (t.0, ok 1)) left), lasts)
    | inr (inr (slept', early)) ↦
        elim (acquire-Ended fuel (now + poll) file p (omega arith) (omega arith)) [
          | inl (later, after, e) ↦ inl (
            later,
            omega arith,
            rw (slept', main)
                (ap (λ t. main fuel holder (acquire note minutes deadline) poll (now + poll) t.0)
                    slept'
                  ∙ e),
          )
          | inr (e, lasts) ↦ inr (
            rw (slept', main)
                (ap (λ t. main fuel holder (acquire note minutes deadline) poll (now + poll) t.0)
                    slept'
                  ∙ e),
            lasts,
          )
        ]
  ]
