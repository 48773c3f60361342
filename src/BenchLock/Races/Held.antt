-- ===== src/BenchLock/Races/Held.antt =====
-- While nobody forces a release and no lease runs out, a lock stays with its holder.
use bthome_writable.Common.{
  ℕ, ◌+◌, ◌≡◌, refl, sym, ◌∙◌, subst, Bool, true, false, not, ◌&&◌, Option, none, some, String,
  str_eq, leb, ok, if_cases, arith,
}
use text.Mathlib.TextEquality.{eq_iff}
use bthome_writable.BenchLock.{
  Lock, File, absent, garbage, locked, Share, read_lock, has_expired, is_held_by, write_lock,
  remove_lock, Command, acquire, renew, release, decide, Action, creates, overwrites, removes,
  returns, sleeps, perform, unreadable,
}
use bthome_writable.BenchLock.Races.{
  Phase, idle, will, Bench, Step, passes, looks, acts, IsOrderly, Unforced, Unexpired, Reach, here,
  next, Others, Quiet, still, then', holder_of, Owns, Backed, IsSound,
}

-- A file has one holder.
one_owner :
    (h k : String) (o : Option String)
    → is_held_by o h ≡ true
    → is_held_by o k ≡ true
    → str_eq k h ≡ true
one_owner h k none a b = absurd (ground arith)
one_owner h k (some other) a b = (eq_iff k h).1 (sym ((eq_iff other k).0 b) ∙ (eq_iff other h).0 a)

-- What a look at a file sees.
seen : ℕ → File → Option Lock
seen now absent = none
seen now garbage = some (record { holder = some unreadable; note = none; expires = now + 60 })
seen now (locked lock) = some lock

read_lock-seen :
    (now : ℕ) (up : Bool) (file : File) {current : Option Lock}
    → read_lock now (record { up = up; file = file }) ≡ ok current
    → seen now file ≡ current
unfolding read_lock seen
read_lock-seen now false file e = absurd (ground arith)
read_lock-seen now true absent e = ground arith
read_lock-seen now true garbage e = ground arith
read_lock-seen now true (locked lock) e = ground arith

module _ (h : String) (file : File) where
  -- Over a file that has the holder and has not run out, only the owner writes.
  taken_over :
      (command : Command) (now : ℕ) (lock : Lock)
      → Unforced command
      → has_expired now lock ≡ false
      → lock.holder ≡ holder_of file
      → Backed h (will (decide h command now (some lock))) file
  unfolding decide
  taken_over (acquire note minutes deadline) now lock u f o =
      if_cases (λ a. Backed h (will a) file) (is_held_by lock.holder h) _ _
        (λ own. subst (λ w. is_held_by w h ≡ true) o own)
        (λ other. rw f (
          if_cases (λ a. Backed h (will a) file) (leb deadline now) _ _ (λ late. tt) (λ early. tt)))
  taken_over (renew note minutes) now lock u f o =
      if_cases (λ a. Backed h (will a) file) (not (is_held_by lock.holder h)) _ _ (λ other. tt)
        (λ own. subst (λ w. is_held_by w h ≡ true) o (ground arith))
  taken_over (release true) now lock u f o = absurd u
  taken_over (release false) now lock u f o =
      if_cases (λ a. Backed h (will a) file) (not (is_held_by lock.holder h) && true) _ _
        (λ other. tt) (λ own. subst (λ w. is_held_by w h ≡ true) o (ground arith))

nothing_there :
    (h : String) (command : Command) (now : ℕ) → Backed h (will (decide h command now none)) absent
unfolding decide
nothing_there h (acquire note minutes deadline) now = tt
nothing_there h (renew note minutes) now = tt
nothing_there h (release force) now = tt

decide-Backed :
    (h : String) (command : Command) (now : ℕ) (file : File)
    → Unforced command
    → Unexpired now file
    → Backed h (will (decide h command now (seen now file))) file
unfolding seen
decide-Backed h command now absent u f = nothing_there h command now
decide-Backed h command now garbage u f = taken_over h garbage command now _ u (ground arith) refl
decide-Backed h command now (locked lock) u f = taken_over h (locked lock) command now lock u f refl

create-keeps :
    (h k note : String) (minutes now : ℕ) (up : Bool) (file : File)
    → Owns k file
    → (write_lock h note minutes false now (record { up = up; file = file })).0.file ≡ file
unfolding write_lock
create-keeps h k note minutes now false file o = refl
create-keeps h k note minutes now true absent o = absurd (ground arith)
create-keeps h k note minutes now true garbage o = refl
create-keeps h k note minutes now true (locked lock) o = refl

-- What an action that is backed leaves of a file that another agent counts on.
perform-keeps :
    (h k : String) (action : Action) (now : ℕ) (up : Bool) (file : File)
    → str_eq k h ≡ false
    → Backed h (will action) file
    → Owns k file
    → (perform h action now (record { up = up; file = file })).0.file ≡ file
unfolding perform write_lock remove_lock
perform-keeps h k (creates note minutes) now up file n b o =
    create-keeps h k note minutes now up file o
perform-keeps h k (overwrites note minutes) now up file n b o =
    absurd (ground (arith, one_owner h k (holder_of file) b o))
perform-keeps h k removes now up file n b o =
    absurd (ground (arith, one_owner h k (holder_of file) b o))
perform-keeps h k (returns code) now up file n b o = refl
perform-keeps h k sleeps now up file n b o = refl

Backed-same :
    (h : String) (phase : Phase) (file after : File)
    → (Owns h file → after ≡ file)
    → Backed h phase file
    → Backed h phase after
Backed-same h idle file after same b = tt
Backed-same h (will (creates note minutes)) file after same b = tt
Backed-same h (will (overwrites note minutes)) file after same b = subst (Owns h) (sym (same b)) b
Backed-same h (will removes) file after same b = subst (Owns h) (sym (same b)) b
Backed-same h (will (returns code)) file after same b = tt
Backed-same h (will sleeps) file after same b = tt

Step-IsSound : {s t : Bench} (step : Step s t) → IsOrderly step → IsSound s → IsSound t
Step-IsSound (passes now up p) o sound h = sound h
Step-IsSound {s = s} (looks holder command current i r) (u, f) sound h =
    if_cases (λ p. Backed h p s.share.file) (str_eq h holder) _ _
      (λ own.
        let saw = read_lock-seen s.clock s.share.up s.share.file r in
        rw (sym saw, (eq_iff h holder).0 own)
          (decide-Backed holder command s.clock s.share.file u f))
      (λ other. sound h)
Step-IsSound {s = s} (acts holder action w) o sound h =
    let after = (perform holder action s.clock s.share).0.file in
    if_cases (λ p. Backed h p after) (str_eq h holder) _ _ (λ own. tt)
      (λ other.
        Backed-same h (s.agents h) s.share.file after
          (λ owns.
            perform-keeps holder h action s.clock s.share.up s.share.file other
              (subst (λ p. Backed holder p s.share.file) w (sound holder)) owns)
          (sound h))

Reach-IsSound : {s t : Bench} → IsSound s → Reach s t → IsSound t
Reach-IsSound sound here = sound
Reach-IsSound sound (next run step orderly) = Step-IsSound step orderly (Reach-IsSound sound run)

Step-keeps :
    (h : String) {s t : Bench} (step : Step s t)
    → Others h step
    → IsSound s
    → Owns h s.share.file
    → t.share.file ≡ s.share.file
Step-keeps h (passes now up p) other sound owns = refl
Step-keeps h (looks holder command current i r) other sound owns = refl
Step-keeps h {s = s} (acts holder action w) other sound owns =
    perform-keeps holder h action s.clock s.share.up s.share.file other
      (subst (λ p. Backed holder p s.share.file) w (sound holder)) owns

Quiet-Kept :
    (h : String) {s t : Bench}
    → Quiet h s t
    → IsSound s
    → Owns h s.share.file
    → IsSound t × (t.share.file ≡ s.share.file)
Quiet-Kept h still sound owns = (sound, refl)
Quiet-Kept h (then' run step orderly other) sound owns =
    let (sound', same) = Quiet-Kept h run sound owns in
    (
      Step-IsSound step orderly sound',
      Step-keeps h step other sound' (subst (Owns h) (sym same) owns) ∙ same,
    )

-- A bench on which no command runs.
abbrev pub at_rest : ℕ → Share → Bench
at_rest now share = record { clock = now; share = share; agents = λ h. idle }

-- From a bench on which no command runs, whatever the commands of the agents do beside each other,
-- each holder with one at a time, and however the share comes and goes: as long as no command finds
-- a lease run out and none forces a release, the file of a holder stays as it is for as long as that
-- holder does nothing. No other agent takes the bench, renews or removes the lock, between any look
-- at the file and what follows it.
pub Quiet-Held :
    (now : ℕ) (share : Share) (h : String) {s t : Bench}
    → Reach (at_rest now share) s
    → Owns h s.share.file
    → Quiet h s t
    → t.share.file ≡ s.share.file
Quiet-Held now share h run owns quiet = (Quiet-Kept h quiet (Reach-IsSound (λ k. tt) run) owns).1
