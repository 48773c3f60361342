-- ===== src/BenchLock/Examples.antt =====
-- Agents a and b at the bench.
use bthome_writable.Common.{◌≡◌, refl, true, some, arith}
use bthome_writable.BenchLock.{
  Lock, locked, Share, read_lock, acquire, decide, perform, main, Outcome, exits, sleeps,
  write_lock,
}
use bthome_writable.BenchLock.Waiting.{Ended, acquire-Ended}
use bthome_writable.BenchLock.Races.{Bench, here, still, then', looks, acts, set_phase, idle, will}
use bthome_writable.BenchLock.Races.Held.{at_rest, Quiet-Held}

-- A lock of b until the 100th second.
abbrev until_100 : Lock
until_100 = record { holder = some "b"; note = some "T4.1"; expires = 100 }

abbrev held : Share
held = record { up = true; file = locked until_100 }

acquire-Ended_example :
    Ended "a" "retries" 30 120 95 held (main 40 "a" (acquire "retries" 30 120) 10 95 held)
acquire-Ended_example =
    acquire-Ended "a" "retries" 30 120 10 40 95 (locked until_100) (omega arith) (omega arith)
      (omega arith)

-- a looks while the lease has 5 seconds left, and goes to sleep.
abbrev looked : Bench
looked = record (at_rest 95 held) { agents = set_phase (λ h. idle) "a" (will sleeps) }

abbrev slept_on : Bench
slept_on = record looked { agents = set_phase looked.agents "a" idle }

Quiet-Held_example : slept_on.share.file ≡ locked until_100
unfolding decide read_lock perform
Quiet-Held_example = Quiet-Held 95 held "b" {t = slept_on} here refl (
    then'
      (then' still (looks "a" (acquire "retries" 30 120) (some until_100) refl refl) (tt, refl)
        refl)
      (acts "a" sleeps refl) tt refl)

-- Both find the lock of b run out and write over it, one after the other, and both return 0.
abbrev broken : Share × Outcome
broken = perform "a" (decide "a" (acquire "first" 30 200) 101 (some until_100)) 101 held

both_return :
    perform "c" (decide "c" (acquire "second" 30 200) 101 (some until_100)) 101 broken.0 ≡ (
      record {
        up = true;
        file = locked (record { holder = some "c"; note = some "second"; expires = 1901 });
      },
      exits 0,
    )
unfolding decide perform write_lock
both_return = refl

first_returned : broken.1 ≡ exits 0
unfolding decide perform write_lock
first_returned = refl
