-- ===== src/Slots/System.antt =====
-- The gate of slots.py among its callers: every order of arrivals, cancellations, releases, resizes
-- and timers that an event loop can produce.
pub mod Futures
pub mod Books
pub mod Owners
pub mod Cap
pub mod Wakeups
use bthome_writable.Common.{
  ℕ, suc, ◌+◌, ◌≤◌, ◌≡◌, ◌⊎◌, Bool, List, [], ◌∷◌, true, false, if◌then◌else◌, ◌==◌,
}
use bthome_writable.Slots.{
  Gate, Future, pending, granted, cancelled, dropped, update, init, resize, hold_off, resume,
  acquire, Acquired, taken, asleep, queued, interrupted, release, remove_first,
}

-- `held` counts the callers that `acquire` returned to and that owe a `release`.
pub record System : Type 0 where
  pub gate : Gate
  pub held : ℕ
  pub clock : ℕ

abbrev pub Member : ℕ → List ℕ → Type 0
Member d [] = ⊥
Member d (t ∷ ts) = (t ≡ d) ⊎ Member d ts

abbrev pub slots_of : Acquired → ℕ
slots_of taken = 1
slots_of _ = 0

abbrev pub set_future : ℕ → Future → Gate → Gate
set_future w f g = record g { futures = update g.futures w f }

-- A task can be cancelled while it waits, and also after it was granted its slot and before it ran
-- on: then `interrupts` finds the future granted.
pub data Step (s : System) : System → Type 0 where
  waits : (now : ℕ) → s.clock ≤ now → Step s (record s { clock = now })
  arrives :
      (urgent : Bool)
      → Step s (record s {
        gate = (acquire s.clock urgent s.gate).0;
        held = s.held + slots_of (acquire s.clock urgent s.gate).1;
      })
  cancels :
      (w : ℕ)
      → s.gate.futures w ≡ pending
      → Step s (record s { gate = set_future w cancelled s.gate })
  resumes :
      (w : ℕ)
      → s.gate.futures w ≡ granted
      → Step s (record s { gate = set_future w dropped s.gate; held = s.held + 1 })
  interrupts :
      (urgent : Bool) (w : ℕ)
      → (s.gate.futures w ≡ granted) ⊎ (s.gate.futures w ≡ cancelled)
      → Step s (record s { gate = set_future w dropped (interrupted s.clock urgent w s.gate) })
  releases :
      (held : ℕ)
      → s.held ≡ suc held
      → Step s (record s { gate = release s.clock s.gate; held = held })
  resizes : (limit : ℕ) → Step s (record s { gate = resize s.clock limit s.gate })
  holds_off : (seconds : ℕ) → Step s (record s { gate = hold_off s.clock seconds s.gate })
  fires :
      (due : ℕ)
      → Member due s.gate.timers
      → due ≤ s.clock
      → Step s (record s {
        gate = resume s.clock (record s.gate { timers = remove_first due s.gate.timers });
      })

pub data Reach (s : System) : System → Type 0 where
  here : Reach s s
  next : {t u : System} → Reach s t → Step t u → Reach s u

pub start : ℕ → System
start limit = record { gate = init limit; held = 0; clock = 0 }
