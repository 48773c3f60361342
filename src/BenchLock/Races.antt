-- ===== src/BenchLock/Races.antt =====
-- Commands of several agents beside each other, each holder running one at a time. A command reads
-- the file and the clock in one step and does what it decided in a later one, so that the others
-- come between; `turn` of one agent is the two steps without a gap.
pub mod Held
use bthome_writable.Common.{
  ℕ, ◌+◌, ◌*◌, ◌≤◌, ◌≡◌, ◌≢◌, refl, sym, ap, ◌∙◌, subst, ◌⊎◌, Bool, true, false, not, ◌&&◌, Option,
  none, some, String, str_eq, if◌then◌else◌, ltb, leb, Result, ok, err, inl, inr, Bool-cases,
  if_cases, arith,
}
use text.Mathlib.TextEquality.{eq_iff}
use bthome_writable.BenchLock.{
  Lock, File, absent, garbage, locked, Share, read_lock, has_expired, is_held_by, write_lock,
  remove_lock, create_file, Command, acquire, renew, release, decide, Action, creates, overwrites,
  removes, returns, sleeps, perform, unreadable, note_or,
}

-- An agent between commands, or about to do what it decided.
pub data Phase : Type 0 where
  idle : Phase
  will : Action → Phase

pub record Bench : Type 0 where
  pub clock : ℕ
  pub share : Share
  pub agents : String → Phase

abbrev pub set_phase : (String → Phase) → String → Phase → String → Phase
set_phase agents holder phase = λ h. if str_eq h holder then phase else agents h

-- `passes`: time, and a share that comes and goes.
pub data Step (s : Bench) : Bench → Type 0 where
  passes :
      (now : ℕ) (up : Bool)
      → s.clock ≤ now
      → Step s (record s { clock = now; share = record s.share { up = up } })
  looks :
      (holder : String) (command : Command) (current : Option Lock)
      → s.agents holder ≡ idle
      → read_lock s.clock s.share ≡ ok current
      → Step s (record s {
        agents = set_phase s.agents holder (will (decide holder command s.clock current));
      })
  acts :
      (holder : String) (action : Action)
      → s.agents holder ≡ will action
      → Step s (record s {
        share = (perform holder action s.clock s.share).0;
        agents = set_phase s.agents holder idle;
      })

abbrev pub Unforced : Command → Type 0
Unforced (release true) = ⊥
Unforced other = Unit

abbrev pub Unexpired : ℕ → File → Type 0
Unexpired now (locked lock) = has_expired now lock ≡ false
Unexpired now other = Unit

-- A step that forces no release and finds no lease run out.
abbrev pub IsOrderly : {s t : Bench} → Step s t → Type 0
IsOrderly (passes now up h) = Unit
IsOrderly {s = s} (looks holder command current i r) =
    Unforced command × Unexpired s.clock s.share.file
IsOrderly (acts holder action w) = Unit

-- Steps that are orderly.
pub data Reach (s : Bench) : Bench → Type 0 where
  here : Reach s s
  next : {t u : Bench} → Reach s t → (step : Step t u) → IsOrderly step → Reach s u

-- A step that is not the holder's own doing.
abbrev pub Others : String → {s t : Bench} → Step s t → Type 0
Others h (passes now up p) = Unit
Others h (looks holder command current i r) = str_eq h holder ≡ false
Others h (acts holder action w) = str_eq h holder ≡ false

-- Orderly steps of others only.
pub data Quiet (h : String) (s : Bench) : Bench → Type 0 where
  still : Quiet h s s
  then' :
      {t u : Bench} → Quiet h s t → (step : Step t u) → IsOrderly step → Others h step → Quiet h s u

abbrev pub holder_of : File → Option String
holder_of absent = none
holder_of garbage = some unreadable
holder_of (locked lock) = lock.holder

abbrev pub Owns : String → File → Type 0
Owns h file = is_held_by (holder_of file) h ≡ true

-- What an agent is about to do to a file that is there, it does to its own.
abbrev pub Backed : String → Phase → File → Type 0
Backed h (will (overwrites note minutes)) file = Owns h file
Backed h (will removes) file = Owns h file
Backed h other file = Unit

abbrev pub IsSound : Bench → Type 0
IsSound s = (h : String) → Backed h (s.agents h) s.share.file
