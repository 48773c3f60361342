-- ===== src/Coordinator/Counters/Life.antt =====
-- The life of a write counter across writes, resynchronisations, counter reports and restarts of
-- Home Assistant: `_starting_counter` of custom_components/bthome_writable/__init__.py with the
-- counters of coordinator.py. The last value saved is the newest of `calls`.
use bthome_writable.Common.{
  ℕ, ◌+◌, ◌^◌, ◌%◌, ◌<◌, ◌≤◌, ◌≡◌, refl, Bool, Option, none, some, List, [], ◌∷◌, All, leb,
  Bool-cases, ◌⊎◌, inl, inr, arith,
}
use bthome_writable.Protocol.Const.{counter_stride, resync_jump}
use bthome_writable.Protocol.Walk.{Bytes}
use bthome_writable.Protocol.Declaration.{Declaration}
use bthome_writable.Protocol.Text.{Text}
use bthome_writable.Coordinator.{init, Call, Call.saves_counter, Coordinator}
use bthome_writable.Coordinator.Counters.{
  save_mark, next_write_counter, resynchronise, resume_above, starting_counter,
}

-- What moves a write counter. `restarts`: Home Assistant stops at any moment and the coordinator
-- is made again from the value saved last.
pub data Event : Type 0 where
  writes : Event
  jumps : Event
  hears : Option ℕ → Event
  restarts : ℕ → Event

-- The coordinator's two numbers, what the configuration entry holds and the counters that writes
-- were sealed under, the newest first.
pub record Life : Type 0 where
  pub self : Coordinator
  pub stored : ℕ
  pub issued : List ℕ

-- The calls that came since are answered: the entry stores what was saved last.
stored_after : ℕ → List Call → ℕ
stored_after stored [] = stored
stored_after stored (saves_counter mark ∷ calls) = mark
stored_after stored (_ ∷ calls) = stored_after stored calls

-- The calls of a coordinator are handed over, and it continues.
pub settle : ℕ → List ℕ → Coordinator → Life
unfolding stored_after
settle stored issued c = record {
  self = record c { calls = [] };
  stored = stored_after stored c.calls;
  issued = issued;
}

pub live : Life → Event → Life
live l writes = let (c, next) = next_write_counter l.self in settle l.stored (next ∷ l.issued) c
live l jumps = settle l.stored l.issued (resynchronise l.self).0
live l (hears reported) = settle l.stored l.issued (resume_above reported l.self).0
live l (restarts now) =
    let start = starting_counter now l.stored in
    record l { self = record (l.self) { counter = start; counter_mark = start; calls = [] } }

pub lives : Life → List Event → Life
lives l [] = l
lives l (e ∷ es) = lives (live l e) es

-- Each counter is larger than all that came before it.
abbrev pub Increasing : List ℕ → Type 0
Increasing [] = Unit {0}
Increasing (n ∷ ns) = All (λ m. m < n) ns × Increasing ns

-- What holds between events.
record IsSafe (l : Life) : Type 0 where
  increasing : Increasing l.issued
  behind : All (λ m. m ≤ l.self.counter) l.issued
  saved : All (λ m. m < l.stored) l.issued
  mark : (l.self.counter_mark ≤ l.self.counter) ⊎ (l.self.counter_mark ≤ l.stored)
  answered : l.self.calls ≡ []

All-weaken : (P Q : ℕ → Type 0) (ns : List ℕ) → ((n : ℕ) → P n → Q n) → All P ns → All Q ns
All-weaken P Q [] f a = tt
All-weaken P Q (n ∷ ns) f a = (f n a.0, All-weaken P Q ns f a.1)

-- The mark was saved: what follows when the counter moves up to `n` and the mark is saved ahead.
module _ (l : Life) (s : IsSafe l) where
  below : (n : ℕ) → l.self.counter ≤ n → All (λ m. m ≤ n) l.issued
  below n h = All-weaken _ _ l.issued (λ m le. omega arith) s.behind

  strictly : (n : ℕ) → l.self.counter < n → All (λ m. m < n) l.issued
  strictly n h = All-weaken _ _ l.issued (λ m le. omega arith) s.behind

  live-writes : IsSafe (live l writes)
  unfolding live next_write_counter settle stored_after save_mark
  live-writes = elim (Bool-cases (leb l.self.counter_mark (l.self.counter + 1))) [
    | inl reached ↦ rw reached (record {
      increasing = (strictly (l.self.counter + 1) (omega arith), s.increasing);
      behind = (omega arith, below (l.self.counter + 1) (omega arith));
      saved = (omega arith, strictly (l.self.counter + 1 + counter_stride) (omega arith));
      mark = inr (omega arith);
      answered = refl;
    })
    | inr short ↦
        let room : l.self.counter + 1 < l.self.counter_mark = ground arith in
        let covered : l.self.counter_mark ≤ l.stored = elim s.mark [
          | inl low ↦ omega arith
          | inr high ↦ high
        ] in
        rw (short, s.answered)
          (record {
            increasing = (strictly (l.self.counter + 1) (omega arith), s.increasing);
            behind = (omega arith, below (l.self.counter + 1) (omega arith));
            saved = (omega arith, s.saved);
            mark = inr covered;
            answered = refl;
          })
  ]

  -- A counter that jumps forward and is saved.
  jumped :
      (n : ℕ)
      → l.self.counter ≤ n
      → IsSafe (settle l.stored l.issued (save_mark (record (l.self) { counter = n })))
  unfolding settle stored_after save_mark
  jumped n h = record {
    increasing = s.increasing;
    behind = below n h;
    saved = strictly (n + counter_stride) (omega arith);
    mark = inr (omega arith);
    answered = refl;
  }

  unmoved : IsSafe (settle l.stored l.issued l.self)
  unfolding settle stored_after
  unmoved = rw s.answered (record {
    increasing = s.increasing;
    behind = s.behind;
    saved = s.saved;
    mark = s.mark;
    answered = refl;
  })

  live-hears : (reported : Option ℕ) → IsSafe (live l (hears reported))
  unfolding live resume_above
  live-hears none = unmoved
  live-hears (some r) = elim (Bool-cases (leb ((r + 1) % 2 ^ 32) l.self.counter)) [
    | inl behind ↦ rw behind unmoved
    | inr ahead ↦ rw ahead (jumped ((r + 1) % 2 ^ 32) (ground arith))
  ]

  live-restarts : (now : ℕ) → IsSafe (live l (restarts now))
  unfolding live starting_counter
  live-restarts now = record {
    increasing = s.increasing;
    behind = All-weaken _ _ l.issued (λ m lt. omega arith) s.saved;
    saved = s.saved;
    mark = inl (omega arith);
    answered = refl;
  }

  live-IsSafe : (e : Event) → IsSafe (live l e)
  live-IsSafe writes = live-writes
  live-IsSafe jumps =
      unfold live resynchronise in jumped (l.self.counter + resync_jump) (omega arith)
  live-IsSafe (hears reported) = live-hears reported
  live-IsSafe (restarts now) = live-restarts now

lives-IsSafe : (l : Life) (es : List Event) → IsSafe l → IsSafe (lives l es)
unfolding lives
lives-IsSafe l [] s = s
lives-IsSafe l (e ∷ es) s = lives-IsSafe (live l e) es (live-IsSafe l s e)

-- A coordinator that setup makes at the clock `now` from an entry that holds `stored`.
abbrev pub begin : Text → Option Bytes → Option Declaration → Bool → ℕ → ℕ → Life
begin address bindkey declaration sleepy now stored = record {
  self = init address bindkey (starting_counter now stored) declaration sleepy;
  stored = stored;
  issued = [];
}

-- Whatever writes, resynchronisations, counter reports and restarts come in whatever order, with
-- whatever clock at each restart, every write is sealed under a larger counter than all before it,
-- so no counter is used twice.
pub lives-Increasing :
    (address : Text) (bindkey : Option Bytes) (declaration : Option Declaration) (sleepy : Bool)
    (now stored : ℕ) (es : List Event)
    → Increasing (lives (begin address bindkey declaration sleepy now stored) es).issued
lives-Increasing address bindkey declaration sleepy now stored es =
    (lives-IsSafe (begin address bindkey declaration sleepy now stored) es (record {
      increasing = tt;
      behind = tt;
      saved = tt;
      mark = unfold init in inl (omega arith);
      answered = unfold init in refl;
    })).increasing
