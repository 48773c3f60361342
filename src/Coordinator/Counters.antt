-- ===== src/Coordinator/Counters.antt =====
-- The write counter (§5.3): `next_write_counter`, `resynchronise` and `_adopt_counter` of
-- custom_components/bthome_writable/coordinator.py, and `_starting_counter` of
-- custom_components/bthome_writable/__init__.py.
pub mod Moves
pub mod Life
pub mod Examples
use bthome_writable.Common.{
  ℕ, suc, ◌+◌, ◌^◌, ◌%◌, ◌<◌, ◌≤◌, ◌≡◌, refl, sym, ap, max, Bool, true, false, Option, none, some,
  List, [], ◌∷◌, All, if◌then◌else◌, leb, Result, ok, err, ◌>>=◌, Bool-cases, ◌⊎◌, inl, inr, arith,
  Option-cases, Result-cases,
}
use bthome_writable.Protocol.Const.{counter_stride, resync_jump}
use bthome_writable.Protocol.Walk.{Bytes}
use bthome_writable.Protocol.Sealing.{Ccm, open_counter_report}
use bthome_writable.Protocol.Declaration.{Declaration}
use bthome_writable.Protocol.Text.{Text}
use bthome_writable.Coordinator.{init, Call, Call.saves_counter, Coordinator, call}

-- `_on_counter(self._counter_mark)`, after the mark is set ahead of the counter.
unfoldable pub save_mark : Coordinator → Coordinator
save_mark c =
    let mark = c.counter + counter_stride in
    call (saves_counter mark) (record c { counter_mark = mark })

pub next_write_counter : Coordinator → Coordinator × ℕ
unfolding save_mark
next_write_counter c =
    let next = c.counter + 1 in
    let c' = record c { counter = next } in
    (if leb c.counter_mark next then save_mark c' else c', next)

pub resynchronise : Coordinator → Coordinator × ℕ
unfolding save_mark
resynchronise c =
    let jumped = c.counter + resync_jump in (save_mark (record c { counter = jumped }), jumped)

-- The counter to resume at above what the device reports.
unfoldable pub resume_above : Option ℕ → Coordinator → Coordinator × Option ℕ
unfolding save_mark
resume_above none c = (c, none)
resume_above (some reported) c =
    let resumed = (reported + 1) % 2 ^ 32 in
    if leb resumed c.counter
    then (c, none)
    else (save_mark (record c { counter = resumed }), some resumed)

module _ (ccm : Ccm) where
  -- The key is the one the question was asked under.
  unfoldable pub adopt_counter :
      Bytes → Bytes → Bytes → Coordinator → Coordinator × Result (Option ℕ)
  adopt_counter report challenge bindkey c =
      elim (open_counter_report ccm report bindkey c.address challenge) [
        | err e ↦ (c, err e)
        | ok reported ↦ let (c', adopted) = resume_above reported c in (c', ok adopted)
      ]

-- `_starting_counter`, at the wall clock `now` in seconds.
pub starting_counter : ℕ → ℕ → ℕ
starting_counter now stored = max stored now
