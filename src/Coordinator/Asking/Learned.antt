-- ===== src/Coordinator/Asking/Learned.antt =====
-- What the question over a connection of its own teaches the receiver.
use bthome_writable.Common.{
  ℕ, ◌+◌, ◌^◌, ◌%◌, ◌<◌, ◌≡◌, refl, ap, subst, ◌∙◌, ◌⊎◌, inl, inr, Bool, not, true, false, Option,
  none, some, leb, Result, ok, err, Error, if_cases, Result-cases, arith,
}
use bthome_writable.Protocol.Walk.{Bytes}
use bthome_writable.Protocol.Sealing.{Ccm, open_counter_report}
use bthome_writable.Coordinator.{Coordinator}
use bthome_writable.Coordinator.Counters.{adopt_counter, resume_above, save_mark}
use bthome_writable.Coordinator.Reading.{
  Attempt, Attempt.out_of_slots, Attempt.refused, Attempt.connects, Client,
}
use bthome_writable.Coordinator.Writing.{Report, raises, not_in_table, report}
use bthome_writable.Coordinator.Asking.{
  Look, connect, counter_report, look_at, answered, after_second, after_first, looks, sync_under,
  async_sync_write_counter,
}

-- A look that found the characteristic missing, and one that brought a report.
abbrev pub Missed : Look → Type 0
Missed look =
    (client : Client) × (look.connection ≡ connects client) × (look.reported ≡ not_in_table)

abbrev pub Brought : Look → Bytes → Type 0
Brought look sealed =
    (client : Client) × (look.connection ≡ connects client) × (look.reported ≡ report sealed)

-- The counter is kept, or resumed one above what the opened report tells, when that is ahead of it.
abbrev pub Moved : Result (Option ℕ) → ℕ → ℕ → Type 0
Moved opened old new =
    (new ≡ old)
    ⊎ ((told : ℕ) × (opened ≡ ok (some told)) × (new ≡ (told + 1) % 2 ^ 32) × (old < new))

-- What else happens while a look is awaited, such as a command that draws a counter: it is the same
-- device, and what it offers is not asked beside.
pub record IsCalm (look : Look) : Type 0 where
  pub same_address : (c : Coordinator) → (look.meanwhile c).address ≡ c.address
  pub same_offers :
      (c : Coordinator) → (look.meanwhile c).offers_counter_report ≡ c.offers_counter_report

-- The counter that is held when the question is over: after no look, one or both.
pub data Awaited (first second : Look) (c : Coordinator) (held : ℕ) : Type 0 where
  at_once : held ≡ c.counter → Awaited first second c held
  after_one : held ≡ (first.meanwhile c).counter → Awaited first second c held
  after_two :
      (between : Coordinator)
      → between.counter ≡ (first.meanwhile c).counter
      → held ≡ (second.meanwhile between).counter
      → Awaited first second c held

pub data Learned (ccm : Ccm) (challenge : Bytes) (first second : Look) (c c' : Coordinator)
    : Type 0 where
  nothing :
      Awaited first second c c'.counter
      → c'.offers_counter_report ≡ c.offers_counter_report
      → Learned ccm challenge first second c c'
  absent :
      Awaited first second c c'.counter
      → c'.offers_counter_report ≡ some false
      → Missed first
      → Missed second
      → Learned ccm challenge first second c c'
  told :
      (bindkey sealed : Bytes) (held : ℕ)
      → Awaited first second c held
      → c.bindkey ≡ some bindkey
      → Brought first sealed ⊎ (Missed first × Brought second sealed)
      → c'.offers_counter_report ≡ some true
      → Moved (open_counter_report ccm sealed bindkey c.address challenge) held c'.counter
      → Learned ccm challenge first second c c'

-- What `look_at` keeps and answers.
record Looked (look : Look) (c : Coordinator) (end : Coordinator × Result (Option Bytes))
    : Type 0 where
  same_counter : end.0.counter ≡ c.counter
  same_offers : end.0.offers_counter_report ≡ c.offers_counter_report
  same_address : end.0.address ≡ c.address
  missed : end.1 ≡ ok none → Missed look
  brought : (sealed : Bytes) → end.1 ≡ ok (some sealed) → Brought look sealed

-- Two results of one report are one.
ok_some : {a b : Bytes} → ok (some a) ≡ ok (some b) → a ≡ b
ok_some e = ground arith

-- A look that raised.
fruitless :
    (look : Look) (c after : Coordinator) (x : Error)
    → after.counter ≡ c.counter
    → after.offers_counter_report ≡ c.offers_counter_report
    → after.address ≡ c.address
    → Looked look c (after, err x)
fruitless look c after x counter offers address = record {
  same_counter = counter;
  same_offers = offers;
  same_address = address;
  missed = λ e. absurd (ground arith);
  brought = λ sealed e. absurd (ground arith);
}

looked :
    (meanwhile : Coordinator → Coordinator) (connection : Attempt) (reported : Report)
    (c : Coordinator)
    → Looked
        (record { meanwhile = meanwhile; connection = connection; reported = reported })
        (meanwhile c)
        (look_at (record { meanwhile = meanwhile; connection = connection; reported = reported }) c)
unfolding look_at connect counter_report
looked meanwhile out_of_slots reported c = fruitless _ (meanwhile c) _ _ refl refl refl
looked meanwhile refused reported c = fruitless _ (meanwhile c) _ _ refl refl refl
looked meanwhile (connects client) raises c = fruitless _ (meanwhile c) _ _ refl refl refl
looked meanwhile (connects client) not_in_table c = record {
  same_counter = refl;
  same_offers = refl;
  same_address = refl;
  missed = λ e. (client, refl, refl);
  brought = λ sealed e. absurd (ground arith);
}
looked meanwhile (connects client) (report sealed) c = record {
  same_counter = refl;
  same_offers = refl;
  same_address = refl;
  missed = λ e. absurd (ground arith);
  brought = λ s e. (client, refl, ap report (ok_some e));
}

look_at-Looked : (look : Look) (c : Coordinator) → Looked look (look.meanwhile c) (look_at look c)
look_at-Looked look c = looked look.meanwhile look.connection look.reported c

Resumed : Result (Option ℕ) → Coordinator → Coordinator → Type 0
Resumed opened c c' =
    (c'.offers_counter_report ≡ c.offers_counter_report) × Moved opened c.counter c'.counter

resumed :
    (reported : Option ℕ) (c : Coordinator) → Resumed (ok reported) c (resume_above reported c).0
unfolding Resumed resume_above save_mark
resumed none c = (refl, inl refl)
resumed (some d) c =
    if_cases {A = Coordinator × Option ℕ} (λ r. Resumed (ok (some d)) c r.0)
      (leb ((d + 1) % 2 ^ 32) c.counter) _ _ (λ behind. (refl, inl refl))
      (λ ahead. (refl, inr (d, refl, refl, ground arith)))

adopt-Resumed :
    (ccm : Ccm) (challenge bindkey sealed : Bytes) (c : Coordinator)
    → Resumed
        (open_counter_report ccm sealed bindkey c.address challenge)
        c
        (adopt_counter ccm sealed challenge bindkey c).0
unfolding adopt_counter Resumed
adopt-Resumed ccm challenge bindkey sealed c =
    elim (Result-cases (open_counter_report ccm sealed bindkey c.address challenge)) [
      | inl (reported, is) ↦ rw (is, adopt_counter) (resumed reported c)
      | inr (x, is) ↦ rw (is, adopt_counter) (refl, inl refl)
    ]

module _ (ccm : Ccm) (challenge bindkey : Bytes) (first second : Look) (c : Coordinator)
    (key : c.bindkey ≡ some bindkey) (calm_first : IsCalm first) (calm_second : IsCalm second) where
  tells :
      (sealed : Bytes) (before : Coordinator)
      → Awaited first second c before.counter
      → before.address ≡ c.address
      → Brought first sealed ⊎ (Missed first × Brought second sealed)
      → Learned ccm challenge first second c (answered ccm challenge bindkey sealed before).0
  unfolding answered Resumed
  tells sealed before n a how =
      let asked : Coordinator = record before { offers_counter_report = some true } in
      let r = adopt-Resumed ccm challenge bindkey sealed asked in
      let after = (answered ccm challenge bindkey sealed before).0 in
      told bindkey sealed before.counter n key how r.0 (
        subst
          (λ m.
            Moved (open_counter_report ccm sealed bindkey m challenge) before.counter after.counter)
          a r.1)

  second-Learned :
      (after : Coordinator) (seen : Result (Option Bytes))
      → Awaited first second c after.counter
      → after.address ≡ c.address
      → after.offers_counter_report ≡ c.offers_counter_report
      → Missed first
      → (seen ≡ ok none → Missed second)
      → ((sealed : Bytes) → seen ≡ ok (some sealed) → Brought second sealed)
      → Learned ccm challenge first second c (after_second ccm challenge bindkey after seen).0
  unfolding after_second
  second-Learned after (err e) n a o missed' m b = nothing n o
  second-Learned after (ok none) n a o missed' m b = absent n refl missed' (m refl)
  second-Learned after (ok (some sealed)) n a o missed' m b =
      tells sealed after n a (inr (missed', b sealed refl))

  first-Learned :
      (after : Coordinator) (seen : Result (Option Bytes))
      → after.counter ≡ (first.meanwhile c).counter
      → after.address ≡ c.address
      → after.offers_counter_report ≡ c.offers_counter_report
      → (seen ≡ ok none → Missed first)
      → ((sealed : Bytes) → seen ≡ ok (some sealed) → Brought first sealed)
      → Learned ccm challenge first second c (after_first ccm challenge bindkey second after seen).0
  unfolding after_first
  first-Learned after (err e) n a o m b = nothing (after_one n) o
  first-Learned after (ok none) n a o m b =
      let l = look_at-Looked second after in
      let end = look_at second after in
      second-Learned end.0 end.1 (after_two after n l.same_counter)
        (l.same_address ∙ (calm_second.same_address after ∙ a))
        (l.same_offers ∙ (calm_second.same_offers after ∙ o)) (m refl) l.missed l.brought
  first-Learned after (ok (some sealed)) n a o m b =
      tells sealed after (after_one n) a (inl (b sealed refl))

  looks-Learned :
      Learned ccm challenge first second c (looks ccm challenge bindkey first second c).0
  unfolding looks
  looks-Learned =
      let l = look_at-Looked first c in
      let end = look_at first c in
      first-Learned end.0 end.1 l.same_counter (l.same_address ∙ calm_first.same_address c)
        (l.same_offers ∙ calm_first.same_offers c) l.missed l.brought

under-Learned :
    (ccm : Ccm) (held : Option Bytes) (reachable : Bool) (challenge : Bytes) (first second : Look)
    (c : Coordinator)
    → IsCalm first
    → IsCalm second
    → c.bindkey ≡ held
    → Learned ccm challenge first second c
        (sync_under ccm held reachable challenge first second c).0
unfolding sync_under
under-Learned ccm none reachable challenge first second c calm calm' key =
    nothing (at_once refl) refl
under-Learned ccm (some bindkey) reachable challenge first second c calm calm' key =
    if_cases {A = Coordinator × Result (Option ℕ)} (λ r. Learned ccm challenge first second c r.0)
      (not reachable) _ _ (λ gone. nothing (at_once refl) refl)
      (λ there. looks-Learned ccm challenge bindkey first second c key calm calm')

-- Whatever comes of the question over a connection of its own, an error included, it teaches the
-- receiver one of three things. Nothing: the counter and what it holds of the device stay. That the
-- device does not offer the report, and then both looks connected and found the characteristic
-- missing. Or that it does, from a report that the first look brought, or the second after the first
-- missed it: the counter then stays, or becomes one above what that report tells, modulo 2 ^ 32, if
-- the report opens under the key to an answer to this challenge and that is ahead of it. The counter
-- is the one held when the looks are over, which a command may have moved while they were awaited;
-- what else happens then leaves the address and what is known of the report.
pub sync-Learned :
    (ccm : Ccm) (reachable : Bool) (challenge : Bytes) (first second : Look) (c : Coordinator)
    → IsCalm first
    → IsCalm second
    → Learned ccm challenge first second c
        (async_sync_write_counter ccm reachable challenge first second c).0
unfolding async_sync_write_counter
sync-Learned ccm reachable challenge first second c calm calm' =
    under-Learned ccm c.bindkey reachable challenge first second c calm calm' refl
