-- ===== src/Coordinator/Counters/Moves.antt =====
-- What drawing a counter and adopting one leave alone.
use bthome_writable.Common.{
  ℕ, ◌+◌, ◌^◌, ◌%◌, ◌≤◌, ◌≡◌, refl, ◌∙◌, Option, none, some, All, Bool-cases, inl, inr,
  Result-cases, leb, arith,
}
use bthome_writable.Protocol.Walk.{Bytes}
use bthome_writable.Protocol.Sealing.{Ccm, open_counter_report}
use bthome_writable.Coordinator.{Call, Call.saves_counter, Coordinator}
use bthome_writable.Coordinator.Counters.{
  save_mark, next_write_counter, resume_above, adopt_counter,
}

pub next_write_counter-value : (c : Coordinator) → (next_write_counter c).1 ≡ c.counter + 1
unfolding next_write_counter
next_write_counter-value c = refl

-- The counter goes up at most, and the key and the address stay.
pub record Onward (P : Call → Type 0) (c c' : Coordinator) : Type 0 where
  pub up : c.counter ≤ c'.counter
  pub same_key : c'.bindkey ≡ c.bindkey
  pub same_address : c'.address ≡ c.address
  pub proper : All P c'.calls

pub Onward-trans :
    {P : Call → Type 0} (a b c : Coordinator) → Onward P a b → Onward P b c → Onward P a c
Onward-trans a b c o p = record {
  up = omega (arith, o.up, p.up);
  same_key = p.same_key ∙ o.same_key;
  same_address = p.same_address ∙ o.same_address;
  proper = p.proper;
}

module _ (P : Call → Type 0) (saves : (n : ℕ) → P (saves_counter n)) where
  pub next_write_counter-All :
      (c : Coordinator) → All P c.calls → All P (next_write_counter c).0.calls
  unfolding next_write_counter save_mark
  next_write_counter-All c a = elim (Bool-cases (leb c.counter_mark (c.counter + 1))) [
    | inl reached ↦ rw (reached, next_write_counter) (saves _, a)
    | inr short ↦ rw (short, next_write_counter) a
  ]

  resume_above-Onward :
      (reported : Option ℕ) (c : Coordinator)
      → All P c.calls
      → Onward P c (resume_above reported c).0
  unfolding resume_above save_mark
  resume_above-Onward none c a = record {
    up = omega arith;
    same_key = refl;
    same_address = refl;
    proper = a;
  }
  resume_above-Onward (some reported) c a =
      elim (Bool-cases (leb ((reported + 1) % 2 ^ 32) c.counter)) [
        | inl behind ↦
            rw (behind, resume_above)
              (record { up = omega arith; same_key = refl; same_address = refl; proper = a })
        | inr ahead ↦
            rw (ahead, resume_above)
              (record {
                up = ground arith;
                same_key = refl;
                same_address = refl;
                proper = (saves _, a);
              })
      ]

  pub adopt_counter-Onward :
      (ccm : Ccm) (sealed challenge bindkey : Bytes) (c : Coordinator)
      → All P c.calls
      → Onward P c (adopt_counter ccm sealed challenge bindkey c).0
  unfolding adopt_counter
  adopt_counter-Onward ccm sealed challenge bindkey c a =
      elim (Result-cases (open_counter_report ccm sealed bindkey c.address challenge)) [
        | inl (reported, is) ↦ rw (is, adopt_counter) (resume_above-Onward reported c a)
        | inr (x, is) ↦
            rw (is, adopt_counter)
              (record { up = omega arith; same_key = refl; same_address = refl; proper = a })
      ]
