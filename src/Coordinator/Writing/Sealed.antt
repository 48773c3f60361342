-- ===== src/Coordinator/Writing/Sealed.antt =====
-- What `_write_now` of custom_components/bthome_writable/coordinator.py puts on the air.
use bthome_writable.Common.{
  ℕ, ◌<◌, ◌≡◌, refl, sym, subst, inl, inr, Bool, true, false, not, ◌&&◌, Option, none, some, List,
  [], ◌∷◌, All, if_cases, Bool-cases, Option-cases, Result-cases, if◌then◌else◌, Result, ok, err,
  Error, write_failed, arith,
}
use bthome_writable.Protocol.Walk.{Bytes, Table}
use bthome_writable.Protocol.Declaration.{WritableEntry, Declaration, encode_object}
use bthome_writable.Protocol.Sealing.{Ccm, seal_write}
use bthome_writable.Coordinator.{
  Call.writes_entry, Keeps, Coordinator, is_some, is_true, is_false, entry, lookup,
}
use bthome_writable.Coordinator.Counters.{next_write_counter}
use bthome_writable.Coordinator.Counters.Moves.{
  next_write_counter-value, next_write_counter-All, Onward, Onward-trans,
}
use bthome_writable.Coordinator.Reading.{
  Attempt, Attempt.out_of_slots, Attempt.refused, Attempt.connects, Client, Characteristic,
  open_value,
}
use bthome_writable.Coordinator.Reading.Calls.{meanwhile-All}
use bthome_writable.Coordinator.Writing.Stages.{
  Allowed, Proper, quiet-Proper, ask-Onward, conclude-All,
}
use bthome_writable.Coordinator.Writing.{
  Command, answered, ask_if, protect, read_back, is_stale_entry, stale_fails, send_under, deliver,
  over_link, write_entry, write_now,
}

and_true : (b : Bool) → b && true ≡ false → b ≡ false
and_true true h = h
and_true false h = refl

-- What else happens while the command awaits the host and the device writes nothing.
pub record IsSteady (w : Command) : Type 0 where
  pub linking : Keeps w.linking
  pub asking : Keeps w.asking
  pub writing : Keeps w.writing
  pub reading :
      (client : Client) (n : ℕ) (ch : Characteristic)
      → w.connection ≡ connects client
      → client n ≡ some ch
      → Keeps ch.meanwhile
  pub later : (n : ℕ) (ch : Characteristic) → w.later n ≡ some ch → Keeps ch.meanwhile

module _ (ccm : Ccm) (table : Table) (offered_entries : Declaration → List WritableEntry)
    (c : Coordinator) (w : Command) (steady : IsSteady w) (e : WritableEntry)
    (found : entry c w.number ≡ some e) where
  -- Whatever happens meanwhile.
  waited-All :
      (meanwhile : Coordinator → Coordinator) (c' : Coordinator)
      → Keeps meanwhile
      → All (Proper ccm c w) c'.calls
      → All (Proper ccm c w) (meanwhile c').calls
  waited-All meanwhile c' k a =
      meanwhile-All (Proper ccm c w) (quiet-Proper ccm c w) meanwhile c' k a

  waited-Onward :
      (meanwhile : Coordinator → Coordinator) (c' : Coordinator)
      → Keeps meanwhile
      → All (Proper ccm c w) c'.calls
      → Onward (Proper ccm c w) c' (meanwhile c')
  waited-Onward meanwhile c' k a = record {
    up = k.onward c';
    same_key = k.same_key c';
    same_address = k.same_address c';
    proper = waited-All meanwhile c' k a;
  }

  failed-All :
      (x : Error) (c' : Coordinator)
      → All (Proper ccm c w) c'.calls
      → All (Proper ccm c w) (stale_fails ccm table offered_entries x c').0.calls
  unfolding stale_fails
  failed-All x c' a = elim (Bool-cases (is_stale_entry ccm table offered_entries x)) [
    | inl stale ↦ rw (stale, stale_fails) (tt, a)
    | inr other ↦ rw (other, stale_fails) a
  ]

  answered-All :
      (content : Option Bytes) (c' : Coordinator)
      → All (Proper ccm c w) c'.calls
      → All (Proper ccm c w) (answered ccm table offered_entries e content c').0.calls
  unfolding answered
  answered-All none c' a = a
  answered-All (some raw) c' a =
      elim (Result-cases (open_value ccm table c'.bindkey c'.address e raw)) [
        | inl (value, is) ↦ rw (is, answered) a
        | inr (x, is) ↦ rw (is, answered) (failed-All x c' a)
      ]

  read_back-All :
      (client : Client) (c' : Coordinator)
      → w.connection ≡ connects client
      → All (Proper ccm c w) c'.calls
      → All (Proper ccm c w) (read_back ccm table offered_entries e client c').0.calls
  unfolding read_back
  read_back-All client c' linked a = elim (Option-cases (client e.entry)) [
    | inl missing ↦ rw (missing, read_back) a
    | inr (ch, there) ↦ elim (Bool-cases ch.readable) [
      | inr write_only ↦ rw (there, write_only, read_back) a
      | inl readable ↦
          rw (there, readable, read_back)
            (answered-All ch.content (ch.meanwhile c')
              (waited-All ch.meanwhile c' (steady.reading client e.entry ch linked there) a))
    ]
  ]

  deliver-All :
      (previous : Option Bytes) (client later : Client) (payload : Bytes) (c' : Coordinator)
      → w.connection ≡ connects client
      → ((n : ℕ) (ch : Characteristic) → later n ≡ some ch → Keeps ch.meanwhile)
      → Allowed ccm c w e payload
      → All (Proper ccm c w) c'.calls
      → All
          (Proper ccm c w)
          (deliver ccm table offered_entries w e previous client later payload c').0.calls
  unfolding deliver
  deliver-All previous client later payload c' linked calm allowed a =
      elim (Option-cases (client e.entry)) [
        | inl missing ↦ rw (missing, deliver) (tt, a)
        | inr (ch, there) ↦
            let out : Coordinator = record c' {
              calls = writes_entry ch.number payload ∷ c'.calls;
            } in
            let sent = w.writing out in
            let proper : All (Proper ccm c w) out.calls =
              ((e, client, ch, found, linked, there, refl, allowed), a) in
            let b = waited-All w.writing out steady.writing proper in
            let back = read_back-All client sent linked b in
            elim (Result-cases w.accepted) [
              | inr (x, failed) ↦ rw (there, failed, deliver) b
              | inl (done, accepted) ↦
                  elim (Result-cases (read_back ccm table offered_entries e client sent).1) [
                    | inr (x, is) ↦ rw (there, accepted, is, deliver) back
                    | inl (value, is) ↦
                        rw (there, accepted, is, deliver)
                          (conclude-All ccm table offered_entries c c' w later value previous _ calm
                            back)
                  ]
            ]
      ]

  -- The link is open and the question for the counter was asked.
  send-All :
      (previous : Option Bytes) (client : Client) (c' : Coordinator) (key : Option Bytes)
      → w.connection ≡ connects client
      → c.bindkey ≡ key
      → (is_some key && (is_false c.advertises_encrypted && true) ≡ false)
        × (not (is_some key) && is_true c.advertises_encrypted ≡ false)
      → Onward (Proper ccm c w) c c'
      → All
          (Proper ccm c w)
          (send_under ccm table offered_entries w e previous client w.later key c').0.calls
  unfolding send_under protect
  send-All previous client c' none linked keyless guards o =
      deliver-All previous client w.later (encode_object e w.value) c' linked steady.later
        (inl (keyless, guards.1, refl)) o.proper
  send-All previous client c' (some key) linked held guards o =
      let (drawn, counter) = next_write_counter c' in
      let b = next_write_counter-All (Proper ccm c w) (λ n. tt) c' o.proper in
      let above : c.counter < counter = omega (arith, o.up, next_write_counter-value c') in
      elim (Result-cases (seal_write ccm (encode_object e w.value) key c'.address counter)) [
        | inr (x, is) ↦ rw (is, send_under) b
        | inl (payload, is) ↦
            let sealed : seal_write ccm (encode_object e w.value) key c.address counter
                ≡ ok payload =
              subst (λ a. seal_write ccm (encode_object e w.value) key a counter ≡ ok payload)
                o.same_address is in
            rw (is, send_under)
              (deliver-All previous client w.later payload drawn linked steady.later
                (inr (key, counter, held, and_true _ guards.0, above, sealed)) b)
      ]

  ask_if-Onward :
      (armed : Bool) (c' : Coordinator)
      → All (Proper ccm c w) c'.calls
      → Onward (Proper ccm c w) c' (ask_if ccm table offered_entries armed w c').0
  unfolding ask_if
  ask_if-Onward true c' a =
      let o = waited-Onward w.asking c' steady.asking a in
      let asked = w.asking c' in
      Onward-trans c' asked _ o
        (ask-Onward ccm table offered_entries c asked w w.reported asked.bindkey o.proper)
  ask_if-Onward false c' a = record {
    up = omega arith;
    same_key = refl;
    same_address = refl;
    proper = a;
  }

  over_link-All :
      (connection : Attempt)
      → w.connection ≡ connection
      → (is_some c.bindkey && (is_false c.advertises_encrypted && true) ≡ false)
        × (not (is_some c.bindkey) && is_true c.advertises_encrypted ≡ false)
      → All (Proper ccm c w) c.calls
      → All (Proper ccm c w) (over_link ccm table offered_entries w e connection c).0.calls
  unfolding over_link
  over_link-All out_of_slots linked guards a = (tt, waited-All w.linking c steady.linking a)
  over_link-All refused linked guards a = waited-All w.linking c steady.linking a
  over_link-All (connects client) linked guards a =
      let previous = lookup w.number c.values in
      let ready = w.linking c in
      let first = waited-Onward w.linking c steady.linking a in
      let asked = ask_if ccm table offered_entries ready.resync_counter w ready in
      let o =
        Onward-trans c ready asked.0 first
          (ask_if-Onward ready.resync_counter ready first.proper) in
      elim (Result-cases asked.1) [
        | inr (x, is) ↦ rw (is, over_link) o.proper
        | inl (done, is) ↦
            rw (is, over_link)
              (subst
                (λ k.
                  All (Proper ccm c w)
                    (send_under ccm table offered_entries w e previous client w.later k
                      asked.0).0.calls)
                (sym o.same_key) (send-All previous client asked.0 c.bindkey linked refl guards o))
      ]

module _ (ccm : Ccm) (table : Table) (offered_entries : Declaration → List WritableEntry) where
  write_entry-All :
      (c : Coordinator) (w : Command) (steady : IsSteady w) (e : Option WritableEntry)
      → entry c w.number ≡ e
      → (is_some c.bindkey && (is_false c.advertises_encrypted && true) ≡ false)
        × (not (is_some c.bindkey) && is_true c.advertises_encrypted ≡ false)
      → All (Proper ccm c w) c.calls
      → All (Proper ccm c w) (write_entry ccm table offered_entries w e c).0.calls
  unfolding write_entry
  write_entry-All c w steady none missing guards a = a
  write_entry-All c w steady (some e) found guards a =
      over_link-All ccm table offered_entries c w steady e found w.connection refl guards a

  -- Whatever the host and the device answer, and whatever advertisement arrives while they are
  -- awaited, a command writes to no characteristic but the one that its connection has for the entry
  -- that the device declares under its number. With a key, what it writes is sealed under it and a
  -- counter above the one held before, and when the command was let through the last advertisement
  -- was not in clear; without one, it goes out in clear, and then the last advertisement was not
  -- encrypted. What happens meanwhile writes nothing, changes neither the key nor the address, and
  -- does not set the counter back.
  pub write_now-Proper :
      (c : Coordinator) (w : Command)
      → IsSteady w
      → c.calls ≡ []
      → All (Proper ccm c w) (write_now ccm table offered_entries w c).0.calls
  unfolding write_now
  write_now-Proper c w steady quiet =
      let a : All (Proper ccm c w) c.calls = subst (All (Proper ccm c w)) (sym quiet) tt in
      let P = λ (r : Coordinator × Result (Unit {0})). All (Proper ccm c w) r.0.calls in
      let fail : Coordinator × Result (Unit {0}) = (c, err write_failed) in
      let written = write_entry ccm table offered_entries w (entry c w.number) c in
      let heard = if not w.reachable then fail else written in
      let declared = if not (is_some c.declaration) then fail else heard in
      let plain = not (is_some c.bindkey) && is_true c.advertises_encrypted in
      if_cases P _ fail (if plain then fail else declared) (λ clear. a)
        (λ keyed.
          if_cases P plain fail declared (λ encrypted. a)
            (λ keyless.
              if_cases P (not (is_some c.declaration)) fail heard (λ undeclared. a)
                (λ known.
                  if_cases P (not w.reachable) fail written (λ unreachable. a)
                    (λ reachable.
                      write_entry-All c w steady (entry c w.number) refl (keyed, keyless) a))))
