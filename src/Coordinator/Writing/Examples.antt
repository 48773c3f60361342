-- ===== src/Coordinator/Writing/Examples.antt =====
-- One sealed command to a device that reports a counter.
use bthome_writable.Common.{◌≡◌, ap, ◌∙◌, arith, refl, true, false, some, [], ◌∷◌, All, ok}
use bthome_writable.Protocol.Walk.Examples.{small_table}
use bthome_writable.Protocol.Sealing.Examples.{plain_ccm, home}
use bthome_writable.Coordinator.{Coordinator, Keeps, init}
use bthome_writable.Coordinator.Reading.Examples.{lamp, lamp_client, lamp_calm}
use bthome_writable.Coordinator.Reading.{Attempt.connects, Client}
use bthome_writable.Coordinator.Writing.{Report.raises, Command, write_now}
use bthome_writable.Coordinator.Writing.Stages.{Proper}
use bthome_writable.Coordinator.Writing.Sealed.{IsSteady, write_now-Proper}

abbrev pub keyed : Coordinator
keyed = record (init home (some []) 40 (some lamp) false) { advertises_encrypted = some true }

nothing : Keeps (λ c. c)
nothing = record {
  same_key = λ c. refl;
  same_address = λ c. refl;
  onward = λ c. omega arith;
  quiet = λ c. ([], refl, tt);
}

one_client : {a b : Client} → connects a ≡ connects b → a ≡ b
one_client {a} {b} e = ap (λ o. elim o [ connects k ↦ k | other ↦ a ]) e

abbrev say_h : Command
say_h = record {
  number = 1;
  value = 1 ∷ 0x68 ∷ [];
  coalesce = true;
  reachable = true;
  connection = connects lamp_client;
  later = lamp_client;
  crowded = 0;
  challenge = 1 ∷ [];
  reported = raises;
  accepted = ok tt;
  now = 9;
  linking = λ c. record c { advertises_encrypted = some false };
  asking = λ c. c;
  writing = λ c. c;
}

-- An advertisement in clear arrives while the link is awaited; nothing else happens.
say_h-IsSteady : IsSteady say_h
say_h-IsSteady = record {
  linking = record {
    same_key = λ c. refl;
    same_address = λ c. refl;
    onward = λ c. omega arith;
    quiet = λ c. ([], refl, tt);
  };
  asking = nothing;
  writing = nothing;
  reading = λ client n ch linked there.
      (lamp_calm n ch (ap (λ k. k n) (one_client linked) ∙ there)).keeps;
  later = λ n ch there. (lamp_calm n ch there).keeps;
}

write_now-Proper_example :
    All
      (Proper plain_ccm keyed say_h)
      (write_now plain_ccm small_table (λ d. d.entries) say_h keyed).0.calls
unfolding init
write_now-Proper_example =
    write_now-Proper plain_ccm small_table (λ d. d.entries) keyed say_h say_h-IsSteady refl
