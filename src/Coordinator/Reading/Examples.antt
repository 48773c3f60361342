-- ===== src/Coordinator/Reading/Examples.antt =====
-- Reading a device of two entries: a text that is served, and a write-only one.
use bthome_writable.Common.{
  ℕ, ◌≡◌, subst, ap, Bool, Option, refl, true, false, none, some, [], ◌∷◌, All, if◌then◌else◌, ◌==◌,
  arith,
}
use bthome_writable.Common.Int.{pos}
use bthome_writable.Protocol.Walk.{Bytes, value_length, length_prefixed, command_format}
use bthome_writable.Protocol.Walk.Examples.{small_table}
use bthome_writable.Protocol.Declaration.{Declaration, decode_object}
use bthome_writable.Protocol.Sealing.Examples.{plain_ccm, home}
use bthome_writable.Coordinator.{Coordinator, KeepsValues, init}
use bthome_writable.Coordinator.Reading.{
  Client, Characteristic, elapse, skips, decode_read, open_value, read_entry, read_each,
  read_entries, read_due_here,
}
use bthome_writable.Coordinator.Reading.Complete.{IsRead, read_entries-IsRead}
use bthome_writable.Coordinator.Reading.Due.{Sound, read_due_here-Sound}

abbrev pub lamp : Declaration
lamp = record {
  entries = record { entry = 1; object_id = 0x53 } ∷ record { entry = 2; object_id = 0x65 } ∷ [];
  settings_revision = some (pos 7);
}

-- A characteristic whose read nothing else happens beside.
abbrev read_as : ℕ → Bool → Option Bytes → Characteristic
read_as number readable content = record {
  number = number;
  meanwhile = λ c. c;
  readable = readable;
  content = content;
}

one : {a b : Characteristic} → some a ≡ some b → a ≡ b
one {a} {b} e = ap (λ o. elim o [ none ↦ a | some x ↦ x ]) e

abbrev pub lamp_client : Client
lamp_client number =
    if number == 1
    then some (read_as 1 true (some (0x53 ∷ 1 ∷ 0x68 ∷ [])))
    else some (read_as 2 false none)

-- Nothing else happens while the lamp is read.
pub lamp_calm : (n : ℕ) (ch : Characteristic) → lamp_client n ≡ some ch → KeepsValues ch.meanwhile
lamp_calm n ch there = idle_calm n (n == 1) ch there
  where
    still : KeepsValues (λ c. c)
    still = record {
      keeps = record {
        same_key = λ c. refl;
        same_address = λ c. refl;
        onward = λ c. omega arith;
        quiet = λ c. ([], refl, tt);
      };
      same_values = λ c. refl;
      same_read = λ c. refl;
    }

    idle_calm :
        (n : ℕ) (b : Bool) (ch : Characteristic)
        → (if b
            then some (read_as 1 true (some (0x53 ∷ 1 ∷ 0x68 ∷ [])))
            else some (read_as 2 false none))
          ≡ some ch
        → KeepsValues ch.meanwhile
    idle_calm n true ch there = subst (λ x. KeepsValues x.meanwhile) (one there) still
    idle_calm n false ch there = subst (λ x. KeepsValues x.meanwhile) (one there) still

abbrev pub watching : Coordinator
watching = record (init home none 0 (some lamp) false) { revision_advertised = some (pos 7) }

read_entries-IsRead_example :
    All
      (IsRead plain_ccm small_table lamp_client none lamp_calm watching
        (read_entries plain_ccm small_table lamp_client none lamp.entries watching).0)
      lamp.entries
unfolding init skips decode_read open_value read_entry elapse read_each read_entries decode_object
    value_length length_prefixed command_format
read_entries-IsRead_example =
    read_entries-IsRead plain_ccm small_table lamp_client none lamp_calm lamp.entries watching
      ((omega arith, tt), (tt, tt)) refl

read_due_here-Sound_example :
    Sound plain_ccm small_table lamp_client
      (some 1)
      lamp_calm
      3
      lamp.entries
      watching
      (read_due_here plain_ccm small_table (λ d. d.entries) 3 lamp_client (some 1) watching)
unfolding init
read_due_here-Sound_example =
    read_due_here-Sound plain_ccm small_table lamp_client (some 1) lamp_calm (λ d. d.entries) 3
      watching lamp refl ((omega arith, tt), (tt, tt))
