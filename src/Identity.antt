-- ===== src/Identity.antt =====
-- The identities of a device's entities: `entity_unique_id` and `event_unique_id` of
-- custom_components/bthome_writable/protocol.py, `instance_label` of switch.py, and the migration of old identities in `_migrate_unique_ids` of __init__.py. A text is
-- the list of its code points; the digits of an identity are those of ASCII.
pub mod Printed
pub mod Settled
pub mod Examples
use bthome_writable.Common.{
  ℕ, zero, suc, ◌+◌, ◌-◌, ◌*◌, ◌/◌, ◌%◌, Bool, true, false, not, ◌&&◌, Option, none, some, List, [],
  ◌∷◌, ◌++◌, if◌then◌else◌, ltb, leb, ◌==◌, length, Result, ok, err, value_error, or_raise, ◌>>=◌,
}
use bthome_writable.Protocol.Text.{Text, hex_digit}
use bthome_writable.Protocol.Declaration.{WritableEntry}

abbrev pub lower_digit : ℕ → ℕ
lower_digit n = if ltb n 10 then b'0' + n else b'a' + (n - 10)

-- The digits of a number in front of a text. No number has more digits than its successor counts.
unfoldable pub digits_before : ℕ → ℕ → ℕ → Text → Text
digits_before base zero n text = text
digits_before base (suc fuel) n text =
    let longer = digits_before base fuel (n / base) (lower_digit (n % base) ∷ text) in
    if ltb n base then lower_digit n ∷ text else longer

-- `f"{n}"`
unfoldable pub decimal : ℕ → Text
decimal n = digits_before 10 (n + 1) n []

abbrev pub padded : Text → Text
padded [] = b'0' ∷ b'0' ∷ []
padded (d ∷ []) = b'0' ∷ d ∷ []
padded (d ∷ e ∷ text) = d ∷ e ∷ text

-- `f"{n:02x}"`
unfoldable pub hex_02 : ℕ → Text
hex_02 n = padded (digits_before 16 (n + 1) n [])

unfoldable pub entity_unique_id : Text → ℕ → ℕ → Text
entity_unique_id address entry object_id =
    address ++ (b'-' ∷ b'e' ∷ decimal entry ++ (b'-' ∷ hex_02 object_id))

unfoldable pub event_unique_id : Text → ℕ → ℕ → ℕ → Text
event_unique_id address entry object_id code =
    entity_unique_id address entry object_id ++ (b'-' ∷ b'v' ∷ hex_02 code)

-- The first of the entries that equals this one, counted from 0: `same.index(entry)`.
unfoldable pub position : WritableEntry → List WritableEntry → Result ℕ
position e [] = err value_error
position e (f ∷ same) =
    let rest = (do k ← position e same; ok (k + 1)) in
    if f.entry == e.entry && f.object_id == e.object_id then ok 0 else rest

unfoldable pub of_type : ℕ → List WritableEntry → List WritableEntry
of_type object_id [] = []
of_type object_id (e ∷ entries) =
    let rest = of_type object_id entries in if e.object_id == object_id then e ∷ rest else rest

-- `entries`: those of the coordinator's declaration, which there is.
unfoldable pub instance_label : List WritableEntry → WritableEntry → Text → Result Text
instance_label entries e name =
    let same = of_type e.object_id entries in
    if ltb (length same) 2
    then ok name
    else (position e same >>= (λ k. ok (name ++ (b' ' ∷ decimal (k + 1)))))

-- `unique_id.startswith(prefix)`, and what follows it.
unfoldable pub after_prefix : Text → Text → Option Text
after_prefix [] text = some text
after_prefix (p ∷ prefix) [] = none
after_prefix (p ∷ prefix) (c ∷ text) =
    let rest = after_prefix prefix text in if p == c then rest else none

abbrev pub attach : ℕ → List Text → List Text
attach c [] = (c ∷ []) ∷ []
attach c (part ∷ parts) = (c ∷ part) ∷ parts

-- `text.split("-")`
unfoldable pub split : Text → List Text
split [] = [] ∷ []
split (c ∷ text) = let rest = split text in if c == b'-' then [] ∷ rest else attach c rest

abbrev pub is_digit : ℕ → Bool
is_digit c = leb b'0' c && leb c b'9'

unfoldable pub all_digits : Text → Bool
all_digits [] = true
all_digits (c ∷ text) = is_digit c && all_digits text

-- `part.isdigit()`
unfoldable pub is_number : Text → Bool
is_number [] = false
is_number (c ∷ text) = is_digit c && all_digits text

-- `int(part)`, of a part that is a number, after what stands before it.
unfoldable pub number_after : ℕ → Text → ℕ
number_after n [] = n
number_after n (c ∷ text) = number_after (10 * n + (c - b'0')) text

unfoldable pub hex_after : ℕ → Text → Result ℕ
hex_after n [] = ok n
hex_after n (c ∷ text) = do
  digit ← or_raise (hex_digit c) value_error
  hex_after (16 * n + digit) text

-- `int(part, 16)`
abbrev pub parse_hex : Text → Result ℕ
parse_hex [] = err value_error
parse_hex (c ∷ text) = hex_after 0 (c ∷ text)

-- `by_entry.get(number)`
unfoldable pub object_of : ℕ → List WritableEntry → Option ℕ
object_of number [] = none
object_of number (e ∷ entries) =
    let later = object_of number entries in
    let own = if e.entry == number then some e.object_id else none in
    elim later [ none ↦ own | some object_id ↦ some object_id ]

-- The domain of a registry row.
pub data Domain : Type 0 where
  button other_domain : Domain

module _ (address : Text) (entries : List WritableEntry) where
  -- The identity that takes the place of an old one, by the parts that follow its number.
  unfoldable pub new_id : Domain → ℕ → ℕ → List Text → Result (Option Text)
  new_id button number object_id (code ∷ []) = do
    value ← parse_hex code
    ok (some (event_unique_id address number object_id value))
  new_id other_domain number object_id [] = ok (some (entity_unique_id address number object_id))
  new_id domain number object_id parts = ok none

  -- `taken`: whether a row of the same domain and platform has that identity.
  unfoldable pub free : (Text → Bool) → Option Text → Option Text
  free taken none = none
  free taken (some new) = if taken new then none else some new

  unfoldable pub move_to : (Text → Bool) → Domain → ℕ → Option ℕ → List Text → Result (Option Text)
  move_to taken domain number none parts = ok none
  move_to taken domain number (some object_id) parts = do
    new ← new_id domain number object_id parts
    ok (free taken new)

  unfoldable pub migrate_parts : (Text → Bool) → Domain → List Text → Result (Option Text)
  migrate_parts taken domain [] = ok none
  migrate_parts taken domain (part ∷ parts) =
      if not (is_number part)
      then ok none
      else let number = number_after 0 part in
        move_to taken domain number (object_of number entries) parts

  abbrev pub migrate_rest : (Text → Bool) → Domain → Option Text → Result (Option Text)
  migrate_rest taken domain none = ok none
  migrate_rest taken domain (some rest) = migrate_parts taken domain (split rest)

  -- `_migrate`, of one row.
  unfoldable pub migrate : (Text → Bool) → Domain → Text → Result (Option Text)
  migrate taken domain unique_id =
      migrate_rest taken domain (after_prefix (address ++ (b'-' ∷ [])) unique_id)
