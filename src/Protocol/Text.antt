-- ===== src/Protocol/Text.antt =====
-- Addresses as text, and the hexadecimal that protocol.py turns them into: `mac_bytes`, Python's
-- `bytes.fromhex` and the format `02X`. A text is the list of its code points.
pub mod Hex
pub mod Examples
use bthome_writable.Common.{
  ℕ, suc, ◌+◌, ◌-◌, ◌*◌, ◌/◌, ◌%◌, Bool, true, false, ◌&&◌, ◌||◌, Option, none, some, List, [], ◌∷◌,
  ◌++◌, if◌then◌else◌, ltb, leb, ◌==◌, Result, ok, err, value_error, or_raise, ◌>>=◌,
}
use bthome_writable.Protocol.Walk.{Bytes}

abbrev pub Text : Type 0
Text = List ℕ

-- `text.replace(c, "")` for one character.
unfoldable pub remove : ℕ → Text → Text
remove c [] = []
remove c (x ∷ text) = let rest = remove c text in if x == c then rest else x ∷ rest

unfoldable pub hex_digit : ℕ → Option ℕ
hex_digit c =
    if leb b'0' c && leb c b'9'
    then some (c - b'0')
    else if leb b'a' c && leb c b'f'
    then some (c - b'a' + 10)
    else if leb b'A' c && leb c b'F'
    then some (c - b'A' + 10)
    else none

-- The whitespace that `bytes.fromhex` skips between bytes.
unfoldable pub is_space : ℕ → Bool
is_space c = c == b' ' || (leb 9 c && leb c 13)

unfoldable pub from_hex : Text → Result Bytes
from_hex [] = ok []
from_hex (c ∷ []) = if is_space c then ok [] else err value_error
from_hex (c ∷ d ∷ text) = elim (is_space c) [
  | true ↦ from_hex (d ∷ text)
  | false ↦ do
    high ← or_raise (hex_digit c) value_error
    low ← or_raise (hex_digit d) value_error
    rest ← from_hex text
    ok ((16 * high + low) ∷ rest)
]

unfoldable pub mac_bytes : Text → Result Bytes
mac_bytes address = from_hex (remove b'-' (remove b':' address))

pub upper_digit : ℕ → ℕ
upper_digit n = if ltb n 10 then b'0' + n else b'A' + (n - 10)

-- `f"{byte:02X}"`
pub format_byte : ℕ → Text
unfolding upper_digit
format_byte b = upper_digit (b / 16) ∷ upper_digit (b % 16) ∷ []

-- `":".join(...)` over bytes in that format.
pub join_bytes : Bytes → Text
unfolding format_byte
join_bytes [] = []
join_bytes (b ∷ []) = format_byte b
join_bytes (b ∷ c ∷ bytes) = format_byte b ++ (b':' ∷ join_bytes (c ∷ bytes))
