-- ===== src/Protocol/Text/Hex.antt =====
-- Bytes printed in the address format of protocol.py and read back by `mac_bytes`.
use bthome_writable.Common.{ℕ, ◌/◌, ◌%◌, ◌<◌, ◌≡◌, refl, false, some, [], ◌∷◌, ◌==◌, ok, All, arith}
use bthome_writable.Protocol.Walk.{Bytes, IsByte}
use bthome_writable.Protocol.Text.{
  Text, remove, hex_digit, is_space, from_hex, mac_bytes, upper_digit, join_bytes,
}

-- Every digit below 16 is printed as a digit that reads back as itself, and is no separator.
digit_lem :
    (n : ℕ)
    → n < 16
    → (hex_digit (upper_digit n) ≡ some n)
      × (is_space (upper_digit n) ≡ false)
      × ((upper_digit n == b':') ≡ false)
      × ((upper_digit n == b'-') ≡ false)
unfolding hex_digit upper_digit is_space
digit_lem n h = ground arith

from_hex-pair :
    (b : ℕ) (text : Text) (bytes : Bytes)
    → IsByte b
    → from_hex text ≡ ok bytes
    → from_hex (upper_digit (b / 16) ∷ upper_digit (b % 16) ∷ text) ≡ ok (b ∷ bytes)
unfolding from_hex
from_hex-pair b text bytes h e =
    let (high, solid, _, _) = digit_lem (b / 16) (omega arith) in
    let (low, _, _, _) = digit_lem (b % 16) (omega arith) in ground (arith, high, solid, low)

strip : Text → Text
strip text = remove b'-' (remove b':' text)

strip-digits :
    (b : ℕ) (text : Text)
    → IsByte b
    → strip (upper_digit (b / 16) ∷ upper_digit (b % 16) ∷ text)
      ≡ upper_digit (b / 16) ∷ upper_digit (b % 16) ∷ strip text
unfolding strip remove
strip-digits b text h = ground (arith, digit_lem (b / 16), digit_lem (b % 16))

strip-colon : (text : Text) → strip (b':' ∷ text) ≡ strip text
unfolding strip remove
strip-colon text = refl

from_hex-join_bytes :
    (bytes : Bytes) → All IsByte bytes → from_hex (strip (join_bytes bytes)) ≡ ok bytes
unfolding join_bytes
from_hex-join_bytes [] h = unfold strip remove from_hex in refl
from_hex-join_bytes (b ∷ []) h =
    rw (strip-digits b [] h.0) (from_hex-pair b _ [] h.0 (unfold strip remove from_hex in refl))
from_hex-join_bytes (b ∷ c ∷ bytes) h =
    rw (strip-digits b (b':' ∷ join_bytes (c ∷ bytes)) h.0, strip-colon (join_bytes (c ∷ bytes)))
      (from_hex-pair b _ (c ∷ bytes) h.0 (from_hex-join_bytes (c ∷ bytes) h.1))

-- An address printed from bytes reads back as those bytes.
pub mac_bytes-join_bytes :
    (bytes : Bytes) → All IsByte bytes → mac_bytes (join_bytes bytes) ≡ ok bytes
unfolding mac_bytes strip
mac_bytes-join_bytes bytes h = from_hex-join_bytes bytes h
