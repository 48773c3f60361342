-- ===== src/Protocol/Text/Examples.antt =====
-- An address, written and read.
use bthome_writable.Common.{◌≡◌, [], ◌∷◌, ok, arith}
use bthome_writable.Protocol.Text.{mac_bytes, join_bytes}
use bthome_writable.Protocol.Text.Hex.{mac_bytes-join_bytes}

mac_bytes-join_bytes_example : mac_bytes (join_bytes (0x0A ∷ 0xFF ∷ [])) ≡ ok (0x0A ∷ 0xFF ∷ [])
mac_bytes-join_bytes_example =
    mac_bytes-join_bytes (0x0A ∷ 0xFF ∷ []) (omega arith, (omega arith, tt))
