-- ===== src/Protocol/Kinds/Examples.antt =====
-- Scaling by one, over the integers in place of the floats.
use bthome_writable.Common.{◌≡◌, refl, true, false, none, [], ◌∷◌, ok, arith}
use bthome_writable.Common.Int.{ℤ, pos}
use bthome_writable.Protocol.Kinds.{Floats, Kind.numeric, ObjectKind, encode_scaled, decode_scaled}
use bthome_writable.Protocol.Kinds.Scaled.{
  Scales, decode_scaled-encode_scaled, encode_scaled-decode_scaled,
}

abbrev whole : Floats
whole = record {
  Float = ℤ;
  of_int = λ z. z;
  div = λ a b. a;
  mul = λ a b. a;
  round = λ a. ok a;
  truthy = λ a. true;
}

abbrev percent : ObjectKind whole
percent = record {
  kind = numeric;
  length = 1;
  signed = false;
  factor = pos 1;
  unit = none;
  device_class = none;
  data_format = "unsigned_integer";
}

decode_scaled-encode_scaled_example :
    Scales whole percent (ok (pos 80)) (encode_scaled whole (pos 80) percent)
decode_scaled-encode_scaled_example = decode_scaled-encode_scaled whole percent (pos 80)

encode_scaled-decode_scaled_example :
    encode_scaled whole (decode_scaled whole (80 ∷ []) percent) percent ≡ ok (80 ∷ [])
encode_scaled-decode_scaled_example =
    encode_scaled-decode_scaled whole percent (80 ∷ []) (λ z fits. refl) refl (omega arith, tt)
