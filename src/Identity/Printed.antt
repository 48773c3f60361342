-- ===== src/Identity/Printed.antt =====
-- Numbers and codes as an identity prints them, and as a migration reads them back.
use bthome_writable.Common.{
  ℕ, zero, suc, ◌+◌, ◌-◌, ◌*◌, ◌/◌, ◌%◌, ◌<◌, ◌≡◌, refl, ap, ◌∙◌, inl, inr, true, false, some, [],
  ◌∷◌, ◌++◌, ltb, ◌==◌, ok, All, Bool-cases, if_cases, ltb→lt, ltb_false→le, arith,
}
use native.Mathlib.Nat.{div-lt_self, mod-lt}
use bthome_writable.Protocol.Text.{Text, hex_digit}
use bthome_writable.Identity.{
  lower_digit, digits_before, decimal, padded, hex_02, after_prefix, split, is_digit, all_digits,
  is_number, number_after, hex_after, parse_hex,
}

-- The digits of a number, read back before a text.
number_after-digits :
    (fuel n : ℕ) (text : Text)
    → n < fuel
    → number_after 0 (digits_before 10 fuel n text) ≡ number_after n text
unfolding digits_before number_after
number_after-digits zero n text h = absurd (omega arith)
number_after-digits (suc fuel) n text h = elim (Bool-cases (ltb n 10)) [
  | inl one ↦
      let same : 10 * 0 + (b'0' + n - b'0') ≡ n = omega arith in
      rw (one, digits_before) (ap (λ k. number_after k text) same)
  | inr more ↦
      let big = ltb_false→le n 10 more in
      let small : ltb (n % 10) 10 ≡ true = ground arith in
      let same : 10 * (n / 10) + (b'0' + n % 10 - b'0') ≡ n = omega arith in
      rw (more, digits_before)
        (number_after-digits fuel (n / 10) (lower_digit (n % 10) ∷ text) (omega arith)
          ∙ rw small (ap (λ k. number_after k text) same))
]

hex_digit-lower_digit : (d : ℕ) → d < 16 → hex_digit (lower_digit d) ≡ some d
unfolding hex_digit
hex_digit-lower_digit d h = ground arith

hex_after-digits :
    (fuel n : ℕ) (text : Text)
    → n < fuel
    → hex_after 0 (digits_before 16 fuel n text) ≡ hex_after n text
unfolding digits_before hex_after
hex_after-digits zero n text h = absurd (omega arith)
hex_after-digits (suc fuel) n text h = elim (Bool-cases (ltb n 16)) [
  | inl one ↦
      let read = hex_digit-lower_digit n (ltb→lt n 16 one) in
      let same : 16 * 0 + n ≡ n = omega arith in
      rw (one, digits_before, read) (ap (λ k. hex_after k text) same)
  | inr more ↦
      let big = ltb_false→le n 16 more in
      let read = hex_digit-lower_digit (n % 16) (omega arith) in
      let same : 16 * (n / 16) + n % 16 ≡ n = omega arith in
      rw (more, digits_before)
        (hex_after-digits fuel (n / 16) (lower_digit (n % 16) ∷ text) (omega arith)
          ∙ rw (read, same) refl)
]

-- What holds of every digit holds of a number's digits.
digits_before-All :
    (P : ℕ → Type 0) (base fuel n : ℕ) (text : Text)
    → 1 < base
    → ((d : ℕ) → d < base → P (lower_digit d))
    → n < fuel
    → All P text
    → All P (digits_before base fuel n text)
unfolding digits_before
digits_before-All P base zero n text b each h a = absurd (omega arith)
digits_before-All P base (suc fuel) n text b each h a =
    if_cases (All P) (ltb n base) _ _ (λ one. (each n (ltb→lt n base one), a))
      (λ more.
        let positive : 0 < n = omega (arith, ltb_false→le n base more) in
        let less : n / base < n = div-lt_self positive b in
        digits_before-All P base fuel (n / base) _ b each (omega arith)
          (each (n % base) (mod-lt n (omega arith)), a))

-- A text without a dash is one part.
abbrev pub IsPart : Text → Type 0
IsPart = All (λ c. (c == b'-') ≡ false)

pub split-part : (part : Text) → IsPart part → split part ≡ part ∷ []
unfolding split
split-part [] h = refl
split-part (c ∷ part) h = rw (h.0, split-part part h.1) refl

pub split-parts :
    (part text : Text) → IsPart part → split (part ++ (b'-' ∷ text)) ≡ part ∷ split text
unfolding split
split-parts [] text h = refl
split-parts (c ∷ part) text h = rw (h.0, split-parts part text h.1) refl

pub after_prefix-append : (prefix text : Text) → after_prefix prefix (prefix ++ text) ≡ some text
unfolding after_prefix
after_prefix-append [] text = refl
after_prefix-append (p ∷ prefix) text =
    let same : (p == p) ≡ true = ground arith in rw (same, after_prefix-append prefix text) refl

digit_part : (d : ℕ) → d < 16 → (lower_digit d == b'-') ≡ false
digit_part d h = ground arith

pub decimal-IsPart : (n : ℕ) → IsPart (decimal n)
unfolding decimal
decimal-IsPart n =
    digits_before-All (λ c. (c == b'-') ≡ false) 10 (n + 1) n [] (omega arith)
      (λ d h. digit_part d (omega arith)) (omega arith) tt

padded-IsPart : (text : Text) → IsPart text → IsPart (padded text)
padded-IsPart [] h = (refl, (refl, tt))
padded-IsPart (d ∷ []) h = (refl, (h.0, tt))
padded-IsPart (d ∷ e ∷ text) h = h

pub hex_02-IsPart : (n : ℕ) → IsPart (hex_02 n)
unfolding hex_02
hex_02-IsPart n = padded-IsPart _ (
    digits_before-All (λ c. (c == b'-') ≡ false) 16 (n + 1) n [] (omega arith) digit_part
      (omega arith) tt)

all_digits-All : (text : Text) → All (λ c. is_digit c ≡ true) text → all_digits text ≡ true
unfolding all_digits
all_digits-All [] h = refl
all_digits-All (c ∷ text) h = rw (h.0, all_digits-All text h.1) refl

digit_lem : (d : ℕ) → d < 10 → is_digit (lower_digit d) ≡ true
digit_lem d h = ground arith

is_number-digits :
    (fuel n : ℕ) (text : Text)
    → n < fuel
    → All (λ c. is_digit c ≡ true) text
    → is_number (digits_before 10 fuel n text) ≡ true
unfolding digits_before is_number
is_number-digits zero n text h a = absurd (omega arith)
is_number-digits (suc fuel) n text h a =
    if_cases (λ t. is_number t ≡ true) (ltb n 10) _ _
      (λ one. rw (digit_lem n (ltb→lt n 10 one), all_digits-All text a) refl)
      (λ more.
        let big = ltb_false→le n 10 more in
        is_number-digits fuel (n / 10) _ (omega arith) (digit_lem (n % 10) (omega arith), a))

-- The numbers that a number and a code print as are read back.
pub decimal-read : (n : ℕ) → (is_number (decimal n) ≡ true) × (number_after 0 (decimal n) ≡ n)
unfolding decimal number_after
decimal-read n =
    (is_number-digits (n + 1) n [] (omega arith) tt, number_after-digits (n + 1) n [] (omega arith))

hex_after-padded : (text : Text) → parse_hex (padded text) ≡ hex_after 0 text
unfolding hex_after hex_digit
hex_after-padded [] = refl
hex_after-padded (d ∷ []) = refl
hex_after-padded (d ∷ e ∷ text) = refl

pub hex_02-read : (n : ℕ) → parse_hex (hex_02 n) ≡ ok n
unfolding hex_02 hex_after
hex_02-read n = hex_after-padded _ ∙ hex_after-digits (n + 1) n [] (omega arith)
