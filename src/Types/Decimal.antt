-- ===== src/Types/Decimal.antt =====
-- Decimal numbers as src/types.cpp uses the standard library for them: `oss << value` and
-- std::from_chars for a uint16_t.
use mathlib.Core.Logic.{◌≢◌}
use ferriot.Prelude.{
  ℕ, zero, suc, ◌+◌, ◌-◌, ◌*◌, ◌/◌, ◌%◌, ◌^◌, ◌≤◌, ◌<◌, ◌≡◌, refl, ◌∙◌, Bool, true, ◌&&◌, Option,
  none, some, [], ◌∷◌, arith, leb, ltb, if◌then◌else◌, Bytes, inl, inr, Bool-cases,
}

-- The digits of n before `out`, the last digit first, with fuel above n.
unfoldable pub digits : ℕ → ℕ → Bytes → Bytes
digits zero n out = out
digits (suc fuel) n out =
    let last = (b'0' + n % 10) ∷ out in
    let more = digits fuel (n / 10) last in if ltb n 10 then last else more

unfoldable pub decimal : ℕ → Bytes
decimal n = digits (suc n) n []

abbrev is_digit : ℕ → Bool
is_digit c = leb b'0' c && leb c b'9'

-- The number that the digits at the front spell behind `acc`, and the bytes from the first that is
-- no digit.
unfoldable pub scan : ℕ → Bytes → ℕ × Bytes
scan acc [] = (acc, [])
scan acc (c ∷ cs) =
    let more = scan (acc * 10 + (c - b'0')) cs in if is_digit c then more else (acc, c ∷ cs)

in_range : ℕ × Bytes → Option (ℕ × Bytes)
in_range (n, rest) = if ltb n (2 ^ 16) then some (n, rest) else none

-- `none` is an errc: no digit, or a number that a uint16_t does not hold. The bytes are from `ptr`.
unfoldable pub from_chars : Bytes → Option (ℕ × Bytes)
unfolding scan in_range
from_chars [] = none
from_chars (c ∷ cs) = if is_digit c then in_range (scan 0 (c ∷ cs)) else none

pub scan-digits : (fuel n : ℕ) (out : Bytes) → n < fuel → scan 0 (digits fuel n out) ≡ scan n out
unfolding scan digits
scan-digits zero n out h = absurd (omega arith)
scan-digits (suc fuel) n out h = elim (Bool-cases (ltb n 10)) [
  | inl small ↦ rw small (one_digit (ground arith))
  | inr large ↦
      rw large (scan-digits fuel (n / 10) ((b'0' + n % 10) ∷ out) (ground arith) ∙ last_digit)
]
  where
    one_digit : n < 10 → scan 0 ((b'0' + n % 10) ∷ out) ≡ scan n out
    one_digit small = ground arith

    last_digit : scan (n / 10) ((b'0' + n % 10) ∷ out) ≡ scan n out
    last_digit = ground arith

-- Digits only.
abbrev pub AllDigits : Bytes → Type 0
AllDigits [] = Unit
AllDigits (c ∷ cs) = (b'0' ≤ c) × (c ≤ b'9') × AllDigits cs

pub digits-AllDigits : (fuel n : ℕ) (out : Bytes) → AllDigits out → AllDigits (digits fuel n out)
unfolding digits
digits-AllDigits zero n out h = h
digits-AllDigits (suc fuel) n out h = elim (Bool-cases (ltb n 10)) [
  | inl small ↦ rw small (omega arith, omega arith, h)
  | inr large ↦
      rw large
        (digits-AllDigits fuel (n / 10) ((b'0' + n % 10) ∷ out) (omega arith, omega arith, h))
]

pub digits-cons :
    (fuel n : ℕ) (out : Bytes) → n < fuel → (c : ℕ) × (cs : Bytes) × (digits fuel n out ≡ c ∷ cs)
unfolding digits
digits-cons zero n out h = absurd (omega arith)
digits-cons (suc fuel) n out h = elim (Bool-cases (ltb n 10)) [
  | inl small ↦ (b'0' + n % 10, out, rw small)
  | inr large ↦ rw large (digits-cons fuel (n / 10) ((b'0' + n % 10) ∷ out) (ground arith))
]

from_chars-scan :
    (xs : Bytes) (n : ℕ)
    → n < 2 ^ 16
    → xs ≢ []
    → AllDigits xs
    → scan 0 xs ≡ (n, [])
    → from_chars xs ≡ some (n, [])
unfolding from_chars
from_chars-scan [] n h ne ds e = absurd (ne refl)
from_chars-scan (c ∷ cs) n h ne ds e =
    let digit : is_digit c ≡ true = digit_test c ds.0 ds.1 in
    rw (digit, rw digit at e) (ground arith)
  where
    digit_test : (c : ℕ) → b'0' ≤ c → c ≤ b'9' → is_digit c ≡ true
    digit_test c lo hi = ground arith

pub decimal-ne-nil : (n : ℕ) → decimal n ≢ []
unfolding decimal
decimal-ne-nil n h = let (c, cs, e) = digits-cons (suc n) n [] (omega arith) in cc (e, h)

pub decimal-AllDigits : (n : ℕ) → AllDigits (decimal n)
unfolding decimal
decimal-AllDigits n = digits-AllDigits (suc n) n [] tt

-- A printed uint16_t reads back, to the end of its text.
pub from_chars-decimal : (n : ℕ) → n < 2 ^ 16 → from_chars (decimal n) ≡ some (n, [])
from_chars-decimal n h =
    from_chars-scan (decimal n) n h (decimal-ne-nil n) (decimal-AllDigits n)
      (unfold decimal in scan-digits (suc n) n [] (omega arith) ∙ unfold scan in refl)

-- A number that is read is a uint16_t.
pub from_chars-lt :
    (xs : Bytes) {n : ℕ} {rest : Bytes} → from_chars xs ≡ some (n, rest) → n < 2 ^ 16
unfolding from_chars
from_chars-lt [] h = cc
from_chars-lt (c ∷ cs) h = ground arith
