-- ===== src/Prelude/Words.antt =====
-- Machine words as native numbers, and the integers that an int64_t pattern stands for.
use ferriot.Prelude.{ℕ, ◌-◌, ◌%◌, ◌/◌, ◌^◌, ◌<◌, ◌≡◌, arith, ltb, if◌then◌else◌}
use ferriot.Prelude.Int.{ℤ, pos, negsuc}

-- static_cast of an integer to a w-bit unsigned word, for w = 8, 16, 32, 64.
abbrev pub word8 : ℤ → ℕ
word8 (pos n) = n % 2 ^ 8
word8 (negsuc n) = 2 ^ 8 - 1 - n % 2 ^ 8

abbrev pub word16 : ℤ → ℕ
word16 (pos n) = n % 2 ^ 16
word16 (negsuc n) = 2 ^ 16 - 1 - n % 2 ^ 16

abbrev pub word32 : ℤ → ℕ
word32 (pos n) = n % 2 ^ 32
word32 (negsuc n) = 2 ^ 32 - 1 - n % 2 ^ 32

abbrev pub word64 : ℤ → ℕ
word64 (pos n) = n % 2 ^ 64
word64 (negsuc n) = 2 ^ 64 - 1 - n % 2 ^ 64

-- x >> k and x & 0xFF.
abbrev pub shr : ℕ → ℕ → ℕ
shr x k = x / 2 ^ k

abbrev pub low8 : ℕ → ℕ
low8 x = x % 2 ^ 8

-- The int64_t with a given bit pattern.
abbrev pub signed64 : ℕ → ℤ
signed64 w = if ltb w (2 ^ 63) then pos w else negsuc (2 ^ 64 - 1 - w)

-- The values of an int64_t.
abbrev pub IsInt64 : ℤ → Type 0
IsInt64 (pos n) = n < 2 ^ 63
IsInt64 (negsuc n) = n < 2 ^ 63

pub signed64-word64 : (v : ℤ) → IsInt64 v → signed64 (word64 v) ≡ v
signed64-word64 (pos n) h = ground arith
signed64-word64 (negsuc n) h = ground arith

pub word64-lt : (v : ℤ) → word64 v < 2 ^ 64
word64-lt (pos n) = omega arith
word64-lt (negsuc n) = omega arith
