-- ===== src/Base/Words.antt =====
-- Unsigned 32-bit words: a value is a number below 2^32, and an operation wraps.
use jiauliyan_os.Base.{ℕ, ◌+◌, ◌-◌, ◌*◌, ◌%◌}

abbrev pub u32_mod : ℕ
u32_mod = 4294967296

abbrev pub add32 : ℕ → ℕ → ℕ
add32 a b = (a + b) % u32_mod

-- `-` on the numbers stops at 0, so the modulus is added first.
abbrev pub sub32 : ℕ → ℕ → ℕ
sub32 a b = (a + u32_mod - b) % u32_mod

abbrev pub mul32 : ℕ → ℕ → ℕ
mul32 a b = a * b % u32_mod
