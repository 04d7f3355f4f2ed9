-- ===== src/Kernel/Format.antt =====
-- The printing of numbers of src/kernel/stream.c. A value, a divisor and an index are 32-bit words, and
-- those that the code declares as `int` are read as signed ones.
pub mod Digits
pub mod Laws
pub mod RoundTrip
pub mod Text
mod Tests
use jiauliyan_os.Base.{
  ℕ, zero, suc, ◌+◌, ◌-◌, ◌*◌, ◌/◌, ◌%◌, bit_and, Bool, true, false, not, List, [], ◌∷◌, Option,
  none, some, ◌>>=◌, ltb, leb, ◌==◌, if◌then◌else◌, get_elem?, map,
}
use jiauliyan_os.Base.Words.{add32, sub32, mul32}
use jiauliyan_os.Kernel.Stream.{StreamOps, stream_putchar, stream_putstring}

-- The flags.
abbrev pub flag_sign : ℕ
flag_sign = 0x01

abbrev pub flag_left : ℕ
flag_left = 0x02

abbrev pub flag_alt : ℕ
flag_alt = 0x04

abbrev pub flag_zero : ℕ
flag_zero = 0x08

abbrev pub flag_upper : ℕ
flag_upper = 0x10

abbrev pub flag_octal : ℕ
flag_octal = 0x20

abbrev pub flag_hex : ℕ
flag_hex = 0x40

abbrev pub has_flag : ℕ → ℕ → Bool
has_flag flags f = not (bit_and flags f == 0)

-- "0123456789abcdef" and "0123456789ABCDEF".
abbrev pub digits_lower : List ℕ
digits_lower = 48 ∷ 49 ∷ 50 ∷ 51 ∷ 52 ∷ 53 ∷ 54 ∷ 55 ∷ 56 ∷ 57 ∷ 97 ∷ 98 ∷ 99 ∷ 100 ∷ 101 ∷ 102 ∷ []

abbrev pub digits_upper : List ℕ
digits_upper = 48 ∷ 49 ∷ 50 ∷ 51 ∷ 52 ∷ 53 ∷ 54 ∷ 55 ∷ 56 ∷ 57 ∷ 65 ∷ 66 ∷ 67 ∷ 68 ∷ 69 ∷ 70 ∷ []

unfoldable pub digits_of : ℕ → List ℕ
digits_of flags = if has_flag flags flag_upper then digits_upper else digits_lower

unfoldable pub base_of : ℕ → ℕ
base_of flags = if has_flag flags flag_octal then 8 else if has_flag flags flag_hex then 16 else 10

abbrev pub is_negative : ℕ → Bool
is_negative a = leb 0x80000000 a

-- `a > b` on ints.
abbrev pub int_above : ℕ → ℕ → Bool
int_above a b = ltb (add32 b 0x80000000) (add32 a 0x80000000)

-- `a / b` on ints, with a positive `b`.
abbrev pub int_div : ℕ → ℕ → ℕ
int_div a b = if is_negative a then sub32 0 (sub32 0 a / b) else a / b

-- The characters in front of the digits, by the flags.
unfoldable pub prefix_of : ℕ → List ℕ
prefix_of flags =
    let x = if has_flag flags flag_upper then 48 ∷ 88 ∷ [] else 48 ∷ 120 ∷ [] in
    let hex = if has_flag flags flag_hex then x else [] in
    let alt = if has_flag flags flag_octal then 48 ∷ hex else hex in
    let all = if has_flag flags flag_alt then alt else [] in
    if has_flag flags flag_sign then 43 ∷ all else all

-- The largest power of the base that is not above the value, and its exponent: the loop's `n` rounds
-- that are left, from the exponent `i` and the power `divisor` on.
pub grow : (n base value i divisor : ℕ) → ℕ × ℕ
grow zero base value i divisor = (i, divisor)
grow (suc n) base value i divisor =
    let rest = grow n base value (suc i) (mul32 divisor base) in
    if int_above (mul32 divisor base) value then (i, divisor) else rest

-- `digits[(int) q % base]`: the remainder of a negative number is negative or 0. `none`: the index is
-- outside of the string.
pub digit_char : List ℕ → ℕ → ℕ → Option ℕ
digit_char digits q base =
    if is_negative q
    then (if sub32 0 q % base == 0 then get_elem? digits 0 else none)
    else get_elem? digits (q % base)

-- The loop that prints `n` digits. `none`: a division by 0, or no digit.
pub put_digits : {S : Type 0} → StreamOps S → List ℕ → (base value n divisor : ℕ) → S → Option S
put_digits ops digits base value zero divisor s = some s
put_digits ops digits base value (suc n) divisor s = if divisor == 0 then none else (do
  c ← digit_char digits (value / divisor) base
  put_digits ops digits base value n (int_div divisor base) (stream_putchar ops c s).1)

-- The prefixes and the digits of a number that is not 0, from the power that `grow` finds.
pub put_number : {S : Type 0} → StreamOps S → (base value flags : ℕ) → ℕ × ℕ → S → Option (ℕ × S)
put_number ops base value flags (i, divisor) s =
    let (len, s') = stream_putstring ops (prefix_of flags) s in
    do s'' ← put_digits ops (digits_of flags) base value (suc i) divisor s'; some (len + suc i, s'')

pub stream_putuint : {S : Type 0} → StreamOps S → ℕ → ℕ → S → Option (ℕ × S)
stream_putuint ops value flags s =
    let top = grow 16 (base_of flags) value 0 1 in
    if value == 0
    then some (stream_putchar ops 48 s)
    else put_number ops (base_of flags) value flags top s

pub stream_putint : {S : Type 0} → StreamOps S → ℕ → ℕ → S → Option (ℕ × S)
stream_putint ops value flags s =
    if is_negative value
    then (do
      (len, s') ← stream_putuint ops (sub32 0 value) flags (stream_putchar ops 45 s).1
      some (suc len, s'))
    else stream_putuint ops value flags s
