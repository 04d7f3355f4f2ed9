-- ===== src/Libc/Number.antt =====
-- Numbers read from strings: `atoi` of src/libc/stdlib.c, `strtoul` of src/libc/etc.c and the classes
-- of src/libc/ctype.h. An int is its bit pattern, a number below 2^32.
pub mod Laws
use jiauliyan_os.Base.{
  ℕ, zero, suc, ◌+◌, ◌-◌, ◌*◌, ◌/◌, ◌%◌, Bool, true, false, ◌&&◌, ◌||◌, not, List, [], ◌∷◌, Option,
  none, some, ltb, leb, ◌==◌, if◌then◌else◌,
}
use jiauliyan_os.Base.Words.{u32_mod, add32, sub32, mul32}

abbrev pub isdigit : ℕ → Bool
isdigit c = leb b'0' c && leb c b'9'

abbrev pub isupper : ℕ → Bool
isupper c = leb b'A' c && leb c b'Z'

abbrev pub islower : ℕ → Bool
islower c = leb b'a' c && leb c b'z'

abbrev pub isalpha : ℕ → Bool
isalpha c = isupper c || islower c

-- ' ', '\f', '\n', '\r', '\t', '\v'
abbrev pub isspace : ℕ → Bool
isspace c = (c == b' ') || (c == 0x0C) || (c == 0x0A) || (c == 0x0D) || (c == 0x09) || (c == 0x0B)

-- The loop of `atoi` at the sum so far.
unfoldable pub atoi_from : List ℕ → ℕ → ℕ
atoi_from [] sum = sum
atoi_from (c ∷ s) sum =
    let rest = atoi_from s (add32 (mul32 sum 10) (c - b'0')) in if isdigit c then rest else sum

unfoldable pub atoi : List ℕ → ℕ
unfolding atoi_from
atoi s = atoi_from s 0

-- `value < 0 ? -value : value`
pub abs : ℕ → ℕ
abs value = if leb 0x80000000 value then sub32 0 value else value

-- The same number each time.
pub rand : ℕ
rand = 7

-- The value of a digit or letter; `none` ends the number.
unfoldable pub digit_value : ℕ → Option ℕ
digit_value c =
    if isdigit c
    then some (c - b'0')
    else if isalpha c
    then some (if isupper c then c - (b'A' - 10) else c - (b'a' - 10))
    else none

-- The variable `any`: 0, 1 or -1.
pub data Any : Type 0 where
  nothing digits overflow : Any

-- What the call leaves: the result, the index that `*endptr` gets, and whether errno is ERANGE.
pub record Parsed : Type 0 where
  pub acc : ℕ
  pub any : Any
  pub at : ℕ
  pub erange : Bool

abbrev pub ulong_max : ℕ
ulong_max = 4294967295

-- One digit `c` below the base, as the source tests and adds it.
unfoldable pub add_digit : ℕ → ℕ → Parsed → Parsed
add_digit base c p =
    let cutoff = ulong_max / base in
    let cutlim = ulong_max % base in
    elim p.any [
      | overflow ↦ p
      | _ ↦
          if (ltb cutoff p.acc || (p.acc == cutoff)) && ltb cutlim c
          then record p { any = overflow; acc = ulong_max; erange = true }
          else record p { any = digits; acc = add32 (mul32 p.acc base) c }
    ]

-- The loop of `strtoul`, at the rest of the string.
unfoldable pub strtoul_from : List ℕ → ℕ → Parsed → Parsed
strtoul_from [] base p = p
strtoul_from (c ∷ s) base p = elim (digit_value c) [
  | none ↦ p
  | some v ↦
      let p' = add_digit base v p in
      let rest = strtoul_from s base (record p' { at = p.at + 1 }) in if leb base v then p else rest
]

-- `while (isspace(c))`: what is left, and how many characters were skipped.
pub skip_spaces : List ℕ → ℕ → List ℕ × ℕ
skip_spaces [] i = ([], i)
skip_spaces (c ∷ s) i = let rest = skip_spaces s (i + 1) in if isspace c then rest else (c ∷ s, i)

-- The sign: whether it is '-', what is left, and the index.
pub take_sign : List ℕ × ℕ → Bool × List ℕ × ℕ
take_sign ([], i) = (false, [], i)
take_sign (c ∷ s, i) =
    if c == b'-'
    then (true, s, i + 1)
    else if c == b'+'
    then (false, s, i + 1)
    else (false, c ∷ s, i)

-- `0x` and the choice of the base.
pub take_base : List ℕ × ℕ → ℕ → List ℕ × ℕ × ℕ
take_base (c ∷ x ∷ s, i) base =
    if ((base == 0) || (base == 16)) && (c == b'0') && ((x == b'x') || (x == b'X'))
    then (s, i + 2, 16)
    else (c ∷ x ∷ s, i, if base == 0 then (if c == b'0' then 8 else 10) else base)
take_base (c ∷ [], i) base = (c ∷ [], i, if base == 0 then (if c == b'0' then 8 else 10) else base)
take_base ([], i) base = ([], i, if base == 0 then 10 else base)

pub start_at : ℕ → Parsed
start_at i = record { acc = 0; any = nothing; at = i; erange = false }

-- The end: the negation of a number that did not overflow, and no progress without digits.
finish : Bool → Parsed → ℕ × ℕ × Bool
finish neg p = elim p.any [
  | nothing ↦ (p.acc, 0, p.erange)
  | digits ↦ (if neg then sub32 0 p.acc else p.acc, p.at, p.erange)
  | overflow ↦ (p.acc, p.at, p.erange)
]

-- The result, the index for `*endptr`, and whether errno is set to ERANGE.
unfoldable pub strtoul : List ℕ → ℕ → ℕ × ℕ × Bool
unfolding skip_spaces take_sign take_base start_at finish strtoul_from add_digit digit_value
strtoul s base =
    let (neg, r, i) = take_sign (skip_spaces s 0) in
    let (r', j, b) = take_base (r, i) base in finish neg (strtoul_from r' b (start_at j))
