-- ===== src/Kernel/Directive/Read.antt =====
-- The reading of a directive by `stream_format_arg` (src/kernel/stream.c): flags, width, precision, length
-- and type, each from the rest of the format. A format is the list of its bytes up to the NUL.
use jiauliyan_os.Base.{ℕ, bit_or, ◌||◌, List, [], ◌∷◌, Option, none, some, ◌==◌, if◌then◌else◌}
use jiauliyan_os.Libc.Number.{isdigit, atoi}
use jiauliyan_os.Kernel.Format.{
  flag_sign, flag_left, flag_alt, flag_zero, flag_upper, flag_octal, flag_hex,
}

abbrev pub flag_exp : ℕ
flag_exp = 0x80

abbrev pub flag_mexp : ℕ
flag_mexp = 0x100

-- An argument of the call: a word, a string, which may be the null pointer, or a double.
pub data Arg (D : Type 0) : Type 0 where
  word : ℕ → Arg D
  string : Option (List ℕ) → Arg D
  double : D → Arg D

-- What a part of the reading gives, with the arguments that are left: a value and the rest of the format,
-- or the end by `return NULL`. It is undefined where an argument is missing or of another type.
pub data Reading (D A : Type 0) : Type 0 where
  gives : A → List ℕ → List (Arg D) → Reading D A
  returns_null : List (Arg D) → Reading D A
  undefined : Reading D A

pub data LengthOf : Type 0 where
  byte short long long_long : LengthOf

pub data TypeOf : Type 0 where
  type_string type_char type_literal type_int type_uint type_double : TypeOf

pub record Directive : Type 0 where
  pub flags : ℕ
  pub width : ℕ
  pub precision : ℕ
  pub kind : LengthOf
  pub type : TypeOf

abbrev pub and_then :
    {D A B : Type 0} → Reading D A → (A → List ℕ → List (Arg D) → Reading D B) → Reading D B
and_then (gives a fmt args) next = next a fmt args
and_then (returns_null args) next = returns_null args
and_then undefined next = undefined

unfoldable pub flag_of : ℕ → Option ℕ
flag_of c =
    if c == b'+'
    then some flag_sign
    else if c == b'-'
    then some flag_left
    else if c == b'#'
    then some flag_alt
    else if c == b'0'
    then some flag_zero
    else none

-- The flags from the byte behind the '%' on.
unfoldable pub read_flags : {D : Type 0} → List ℕ → List (Arg D) → ℕ → Reading D ℕ
read_flags [] args flags = returns_null args
read_flags (c ∷ fmt) args flags = elim (flag_of c) [
  | some f ↦ read_flags fmt args (bit_or flags f)
  | none ↦ gives flags (c ∷ fmt) args
]

unfoldable pub skip_digits : List ℕ → List ℕ
skip_digits [] = []
skip_digits (c ∷ fmt) = let rest = skip_digits fmt in if isdigit c then rest else c ∷ fmt

-- `va_arg(*argp, int)`
unfoldable pub next_word : {D : Type 0} → List ℕ → List (Arg D) → Reading D ℕ
next_word fmt (word n ∷ args) = gives n fmt args
next_word fmt _ = undefined

unfoldable pub read_width : {D : Type 0} → List ℕ → List (Arg D) → Reading D ℕ
read_width [] args = gives 0 [] args
read_width (c ∷ fmt) args =
    if c == b'*'
    then next_word fmt args
    else if isdigit c
    then gives (atoi (c ∷ fmt)) (skip_digits (c ∷ fmt)) args
    else gives 0 (c ∷ fmt) args

unfoldable pub read_precision : {D : Type 0} → List ℕ → List (Arg D) → Reading D ℕ
read_precision [] args = gives 6 [] args
read_precision (c ∷ []) args = if c == b'.' then returns_null args else gives 6 (c ∷ []) args
read_precision (c ∷ d ∷ fmt) args =
    if c == b'.'
    then (if d == b'*'
        then next_word fmt args
        else if isdigit d
        then gives (atoi (d ∷ fmt)) (skip_digits (d ∷ fmt)) args
        else returns_null args)
    else gives 6 (c ∷ d ∷ fmt) args

-- The length after a letter, which may stand twice.
unfoldable pub once_or_twice :
    {D : Type 0} → ℕ → LengthOf → LengthOf → List ℕ → List (Arg D) → Reading D LengthOf
once_or_twice c once both [] args = gives once [] args
once_or_twice c once both (d ∷ fmt) args =
    if d == c then gives both fmt args else gives once (d ∷ fmt) args

-- 'z' and 't' end the reading: their case runs into that of the NUL.
unfoldable pub read_length : {D : Type 0} → List ℕ → List (Arg D) → Reading D LengthOf
read_length [] args = returns_null args
read_length (c ∷ fmt) args =
    if c == b'h'
    then once_or_twice b'h' short byte fmt args
    else if c == b'l'
    then once_or_twice b'l' long_long long fmt args
    else if (c == b'L') || (c == b'j')
    then gives long_long fmt args
    else if (c == b'z') || (c == b't')
    then returns_null args
    else gives long (c ∷ fmt) args

-- The type and the flags that it adds.
unfoldable pub type_of : ℕ → Option (TypeOf × ℕ)
type_of c =
    if c == b'i'
    then some (type_int, 0)
    else if c == b'd'
    then some (type_int, 0)
    else if c == b'u'
    then some (type_uint, 0)
    else if c == b'F'
    then some (type_double, flag_upper)
    else if c == b'f'
    then some (type_double, 0)
    else if c == b'G'
    then some (type_double, bit_or flag_upper flag_mexp)
    else if c == b'g'
    then some (type_double, flag_mexp)
    else if c == b'E'
    then some (type_double, bit_or flag_upper flag_exp)
    else if c == b'e'
    then some (type_double, flag_exp)
    else if c == b'X'
    then some (type_uint, bit_or flag_upper flag_hex)
    else if c == b'x'
    then some (type_uint, flag_hex)
    else if c == b'p'
    then some (type_uint, flag_hex)
    else if c == b'O'
    then some (type_uint, bit_or flag_upper flag_octal)
    else if c == b'o'
    then some (type_uint, flag_octal)
    else if c == b's'
    then some (type_string, 0)
    else if c == b'c'
    then some (type_char, 0)
    else if c == b'%'
    then some (type_literal, 0)
    else none

-- The result stands at the byte of the type, where the reading ends.
unfoldable pub read_type :
    {D : Type 0} → ℕ → ℕ → ℕ → LengthOf → List ℕ → List (Arg D) → Reading D Directive
read_type flags width precision kind [] args = returns_null args
read_type flags width precision kind (c ∷ fmt) args = elim (type_of c) [
  | none ↦ returns_null args
  | some (type, more) ↦
      gives
        (record {
          flags = bit_or flags more;
          width = width;
          precision = precision;
          kind = kind;
          type = type;
        })
        (c ∷ fmt) args
]

unfoldable pub read_directive : {D : Type 0} → List ℕ → List (Arg D) → Reading D Directive
read_directive fmt args = and_then (read_flags fmt args 0) (λ flags fmt args.
    and_then (read_width fmt args) (λ width fmt args.
      and_then (read_precision fmt args) (λ precision fmt args.
        and_then (read_length fmt args)
          (λ kind fmt args. read_type flags width precision kind fmt args))))
