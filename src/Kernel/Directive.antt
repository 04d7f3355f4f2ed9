-- ===== src/Kernel/Directive.antt =====
-- The directives of a format string (src/kernel/stream.c): how `stream_format_arg` reads one and prints
-- its argument, and the loop of `stream_vformat`. A format is the list of its bytes up to the NUL.
pub mod Read
pub mod Laws
pub mod Integer
mod Tests
use jiauliyan_os.Base.{
  ℕ, zero, suc, ◌+◌, ◌-◌, ◌%◌, bit_or, Bool, true, false, ◌||◌, List, [], ◌∷◌, Option, none, some,
  ◌>>=◌, ltb, ◌==◌, if◌then◌else◌, length, replicate,
}
use jiauliyan_os.Base.Words.{sub32}
use jiauliyan_os.Memory.{Mem}
use jiauliyan_os.Libc.Number.{isdigit, atoi}
use jiauliyan_os.Kernel.Stream.{
  StreamOps, stream_putchar, stream_putstring, put_text, Bytestream, Outside, bytestream_create,
  bytestream_ops,
}
use jiauliyan_os.Kernel.Directive.Read.{
  Arg, word, string, double, Reading, gives, returns_null, undefined, TypeOf, type_string,
  type_char, type_literal, type_int, type_uint, type_double, Directive, read_directive,
}
use jiauliyan_os.Kernel.Format.{flag_left, flag_zero, has_flag, stream_putuint, stream_putint}

abbrev with_word :
    {D : Type 0} → List (Arg D) → (ℕ → Option Bytestream) → Option (Bytestream × List (Arg D))
with_word (word n ∷ args) print = do bs ← print n; some (bs, args)
with_word _ print = none

abbrev with_string :
    {D : Type 0}
    → List (Arg D)
    → (Option (List ℕ) → Option Bytestream)
    → Option (Bytestream × List (Arg D))
with_string (string t ∷ args) print = do bs ← print t; some (bs, args)
with_string _ print = none

abbrev with_double :
    {D : Type 0} → List (Arg D) → (D → Option Bytestream) → Option (Bytestream × List (Arg D))
with_double (double x ∷ args) print = do bs ← print x; some (bs, args)
with_double _ print = none

-- The text that `stream_putstring` prints for a string: "(null)" for the null pointer.
abbrev or_null : Option (List ℕ) → List ℕ
or_null (some text) = text
or_null none = 40 ∷ 110 ∷ 117 ∷ 108 ∷ 108 ∷ 41 ∷ []

-- The argument in a new byte stream, as its type says. `putdouble` prints a double; `heap` is the buffer
-- as `malloc` gives it. `none`: the argument has another type, or its printing is not defined, as is
-- `va_arg` of the type char.
pub print_arg :
    {D : Type 0}
    → (putdouble : D → ℕ → ℕ → Bytestream → Option Bytestream) → (outside : Outside) → Directive
    → Mem
    → List (Arg D)
    → Option (Bytestream × List (Arg D))
print_arg putdouble outside d heap args =
    let bs = bytestream_create heap 1024 in
    let ops = bytestream_ops outside in
    elim (d.type) [
      | type_literal ↦ some ((stream_putchar ops b'%' bs).1, args)
      | type_string ↦ with_string args (λ text. some (stream_putstring ops (or_null text) bs).1)
      | type_char ↦ none
      | type_int ↦ with_word args (λ n. do (len, bs') ← stream_putint ops n d.flags bs; some bs')
      | type_uint ↦ with_word args (λ n. do (len, bs') ← stream_putuint ops n d.flags bs; some bs')
      | type_double ↦ with_double args (λ x. putdouble x d.precision d.flags bs)
    ]

-- The bytes of a buffer up to the first NUL, which stands among the first `n`.
pub text_at : ℕ → Mem → ℕ → Option (List ℕ)
text_at zero m p = none
text_at (suc n) m p =
    let rest = text_at n m (p + 1) in
    if m p == 0 then some [] else (do text ← rest; some (m p ∷ text))

-- The printed text in its field; the width is compared with one less than the number of its bytes.
pub put_field : {S : Type 0} → StreamOps S → Directive → ℕ → List ℕ → S → S
put_field ops d flen text s =
    let pad = replicate (d.width - flen) (if has_flag d.flags flag_zero then b'0' else b' ') in
    if ltb flen d.width
    then (if has_flag d.flags flag_left
        then put_text ops pad (put_text ops text s)
        else put_text ops text (put_text ops pad s))
    else put_text ops text s

-- One directive, from the byte behind the '%' on: the bytes of the format that are done with, the
-- arguments that are left, and the stream. `return NULL` leaves the format where it is.
pub stream_format_arg :
    {S D : Type 0}
    → StreamOps S
    → (putdouble : D → ℕ → ℕ → Bytestream → Option Bytestream) → (outside : Outside) → Mem
    → List ℕ
    → List (Arg D)
    → S
    → Option (ℕ × List (Arg D) × S)
stream_format_arg ops putdouble outside heap fmt args s = elim (read_directive fmt args) [
  | undefined ↦ none
  | returns_null args' ↦ some (0, args', s)
  | gives d fmt' args' ↦ (do
    (bs, args'') ← print_arg putdouble outside d heap args'
    text ← text_at bs.capacity bs.buf 0
    some (length fmt - length fmt' + 1, args'', put_field ops d (sub32 bs.size 1) text s))
]

-- The loop at a byte of the format, after `skip` more bytes. `heap` gives the new buffer of a directive, by
-- the number of bytes that follow its '%'.
pub format_from :
    {S D : Type 0}
    → StreamOps S
    → (putdouble : D → ℕ → ℕ → Bytestream → Option Bytestream) → (outside : Outside)
    → (heap : ℕ → Mem) → List ℕ
    → ℕ
    → List (Arg D)
    → S
    → Option S
format_from ops putdouble outside heap [] skip args s = some s
format_from ops putdouble outside heap (c ∷ fmt) (suc skip) args s =
    format_from ops putdouble outside heap fmt skip args s
format_from ops putdouble outside heap (c ∷ fmt) zero args s = elim (c == b'%') [
  | false ↦ format_from ops putdouble outside heap fmt zero args (ops.put (c % 256) s).1
  | true ↦ elim (stream_format_arg ops putdouble outside (heap (length fmt)) fmt args s) [
    | none ↦ none
    | some (done, args', s') ↦ format_from ops putdouble outside heap fmt done args' s'
  ]
]

-- The result is 0 whatever was printed.
pub stream_vformat :
    {S D : Type 0}
    → StreamOps S
    → (putdouble : D → ℕ → ℕ → Bytestream → Option Bytestream) → (outside : Outside)
    → (heap : ℕ → Mem) → List ℕ
    → List (Arg D)
    → S
    → Option (ℕ × S)
stream_vformat ops putdouble outside heap format args s = do
  s' ← format_from ops putdouble outside heap format 0 args s
  some (0, s')
