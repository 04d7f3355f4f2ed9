-- ===== src/Kernel/Directive/Integer.antt =====
-- The directive `%d` of `stream_vformat` (src/kernel/stream.c).
use mathlib.Core.List.{append-nil}
use jiauliyan_os.Base.{
  ℕ, zero, suc, ◌+◌, ◌-◌, ◌≤◌, ◌<◌, ◌≡◌, refl, sym, ◌∙◌, ap, false, List, [], ◌∷◌, ◌++◌, Option,
  some, ltb, length, arith,
}
use jiauliyan_os.Base.Int.{ℤ, pos, negsuc}
use jiauliyan_os.Base.Words.{sub32}
use jiauliyan_os.Memory.{Mem}
use jiauliyan_os.Libc.Number.Laws.{decimal, AllBelow}
use jiauliyan_os.Kernel.Stream.{
  StreamOps, put_text, Bytestream, Outside, bytestream_create, bytestream_ops,
}
use jiauliyan_os.Kernel.Format.{stream_putint, base_of, prefix_of, digits_of}
use jiauliyan_os.Kernel.Format.Digits.{IsNumeral}
use jiauliyan_os.Kernel.Format.Laws.{
  put_text-append, int_word, magnitude, sign_of, stream_putint_lem, numeral,
}
use jiauliyan_os.Kernel.Format.RoundTrip.{chars-decimal}
use jiauliyan_os.Kernel.Directive.{
  format_from, stream_vformat, print_arg, put_field, stream_format_arg,
}
use jiauliyan_os.Kernel.Directive.Read.{
  Arg, word, gives, type_int, Directive, long, read_directive, read_flags, read_width,
  read_precision, read_length, read_type, flag_of, type_of,
}
use jiauliyan_os.Kernel.Directive.Laws.{AllText, AllPlain, plain_lem, text_at-printed}

length-decimal : (ds : List ℕ) → length (decimal ds) ≡ length ds
unfolding decimal
length-decimal [] = refl
length-decimal (d ∷ ds) = ap suc (length-decimal ds)

decimal-AllText : (ds : List ℕ) → AllBelow 10 ds → AllText (decimal ds)
unfolding decimal
decimal-AllText [] small = tt
decimal-AllText (d ∷ ds) (h, small) = (omega arith, omega arith, decimal-AllText ds small)

-- An int in decimal, with its sign.
abbrev pub int_text : ℤ → List ℕ → List ℕ
int_text value ds = sign_of value ++ decimal ds

pub int_text-AllText : (value : ℤ) (ds : List ℕ) → AllBelow 10 ds → AllText (int_text value ds)
int_text-AllText (pos n) ds small = decimal-AllText ds small
int_text-AllText (negsuc n) ds small = (omega arith, omega arith, decimal-AllText ds small)

pub length-int_text : (value : ℤ) (ds : List ℕ) → length ds ≤ 9 → length (int_text value ds) ≤ 10
length-int_text (pos n) ds short = omega (arith, length-decimal ds)
length-int_text (negsuc n) ds short = omega (arith, length-decimal ds)

abbrev plain_int : Directive
plain_int = record { flags = 0; width = 0; precision = 6; kind = long; type = type_int }

read_d :
    {D : Type 0} (fmt : List ℕ) (args : List (Arg D))
    → read_directive (100 ∷ fmt) args ≡ gives plain_int (100 ∷ fmt) args
unfolding read_directive read_flags read_width read_precision read_length read_type flag_of type_of
read_d [] args = refl
read_d (c ∷ fmt) args = refl

module _ {S D : Type 0} (ops : StreamOps S) (putdouble : D → ℕ → ℕ → Bytestream → Option Bytestream)
    (outside : Outside) (heap : ℕ → Mem) (clean : (n y : ℕ) → heap n y ≡ 0) where
  print_int :
      (value : ℤ) (buf : Mem) (args : List (Arg D)) (text : List ℕ)
      → stream_putint (bytestream_ops outside) (int_word value) 0 (bytestream_create buf 1024)
        ≡ some (length text, put_text (bytestream_ops outside) text (bytestream_create buf 1024))
      → print_arg putdouble outside plain_int buf (word (int_word value) ∷ args)
        ≡ some (put_text (bytestream_ops outside) text (bytestream_create buf 1024), args)
  unfolding print_arg
  print_int value buf args text e = rw e refl

  put_field-plain :
      (flen : ℕ) (text : List ℕ) (s : S) → put_field ops plain_int flen text s ≡ put_text ops text s
  unfolding put_field
  put_field-plain flen text s = let no : ltb flen 0 ≡ false = ground arith in rw no refl

  int_arg :
      (value : ℤ) (fmt : List ℕ) (args : List (Arg D)) (s : S) (n : ℕ)
      → 0 < magnitude value
      → magnitude value < 1000000000
      → (ds : List ℕ) × (IsNumeral 10 (magnitude value) ds
          × (length ds ≤ 9)
          × (stream_format_arg ops putdouble outside
                (heap n)
                (100 ∷ fmt)
                (word (int_word value) ∷ args)
                s
              ≡ some (1, args, put_text ops (int_text value ds) s)))
  unfolding stream_format_arg base_of prefix_of digits_of
  int_arg value fmt args s n some_value below =
      let bops = bytestream_ops outside in
      let new = bytestream_create (heap n) 1024 in
      let (ds, (good, short, e)) = stream_putint_lem bops value 0 new some_value below in
      let same : sign_of value ++ numeral 0 ds ≡ int_text value ds =
        ap (λ t. sign_of value ++ t) (chars-decimal ds (good.below)) in
      let e = rw same at e in
      let back =
        text_at-printed outside (int_text value ds) (heap n)
          (int_text-AllText value ds (good.below)) (clean n)
          (omega (arith, length-int_text value ds short)) in
      let flen = sub32 (put_text bops (int_text value ds) new).size 1 in
      let printed = print_int value (heap n) args (int_text value ds) e in
      let done : length (100 ∷ fmt) - length (100 ∷ fmt) + 1 ≡ 1 = omega arith in
      (
        ds,
        (
          good,
          short,
          rw (read_d fmt (word (int_word value) ∷ args), stream_format_arg)
              (rw printed (
                rw back (
                  rw done
                    (ap (λ t. some (1, args, t)) (put_field-plain flen (int_text value ds) s))))),
        ),
      )

  step_d :
      (value : ℤ) (fmt : List ℕ) (args : List (Arg D)) (s s' : S)
      → stream_format_arg ops putdouble outside
          (heap (length (100 ∷ fmt)))
          (100 ∷ fmt)
          (word (int_word value) ∷ args)
          s
        ≡ some (1, args, s')
      → format_from ops putdouble outside heap
          (37 ∷ 100 ∷ fmt)
          zero
          (word (int_word value) ∷ args)
          s
        ≡ format_from ops putdouble outside heap fmt zero args s'
  unfolding format_from
  step_d value fmt args s s' e = rw (e, format_from) refl

  rest_plain :
      (fmt : List ℕ) (args : List (Arg D)) (s : S)
      → AllPlain fmt
      → format_from ops putdouble outside heap fmt zero args s ≡ some (put_text ops fmt s)
  unfolding format_from
  rest_plain fmt args s plain =
      let run = plain_lem ops putdouble outside heap fmt [] args s plain in
      rw (append-nil fmt) at run

  pub stream_vformat-int_short :
      (value : ℤ) (before behind : List ℕ) (s : S)
      → AllPlain before
      → AllPlain behind
      → 0 < magnitude value
      → magnitude value < 1000000000
      → (ds : List ℕ) × (IsNumeral 10 (magnitude value) ds
          × (length ds ≤ 9)
          × (stream_vformat ops putdouble outside heap
                (before ++ 37 ∷ 100 ∷ behind)
                (word (int_word value) ∷ [])
                s
              ≡ some (0, put_text ops (before ++ (int_text value ds ++ behind)) s)))
  unfolding stream_vformat
  stream_vformat-int_short value before behind s plain plain' some_value below =
      let s1 = put_text ops before s in
      let (ds, (good, short, e)) =
        int_arg value behind [] s1 (length (100 ∷ behind)) some_value below in
      let s2 = put_text ops (int_text value ds) s1 in
      let run =
        plain_lem ops putdouble outside heap before (37 ∷ 100 ∷ behind) (word (int_word value) ∷ [])
          s plain
        ∙ step_d value behind [] s1 s2 e
        ∙ rest_plain behind [] s2 plain' in
      let text : put_text ops behind s2 ≡ put_text ops (before ++ (int_text value ds ++ behind)) s =
        sym (
          put_text-append ops before (int_text value ds ++ behind) s
          ∙ put_text-append ops (int_text value ds) behind s1) in
      (ds, (good, short, rw (run, text) refl))

  -- Where the new buffer is all zeros, a format of plain text, the directive `%d` and plain text
  -- prints the text with the integer's sign and decimal digits in the directive's place, for an
  -- integer other than 0 of at most nine digits, and gives 0.
  pub stream_vformat-int :
      (value : ℤ) (before behind : List ℕ) (s : S)
      → AllPlain before
      → AllPlain behind
      → 0 < magnitude value
      → magnitude value < 1000000000
      → (ds : List ℕ) × (IsNumeral 10 (magnitude value) ds
          × (stream_vformat ops putdouble outside heap
                (before ++ 37 ∷ 100 ∷ behind)
                (word (int_word value) ∷ [])
                s
              ≡ some (0, put_text ops (before ++ (int_text value ds ++ behind)) s)))
  stream_vformat-int value before behind s plain plain' some_value below =
      let (ds, (good, short, e)) =
        stream_vformat-int_short value before behind s plain plain' some_value below in
      (ds, (good, e))
