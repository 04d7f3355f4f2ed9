-- ===== src/Kernel/Directive/Tests.antt =====
-- `stream_vformat` of src/kernel/stream.c over a stream that keeps its text, without doubles.
use jiauliyan_os.Base.{ℕ, ◌≡◌, refl, List, [], ◌∷◌, ◌++◌, Option, none, some, arith}
use jiauliyan_os.Base.Int.{negsuc}
use jiauliyan_os.Memory.{Mem}
use jiauliyan_os.Libc.Number.{atoi, atoi_from}
use jiauliyan_os.Kernel.Stream.{
  StreamOps, stream_putchar, put_text, Bytestream, Outside, bytestream_ops, bytestream_put,
  bytestream_create, stream_putstring,
}
use jiauliyan_os.Kernel.Format.Digits.{IsNumeral}
use jiauliyan_os.Kernel.Format.Laws.{int_word}
use jiauliyan_os.Kernel.Directive.{
  stream_vformat, format_from, stream_format_arg, print_arg, put_field, text_at,
}
use jiauliyan_os.Kernel.Directive.Read.{
  word, string, read_directive, skip_digits, read_flags, read_width, read_precision, read_length,
  read_type, flag_of, type_of,
}
use jiauliyan_os.Kernel.Directive.Integer.{int_text, stream_vformat-int}

-- The text so far.
abbrev text_ops : StreamOps (List ℕ)
text_ops = record {
  get = λ s. (none, s);
  put = λ c s. (some c, s ++ c ∷ []);
  avail = λ s. 0;
  seek = λ n s. s;
}

abbrev no_double : ⊥ → ℕ → ℕ → Bytestream → Option Bytestream
no_double x precision flags bs = none

abbrev no_outside : Outside
no_outside = record { avail = λ bs. 0; realloc = λ n m. m }

abbrev zero_heap : ℕ → Mem
zero_heap n x = 0

-- "x=%d!" at -7
stream_vformat-int_example :
    (ds : List ℕ) × (IsNumeral 10 7 ds
      × (stream_vformat text_ops no_double no_outside zero_heap
            ((120 ∷ 61 ∷ []) ++ 37 ∷ 100 ∷ 33 ∷ [])
            (word (int_word (negsuc 6)) ∷ [])
            []
          ≡ some
              (0, put_text text_ops ((120 ∷ 61 ∷ []) ++ (int_text (negsuc 6) ds ++ 33 ∷ [])) [])))
stream_vformat-int_example =
    stream_vformat-int text_ops no_double no_outside zero_heap (λ n y. refl) (negsuc 6)
      (120 ∷ 61 ∷ []) (33 ∷ []) [] (λ e. absurd (omega arith), (λ e. absurd (omega arith), tt))
      (λ e. absurd (omega arith), tt) (omega arith) (omega arith)

-- "%5s" at "ab": four spaces are put, since the width is compared with 1.
vformat_width :
    stream_vformat text_ops no_double no_outside zero_heap
      (37 ∷ 53 ∷ 115 ∷ [])
      (string (some (97 ∷ 98 ∷ [])) ∷ [])
      []
    ≡ some (0, 32 ∷ 32 ∷ 32 ∷ 32 ∷ 97 ∷ 98 ∷ [])
unfolding stream_vformat format_from stream_format_arg print_arg put_field text_at read_directive
    read_flags read_width read_precision read_length read_type flag_of type_of stream_putchar
    put_text bytestream_ops bytestream_put bytestream_create stream_putstring skip_digits atoi
    atoi_from
vformat_width = refl
