-- ===== src/Kernel/Format/Tests.antt =====
-- The printing of numbers of src/kernel/stream.c over a stream that keeps its text.
use jiauliyan_os.Base.{ℕ, ◌^◌, ◌≤◌, ◌<◌, ◌≡◌, refl, List, [], ◌∷◌, ◌++◌, none, some, arith, length}
use jiauliyan_os.Base.Int.{negsuc}
use jiauliyan_os.Libc.Number.{atoi}
use jiauliyan_os.Kernel.Stream.{StreamOps, stream_putchar, stream_putstring, put_text}
use jiauliyan_os.Kernel.Format.{
  stream_putuint, stream_putint, base_of, prefix_of, digits_of, grow, put_number, put_digits,
  digit_char,
}
use jiauliyan_os.Kernel.Format.Digits.{IsNumeral}
use jiauliyan_os.Kernel.Format.Laws.{numeral, safe_digits, sign_of, int_word, stream_putint_lem}
use jiauliyan_os.Kernel.Format.RoundTrip.{atoi-stream_putuint}

-- The text so far.
abbrev text_ops : StreamOps (List ℕ)
text_ops = record {
  get = λ s. (none, s);
  put = λ c s. (some c, s ++ c ∷ []);
  avail = λ s. 0;
  seek = λ n s. s;
}

-- 0x2A with the prefix.
putuint_hex : stream_putuint text_ops 42 0x44 [] ≡ some (4, 48 ∷ 120 ∷ 50 ∷ 97 ∷ [])
unfolding stream_putuint base_of prefix_of digits_of grow put_number put_digits digit_char
    stream_putchar put_text stream_putstring
putuint_hex = refl

putint_minus : stream_putint text_ops 4294967254 0 [] ≡ some (3, 45 ∷ 52 ∷ 50 ∷ [])
unfolding stream_putint stream_putuint base_of prefix_of digits_of grow put_number put_digits
    digit_char stream_putchar put_text stream_putstring
putint_minus = refl

-- From 2^31 on the last digit is not 0, and its index is negative.
putuint_large : stream_putuint text_ops 2147483649 0 [] ≡ none
unfolding stream_putuint base_of prefix_of digits_of grow put_number put_digits digit_char
    stream_putchar put_text stream_putstring
putuint_large = refl

decimal_below : 42 < base_of 0 ^ safe_digits 0
unfolding base_of
decimal_below = omega arith

stream_putint_lem_example :
    (ds : List ℕ) × (IsNumeral (base_of 0) 42 ds
      × (length ds ≤ safe_digits 0)
      × (stream_putint text_ops (int_word (negsuc 41)) 0 []
          ≡ some (
            length (sign_of (negsuc 41) ++ numeral 0 ds),
            put_text text_ops (sign_of (negsuc 41) ++ numeral 0 ds) [],
          )))
stream_putint_lem_example = stream_putint_lem text_ops (negsuc 41) 0 [] (omega arith) decimal_below

atoi-stream_putuint_example :
    (text : List ℕ) × ((stream_putuint text_ops 1986 0 []
        ≡ some (length text, put_text text_ops text []))
      × (atoi (text ++ []) ≡ 1986))
atoi-stream_putuint_example = atoi-stream_putuint text_ops 1986 [] [] (omega arith) (omega arith) tt
