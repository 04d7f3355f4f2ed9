-- ===== src/Kernel/Format/Text/Tests.antt =====
-- The formatting of integers into strings of src/kernel/stream.c at single numbers.
use jiauliyan_os.Base.{
  ℕ, ◌^◌, ◌<◌, ◌≡◌, inr, inl, refl, true, false, List, [], ◌∷◌, ◌++◌, some, none, length, arith,
}
use jiauliyan_os.Base.Int.{negsuc}
use jiauliyan_os.Kernel.Stream.{StreamOps, put_text}
use jiauliyan_os.Kernel.Format.{base_of, digits_of, stream_putint}
use jiauliyan_os.Kernel.Format.Laws.{safe_digits, int_word}
use jiauliyan_os.Kernel.Format.Text.{
  strdup, joined, strvcat, fill, with_sign, with_prefix, format_uint, format_int,
}
use jiauliyan_os.Kernel.Format.Text.Laws.{format_int-stream_putint}

abbrev kept_text : StreamOps (List ℕ)
kept_text = record {
  get = λ s. (none, s);
  put = λ c s. (some c, s ++ c ∷ []);
  avail = λ s. 0;
  seek = λ n s. s;
}

-- With a sign and a prefix the sign comes second: 0x+2a, where `stream_putuint` prints +0x2a.
sign_behind_prefix : format_uint true 42 0x45 0 ≡ (some (48 ∷ 120 ∷ 43 ∷ 50 ∷ 97 ∷ []), 0)
unfolding format_uint with_prefix with_sign fill digits_of base_of strvcat joined
sign_behind_prefix = refl

-- Without memory for the sign, errno is ENOMEM.
minus_no_memory : format_int true false 4294967254 0 0 ≡ (none, 4)
unfolding format_int format_uint with_prefix with_sign fill digits_of base_of strdup strvcat joined
minus_no_memory = refl

hex_below : 42 < base_of 0x44 ^ safe_digits 0x44
unfolding base_of
hex_below = omega arith

format_int-stream_putint_example :
    (text : List ℕ) × ((format_int true true (int_word (negsuc 41)) 0x44 0 ≡ (some text, 0))
      × (stream_putint kept_text (int_word (negsuc 41)) 0x44 []
          ≡ some (length text, put_text kept_text text [])))
format_int-stream_putint_example =
    format_int-stream_putint kept_text (negsuc 41) 0x44 0 [] (inr (refl, inl refl)) (omega arith)
      hex_below
