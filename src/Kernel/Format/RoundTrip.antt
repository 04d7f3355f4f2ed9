-- ===== src/Kernel/Format/RoundTrip.antt =====
-- `atoi` of src/libc/stdlib.c reads back what `stream_putuint` of src/kernel/stream.c prints.
use jiauliyan_os.Base.{
  ℕ, zero, suc, ◌+◌, ◌%◌, ◌<◌, ◌≡◌, refl, ◌∙◌, ap, ap₂, List, [], ◌∷◌, ◌++◌, some, length, arith,
  get_or,
}
use jiauliyan_os.Libc.Number.{atoi}
use jiauliyan_os.Libc.Number.Laws.{decimal, AllBelow, EndsNumber, atoi_lem}
use jiauliyan_os.Kernel.Stream.{StreamOps, put_text}
use jiauliyan_os.Kernel.Format.{stream_putuint, digits_lower, base_of, prefix_of, digits_of}
use jiauliyan_os.Kernel.Format.Laws.{chars, numeral, stream_putuint_lem}

decimal_char : (d : ℕ) → d < 10 → get_or digits_lower d 0 ≡ 48 + d
decimal_char zero h = refl
decimal_char (suc zero) h = refl
decimal_char (suc (suc zero)) h = refl
decimal_char (suc (suc (suc zero))) h = refl
decimal_char (suc (suc (suc (suc zero)))) h = refl
decimal_char (suc (suc (suc (suc (suc zero))))) h = refl
decimal_char (suc (suc (suc (suc (suc (suc zero)))))) h = refl
decimal_char (suc (suc (suc (suc (suc (suc (suc zero))))))) h = refl
decimal_char (suc (suc (suc (suc (suc (suc (suc (suc zero)))))))) h = refl
decimal_char (suc (suc (suc (suc (suc (suc (suc (suc (suc zero))))))))) h = refl
decimal_char (suc (suc (suc (suc (suc (suc (suc (suc (suc (suc d)))))))))) h = absurd (omega arith)

pub chars-decimal : (ds : List ℕ) → AllBelow 10 ds → chars digits_lower ds ≡ decimal ds
unfolding decimal
chars-decimal [] small = refl
chars-decimal (d ∷ ds) (h, small) = ap₂ ◌∷◌ (decimal_char d h) (chars-decimal ds small)

module _ {S : Type 0} (ops : StreamOps S) where
  -- What `stream_putuint` prints without flags for a number from 1 to 999999999 is a text that `atoi`
  -- reads back as that number, whatever stands behind it that does not begin with a digit.
  pub atoi-stream_putuint :
      (value : ℕ) (s : S) (rest : List ℕ)
      → 0 < value
      → value < 1000000000
      → EndsNumber rest
      → (text : List ℕ) × ((stream_putuint ops value 0 s ≡ some (length text, put_text ops text s))
          × (atoi (text ++ rest) ≡ value))
  unfolding base_of prefix_of digits_of
  atoi-stream_putuint value s rest some_value below ends =
      let (ds, (good, short, e)) = stream_putuint_lem ops value 0 s some_value below in
      let same : numeral 0 ds ≡ decimal ds = chars-decimal ds (good.below) in
      let read : atoi (decimal ds ++ rest) ≡ value =
        atoi_lem ds rest (good.below) ends ∙ ap (λ x. x % 4294967296) (good.reads) ∙ omega arith in
      (decimal ds, (rw same at e, read))
