-- ===== src/Kernel/Format/Text/Laws.antt =====
-- What `__format_int` of src/kernel/stream.c makes is what `stream_putint` prints.
use mathlib.Core.List.{append-nil, append_assoc}
use native.Mathlib.Nat.{
  pow-zero, pow-suc, mul_comm, div-div-eq-div-mul, div-eq_of_lt, div-lt_iff_lt-mul,
  le-div_iff_mul-le,
}
use jiauliyan_os.Base.{
  ℕ, zero, suc, ◌*◌, ◌/◌, ◌%◌, ◌^◌, ◌≤◌, ◌<◌, ◌≡◌, ◌⊎◌, refl, sym, ◌∙◌, ap, inl, inr, Bool-cases,
  true, false, List, [], ◌∷◌, ◌++◌, some, ◌==◌, if◌then◌else◌, get_or, length, arith,
}
use jiauliyan_os.Base.Int.{ℤ, pos, negsuc}
use jiauliyan_os.Base.Words.{sub32}
use jiauliyan_os.Kernel.Stream.{StreamOps, stream_putchar, put_text}
use jiauliyan_os.Kernel.Format.{
  has_flag, flag_sign, flag_alt, flag_upper, flag_octal, flag_hex, digits_of, base_of, prefix_of,
  is_negative, stream_putint,
}
use jiauliyan_os.Kernel.Format.Digits.{digits_from, power_positive}
use jiauliyan_os.Kernel.Format.Laws.{
  chars, numeral, safe_digits, base_cases, fits_int, magnitude, int_word, stream_putuint_top,
}
use jiauliyan_os.Kernel.Format.Text.{
  strdup, joined, strvcat, fill, with_sign, with_prefix, format_uint, format_int,
}

-- The lowest digit stands last.
digits_from-last :
    (base value i : ℕ)
    → digits_from base value (suc i) ≡ digits_from base (value / base) i ++ value % base ∷ []
unfolding digits_from
digits_from-last base value zero = rw (pow-zero base) (ap (λ d. d % base ∷ []) (omega arith))
digits_from-last base value (suc i) =
    let down : value / base ^ suc i ≡ value / base / base ^ i =
      ap (λ d. value / d) (pow-suc base i ∙ mul_comm (base ^ i) base)
      ∙ sym (div-div-eq-div-mul value base (base ^ i)) in
    rw (down, digits_from-last base value i) refl

digits_from_one : (base value : ℕ) → digits_from base value 1 ≡ value % base ∷ []
unfolding digits_from
digits_from_one base value = rw (pow-zero base) (ap (λ d. d % base ∷ []) (omega arith))

chars-append :
    (digits ds es : List ℕ) → chars digits (ds ++ es) ≡ chars digits ds ++ chars digits es
chars-append digits [] es = refl
chars-append digits (d ∷ ds) es = ap (λ l. get_or digits d 0 ∷ l) (chars-append digits ds es)

fill_stop : (digits : List ℕ) (base n : ℕ) (text : List ℕ) → fill digits base n 0 text ≡ text
unfolding fill
fill_stop digits base zero text = refl
fill_stop digits base (suc n) text = refl

fill_lem :
    (digits : List ℕ) (base i n value : ℕ) (text : List ℕ)
    → 1 < base
    → base ^ i ≤ value
    → value < base ^ suc i
    → i < n
    → fill digits base n value text ≡ chars digits (digits_from base value (suc i)) ++ text
unfolding fill
fill_lem digits base i zero value text some_base reached above room = absurd (omega arith)
fill_lem digits base zero (suc n) value text some_base reached above room =
    let one = pow-zero base in
    let next : base ^ suc 0 ≡ 1 * base = rw one at (pow-suc base 0) in
    let below : value < base = omega (arith, next) in
    let more : (value == 0) ≡ false = ground (arith, one) in
    let last : value / base ≡ 0 = div-eq_of_lt below in
    rw
      (
        more,
        last,
        fill_stop digits base n (get_or digits (value % base) 0 ∷ text),
        digits_from_one base value,
      )
      refl
fill_lem digits base (suc i) (suc n) value text some_base reached above room =
    let positive : 0 < base = omega arith in
    let some_value = power_positive base (suc i) positive in
    let more : (value == 0) ≡ false = ground arith in
    let reached' : base ^ i ≤ value / base =
      (le-div_iff_mul-le positive).1 (omega (arith, pow-suc base i)) in
    let above' : value / base < base ^ suc i =
      (div-lt_iff_lt-mul positive).1 (omega (arith, pow-suc base (suc i))) in
    rw
      (
        more,
        fill_lem digits base i n (value / base) (get_or digits (value % base) 0 ∷ text) some_base
            reached' above' (omega arith),
        digits_from-last base value (suc i),
        chars-append digits (digits_from base (value / base) (suc i)) (value % base ∷ []),
      )
      (sym (
        append_assoc (chars digits (digits_from base (value / base) (suc i)))
          (get_or digits (value % base) 0 ∷ []) text))

-- The flags for which the sign and the prefixes come out in the same order.
abbrev pub SameOrder : ℕ → Type 0
SameOrder flags =
    (has_flag flags flag_alt ≡ false)
    ⊎ ((has_flag flags flag_sign ≡ false)
        × ((has_flag flags flag_octal ≡ false) ⊎ (has_flag flags flag_hex ≡ false)))

with_prefix_lem :
    (flags errno : ℕ) (text : List ℕ)
    → SameOrder flags
    → with_prefix true flags (with_sign flags text) errno ≡ (some (prefix_of flags ++ text), errno)
unfolding with_prefix with_sign prefix_of strdup strvcat joined
with_prefix_lem flags errno text (inl plain) = elim (Bool-cases (has_flag flags flag_sign)) [
  | inl sign ↦ rw (plain, sign) refl
  | inr sign ↦ rw (plain, sign) refl
]
with_prefix_lem flags errno text (inr (sign, one_base)) =
    elim (Bool-cases (has_flag flags flag_alt)) [
      | inr plain ↦ rw (plain, sign) refl
      | inl alt ↦ elim (Bool-cases (has_flag flags flag_octal)) [
        | inl octal ↦ elim one_base [
          | inl no_octal ↦ cc
          | inr hex ↦
              rw (alt, sign, octal, hex) (ap (λ t. (some (48 ∷ t), errno)) (append-nil text))
        ]
        | inr octal ↦ elim (Bool-cases (has_flag flags flag_hex)) [
          | inl hex ↦
              let prefix = if has_flag flags flag_upper then 48 ∷ 88 ∷ [] else 48 ∷ 120 ∷ [] in
              rw (alt, sign, octal, hex) (ap (λ t. (some (prefix ++ t), errno)) (append-nil text))
          | inr hex ↦ rw (alt, sign, octal, hex) refl
        ]
      ]
    ]

-- A number's text is its numeral.
format_uint_lem :
    (value flags errno i : ℕ)
    → SameOrder flags
    → base_of flags ^ i ≤ value
    → value < base_of flags ^ suc i
    → i < safe_digits flags
    → format_uint true value flags errno
      ≡ (some (numeral flags (digits_from (base_of flags) value (suc i))), errno)
unfolding format_uint
format_uint_lem value flags errno i order reached above few =
    let (two, small, fits, some_digits, rounds) = base_cases flags in
    let some_value = power_positive (base_of flags) i (omega arith) in
    let more : (value == 0) ≡ false = ground arith in
    let text = chars (digits_of flags) (digits_from (base_of flags) value (suc i)) in
    rw
      (
        more,
        fill_lem (digits_of flags) (base_of flags) i 15 value [] two reached above
            (omega (arith, length_bound flags)),
        append-nil text,
      )
      (with_prefix_lem flags errno text order)
  where
    length_bound : (flags : ℕ) → safe_digits flags ≤ 15
    length_bound flags = elim (Bool-cases (has_flag flags flag_octal)) [
      | inl o ↦ rw o (omega arith)
      | inr o ↦ elim (Bool-cases (has_flag flags flag_hex)) [
        | inl x ↦ rw (o, x) (omega arith)
        | inr x ↦ rw (o, x) (omega arith)
      ]
    ]

module _ {S : Type 0} (ops : StreamOps S) where
  -- Where `malloc` gives memory, the flags do not ask for a sign and a prefix together or for a prefix
  -- in both bases, and the integer is not 0 and has at most nine decimal, seven hexadecimal or ten
  -- octal digits, as the flags choose the base, `__format_int` makes the text that `stream_putint`
  -- prints, and leaves errno alone.
  pub format_int-stream_putint :
      (value : ℤ) (flags errno : ℕ) (s : S)
      → SameOrder flags
      → 0 < magnitude value
      → magnitude value < base_of flags ^ safe_digits flags
      → (text : List ℕ) × ((format_int true true (int_word value) flags errno ≡ (some text, errno))
          × (stream_putint ops (int_word value) flags s ≡ some (length text, put_text ops text s)))
  unfolding format_int stream_putint strvcat joined put_text
  format_int-stream_putint (pos n) flags errno s order some_value below =
      let plain : is_negative n ≡ false = ground (arith, fits_int flags n below) in
      let (i, (reached, above, few, printed)) = stream_putuint_top ops n flags s some_value below in
      (
        numeral flags (digits_from (base_of flags) n (suc i)),
        (rw plain (format_uint_lem n flags errno i order reached above few), rw plain printed),
      )
  format_int-stream_putint (negsuc n) flags errno s order some_value below =
      let small = fits_int flags (suc n) below in
      let minus : is_negative (sub32 0 (suc n)) ≡ true = ground arith in
      let back : sub32 0 (sub32 0 (suc n)) ≡ suc n = omega arith in
      let (i, (reached, above, few, printed)) =
        stream_putuint_top ops (suc n) flags (stream_putchar ops 45 s).1 some_value below in
      let text = numeral flags (digits_from (base_of flags) (suc n) (suc i)) in
      (
        45 ∷ text,
        (
          rw
              (
                minus,
                back,
                format_uint_lem (suc n) flags errno i order reached above few,
                append-nil text,
              )
              refl,
          rw (minus, back, printed) refl,
        ),
      )
