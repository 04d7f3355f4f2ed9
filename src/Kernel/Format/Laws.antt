-- ===== src/Kernel/Format/Laws.antt =====
-- What `stream_putuint` and `stream_putint` of src/kernel/stream.c print.
use native.Mathlib.Nat.{pow-zero, pow-suc, pow-le-pow_right, mul-div_cancel, mod-lt, div-le_self}
use jiauliyan_os.Base.{
  ℕ, zero, suc, ◌+◌, ◌/◌, ◌%◌, ◌^◌, ◌≤◌, ◌<◌, ◌≡◌, refl, sym, ◌∙◌, ap, inl, inr, true, false,
  Bool-cases, List, [], ◌∷◌, ◌++◌, some, ◌==◌, if◌then◌else◌, get_elem?, get_or, length,
  length-append, map, length-map, arith,
}
use jiauliyan_os.Base.Int.{ℤ, pos, negsuc}
use jiauliyan_os.Base.Words.{sub32}
use jiauliyan_os.Kernel.Stream.{StreamOps, stream_putchar, stream_putstring, put_text}
use jiauliyan_os.Kernel.Format.{
  grow, digit_char, put_digits, put_number, is_negative, base_of, digits_of, prefix_of, has_flag,
  flag_upper, flag_octal, flag_hex, stream_putuint, stream_putint,
}
use jiauliyan_os.Kernel.Format.Digits.{
  IsNumeral, digits_from, digits_from-IsNumeral, power_positive, IsTop, grow-IsTop,
}

get_elem?-get_or : (xs : List ℕ) (i : ℕ) → i < length xs → get_elem? xs i ≡ some (get_or xs i 0)
get_elem?-get_or [] i h = absurd (omega arith)
get_elem?-get_or (x ∷ xs) zero h = refl
get_elem?-get_or (x ∷ xs) (suc i) h = get_elem?-get_or xs i (omega arith)

-- The text of a row of digits.
abbrev pub chars : List ℕ → List ℕ → List ℕ
chars digits ds = map (λ d. get_or digits d 0) ds

module _ {S : Type 0} (ops : StreamOps S) where
  pub put_text-append :
      (xs ys : List ℕ) (s : S) → put_text ops (xs ++ ys) s ≡ put_text ops ys (put_text ops xs s)
  unfolding put_text
  put_text-append [] ys s = refl
  put_text-append (x ∷ xs) ys s = put_text-append xs ys (stream_putchar ops x s).1

  digit_char_lem :
      (digits : List ℕ) (q base : ℕ)
      → length digits ≡ 16
      → 0 < base
      → base ≤ 16
      → q < 2147483648
      → digit_char digits q base ≡ some (get_or digits (q % base) 0)
  unfolding digit_char
  digit_char_lem digits q base all some_base few small =
      let plain : is_negative q ≡ false = ground arith in
      let inside = mod-lt q some_base in rw plain (get_elem?-get_or digits (q % base) (omega arith))

  put_digits_lem :
      (digits : List ℕ) (base value i : ℕ) (s : S)
      → length digits ≡ 16
      → 0 < base
      → base ≤ 16
      → value < 2147483648
      → base ^ i < 2147483648
      → put_digits ops digits base value (suc i) (base ^ i) s
        ≡ some (put_text ops (chars digits (digits_from base value (suc i))) s)
  unfolding put_digits digits_from put_text
  put_digits_lem digits base value zero s all some_base few small power =
      let p = pow-zero base in
      let there : (base ^ 0 == 0) ≡ false = ground arith in
      let le = div-le_self value (base ^ 0) in
      rw (there, digit_char_lem digits (value / base ^ 0) base all some_base few (omega arith)) refl
  put_digits_lem digits base value (suc i) s all some_base few small power =
      let here = power_positive base (suc i) some_base in
      let there : (base ^ suc i == 0) ≡ false = ground arith in
      let le = div-le_self value (base ^ suc i) in
      let plain : is_negative (base ^ suc i) ≡ false = ground arith in
      let down : base ^ suc i / base ≡ base ^ i =
        rw (pow-suc base i) (mul-div_cancel (base ^ i) some_base) in
      let up = pow-le-pow_right {n = base} some_base {i = i} {j = suc i} (omega arith) in
      rw
        (
          there,
          digit_char_lem digits (value / base ^ suc i) base all some_base few (omega arith),
          plain,
          down,
        )
        (put_digits_lem digits base value i
          ((stream_putchar ops (get_or digits (value / base ^ suc i % base) 0) s).1) all some_base
          few small (omega arith))

-- The bases, and how many digits fit an int in each.
abbrev pub safe_digits : ℕ → ℕ
safe_digits flags =
    if has_flag flags flag_octal then 10 else if has_flag flags flag_hex then 7 else 9

pub base_cases :
    (flags : ℕ)
    → (1 < base_of flags)
      × (base_of flags ≤ 16)
      × (base_of flags ^ safe_digits flags < 2147483648)
      × (0 < safe_digits flags)
      × (safe_digits flags ≤ 16)
unfolding base_of
base_cases flags = elim (Bool-cases (has_flag flags flag_octal)) [
  | inl o ↦ rw o (omega arith, omega arith, omega arith, omega arith, omega arith)
  | inr o ↦ elim (Bool-cases (has_flag flags flag_hex)) [
    | inl x ↦ rw (o, x) (omega arith, omega arith, omega arith, omega arith, omega arith)
    | inr x ↦ rw (o, x) (omega arith, omega arith, omega arith, omega arith, omega arith)
  ]
]

length-digits_of : (flags : ℕ) → length (digits_of flags) ≡ 16
unfolding digits_of
length-digits_of flags = elim (Bool-cases (has_flag flags flag_upper)) [
  | inl h ↦ rw h refl
  | inr h ↦ rw h refl
]

-- A number by its digits, behind the prefix that the flags ask for.
abbrev pub numeral : ℕ → List ℕ → List ℕ
numeral flags ds = prefix_of flags ++ chars (digits_of flags) ds

length-digits_from : (base value n : ℕ) → length (digits_from base value n) ≡ n
unfolding digits_from
length-digits_from base value zero = refl
length-digits_from base value (suc n) = ap suc (length-digits_from base value n)

length-numeral :
    (flags base value n : ℕ)
    → length (numeral flags (digits_from base value n)) ≡ length (prefix_of flags) + n
length-numeral flags base value n =
    length-append (prefix_of flags) (chars (digits_of flags) (digits_from base value n))
    ∙ ap (λ k. length (prefix_of flags) + k)
        (length-map (digits_from base value n) (λ d. get_or (digits_of flags) d 0)
          ∙ length-digits_from base value n)

module _ {S : Type 0} (ops : StreamOps S) where
  put_number_lem :
      (base value flags i divisor : ℕ) (s : S)
      → divisor ≡ base ^ i
      → 0 < base
      → base ≤ 16
      → value < 2147483648
      → base ^ i < 2147483648
      → let text = numeral flags (digits_from base value (suc i)) in
        put_number ops base value flags (i, divisor) s ≡ some (length text, put_text ops text s)
  unfolding put_number stream_putstring
  put_number_lem base value flags i divisor s e some_base few small power =
      rw
        (
          e,
          length-numeral flags base value (suc i),
          put_digits_lem ops (digits_of flags) base value i (put_text ops (prefix_of flags) s)
              (length-digits_of flags) some_base few small power,
        )
        (ap (λ t. some (length (prefix_of flags) + suc i, t))
          (sym (
            put_text-append ops (prefix_of flags)
              (chars (digits_of flags) (digits_from base value (suc i))) s)))

  -- The digits printed are those up to the largest power that is not above the value.
  pub stream_putuint_top :
      (value flags : ℕ) (s : S)
      → 0 < value
      → value < base_of flags ^ safe_digits flags
      → let base = base_of flags in
        (i : ℕ) × ((base ^ i ≤ value)
          × (value < base ^ suc i)
          × (i < safe_digits flags)
          × (let text = numeral flags (digits_from base value (suc i)) in
              stream_putuint ops value flags s ≡ some (length text, put_text ops text s)))
  unfolding stream_putuint
  stream_putuint_top value flags s some_value below =
      let base = base_of flags in
      let (two, few, fits, some_digits, rounds) = base_cases flags in
      let ask : (value == 0) ≡ false = ground arith in
      let unit : base ^ 0 ≡ 1 = pow-zero base in
      let top =
        grow-IsTop base value (safe_digits flags) 16 0 two below fits some_digits (omega arith)
          (omega (arith, unit)) in
      let r = grow 16 base value 0 1 in
      let top : IsTop base value (safe_digits flags) r = rw unit at top in
      let up =
        pow-le-pow_right {n = base} (omega arith) {i = r.0} {j = safe_digits flags}
          (omega (arith, top.bound)) in
      (
        r.0,
        (
          top.reached,
          top.above,
          top.bound,
          rw ask (
              put_number_lem base value flags (r.0) (r.1) s (top.power) (omega arith) few
                (omega arith) (omega arith)),
        ),
      )

  pub stream_putuint_lem :
      (value flags : ℕ) (s : S)
      → 0 < value
      → value < base_of flags ^ safe_digits flags
      → (ds : List ℕ) × (IsNumeral (base_of flags) value ds
          × (length ds ≤ safe_digits flags)
          × (stream_putuint ops value flags s
              ≡ some (length (numeral flags ds), put_text ops (numeral flags ds) s)))
  stream_putuint_lem value flags s some_value below =
      let base = base_of flags in
      let (i, (reached, above, bound, e)) = stream_putuint_top value flags s some_value below in
      let (two, few, fits, some_digits, rounds) = base_cases flags in
      (
        digits_from base value (suc i),
        (
          digits_from-IsNumeral base value i (omega arith) reached above,
          omega (arith, length-digits_from base value (suc i)),
          e,
        ),
      )

-- An int by its bit pattern, its absolute value, and the sign that is printed.
abbrev pub int_word : ℤ → ℕ
int_word (pos n) = n
int_word (negsuc n) = sub32 0 (suc n)

abbrev pub magnitude : ℤ → ℕ
magnitude (pos n) = n
magnitude (negsuc n) = suc n

abbrev pub sign_of : ℤ → List ℕ
sign_of (pos n) = []
sign_of (negsuc n) = 45 ∷ []

pub fits_int : (flags n : ℕ) → n < base_of flags ^ safe_digits flags → n < 2147483648
fits_int flags n below = let (two, few, fits, more, rounds) = base_cases flags in omega arith

module _ {S : Type 0} (ops : StreamOps S) where
  -- For an integer other than 0 that has at most nine decimal, seven hexadecimal or ten octal digits,
  -- as the flags choose the base, `stream_putint` prints a minus for a negative one, the prefix that
  -- the flags ask for and the digits of its absolute value without a zero in front, and gives the
  -- number of characters.
  pub stream_putint_lem :
      (value : ℤ) (flags : ℕ) (s : S)
      → 0 < magnitude value
      → magnitude value < base_of flags ^ safe_digits flags
      → (ds : List ℕ) × (IsNumeral (base_of flags) (magnitude value) ds
          × (length ds ≤ safe_digits flags)
          × (stream_putint ops (int_word value) flags s
              ≡ some (
                length (sign_of value ++ numeral flags ds),
                put_text ops (sign_of value ++ numeral flags ds) s,
              )))
  unfolding stream_putint put_text
  stream_putint_lem (pos n) flags s some_value below =
      let plain : is_negative n ≡ false = ground (arith, fits_int flags n below) in
      rw plain (stream_putuint_lem ops n flags s some_value below)
  stream_putint_lem (negsuc n) flags s some_value below =
      let small = fits_int flags (suc n) below in
      let minus : is_negative (sub32 0 (suc n)) ≡ true = ground arith in
      let back : sub32 0 (sub32 0 (suc n)) ≡ suc n = omega arith in
      let (ds, (good, short, e)) =
        stream_putuint_lem ops (suc n) flags (stream_putchar ops 45 s).1 some_value below in
      (ds, (good, short, rw (minus, back, e) refl))
