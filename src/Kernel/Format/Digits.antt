-- ===== src/Kernel/Format/Digits.antt =====
-- The digits of a number in a base, and the loops of src/kernel/stream.c that find and print them.
use native.Mathlib.Nat.{
  pow-zero, pow-suc, pow-le-pow_right, div-div-eq-div-mul, div-add-mod', div-eq_of_lt, mod-eq_of_lt,
  div-lt_iff_lt-mul, le-div_iff_mul-le,
}
use jiauliyan_os.Base.{
  ℕ, zero, suc, ◌+◌, ◌*◌, ◌/◌, ◌%◌, ◌^◌, ◌≤◌, ◌<◌, ◌≡◌, refl, sym, ◌∙◌, ap, inl, inr, Bool-cases,
  List, [], ◌∷◌, leb, arith,
}
use jiauliyan_os.Base.Words.{mul32}
use jiauliyan_os.Libc.Number.Laws.{horner, AllBelow}
use jiauliyan_os.Kernel.Format.{grow, int_above}

abbrev pub HasLead : List ℕ → Type 0
HasLead [] = ⊥
HasLead (d ∷ ds) = 0 < d

-- The digits write the value without a zero in front.
pub record IsNumeral (base value : ℕ) (ds : List ℕ) : Type 0 where
  pub reads : horner base 0 ds ≡ value
  pub below : AllBelow base ds
  pub lead : HasLead ds

-- The lowest `n` digits.
unfoldable pub digits_from : ℕ → ℕ → ℕ → List ℕ
digits_from base value zero = []
digits_from base value (suc n) = value / base ^ n % base ∷ digits_from base value n

horner-digits_from :
    (base value n : ℕ) → horner base (value / base ^ n) (digits_from base value n) ≡ value
unfolding horner digits_from
horner-digits_from base value zero = rw (pow-zero base) (omega arith)
horner-digits_from base value (suc n) =
    let step : value / base ^ suc n * base + value / base ^ n % base ≡ value / base ^ n =
      rw (pow-suc base n, sym (div-div-eq-div-mul value (base ^ n) base))
        (div-add-mod' (value / base ^ n) base) in
    ap (λ a. horner base a (digits_from base value n)) step ∙ horner-digits_from base value n

digits_from-AllBelow : (base value n : ℕ) → 0 < base → AllBelow base (digits_from base value n)
unfolding digits_from
digits_from-AllBelow base value zero some_base = tt
digits_from-AllBelow base value (suc n) some_base =
    (omega arith, digits_from-AllBelow base value n some_base)

-- The exponent `r.0` of the largest power that is not above the value, and the power.
pub record IsTop (base value k : ℕ) (r : ℕ × ℕ) : Type 0 where
  pub power : r.1 ≡ base ^ r.0
  pub reached : base ^ r.0 ≤ value
  pub above : value < base ^ suc r.0
  pub bound : r.0 < k

-- The powers below a number that is there.
pub power_positive : (base i : ℕ) → 0 < base → 0 < base ^ i
power_positive base i some_base =
    omega
      (arith, pow-le-pow_right {n = base} some_base {i = 0} {j = i} (omega arith), pow-zero base)

lead_digit :
    (base value i : ℕ)
    → 0 < base
    → base ^ i ≤ value
    → value < base ^ suc i
    → 0 < value / base ^ i % base
lead_digit base value i some_base reached above =
    let p = power_positive base i some_base in
    let one : 1 ≤ value / base ^ i = (le-div_iff_mul-le p).1 (omega arith) in
    let below : value / base ^ i < base = (div-lt_iff_lt-mul p).1 (omega (arith, pow-suc base i)) in
    rw (mod-eq_of_lt below) one

pub digits_from-IsNumeral :
    (base value i : ℕ)
    → 0 < base
    → base ^ i ≤ value
    → value < base ^ suc i
    → IsNumeral base value (digits_from base value (suc i))
unfolding digits_from horner
digits_from-IsNumeral base value i some_base reached above =
    let none_above : value / base ^ suc i ≡ 0 = div-eq_of_lt above in
    record {
      reads =
          ap (λ a. horner base a (digits_from base value (suc i))) (sym none_above)
          ∙ horner-digits_from base value (suc i);
      below = digits_from-AllBelow base value (suc i) some_base;
      lead = lead_digit base value i some_base reached above;
    }

-- A power that is not above a number is one of less than the power above it.
exponent_below : (base value k i : ℕ) → 0 < base → value < base ^ k → base ^ i ≤ value → i < k
exponent_below base value k i some_base below reached = elim (Bool-cases (leb k i)) [
  | inl h ↦
      let up = pow-le-pow_right {n = base} some_base {i = k} {j = i} (ground arith) in
      absurd (omega arith)
  | inr h ↦ ground arith
]

-- The loop that looks for the largest power finds it before a product is too large.
pub grow-IsTop :
    (base value k n i : ℕ)
    → 1 < base
    → value < base ^ k
    → base ^ k < 2147483648
    → i < k
    → k ≤ i + n
    → base ^ i ≤ value
    → IsTop base value k (grow n base value i (base ^ i))
unfolding grow
grow-IsTop base value k zero i some_base below fits early rounds reached = absurd (omega arith)
grow-IsTop base value k (suc n) i some_base below fits early rounds reached =
    let up = pow-le-pow_right {n = base} (omega arith) {i = suc i} {j = k} (omega arith) in
    let next : mul32 (base ^ i) base ≡ base ^ suc i = omega (arith, pow-suc base i, up) in
    elim (Bool-cases (int_above (base ^ suc i) value)) [
      | inl stop ↦
          rw (next, stop)
            (record { power = refl; reached = reached; above = ground (arith, up); bound = early })
      | inr more ↦
          let on : base ^ suc i ≤ value = ground (arith, up) in
          rw (next, more)
            (grow-IsTop base value k n (suc i) some_base below fits
              (exponent_below base value k (suc i) (omega arith) below on) (omega arith) on)
    ]
