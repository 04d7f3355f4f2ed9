-- ===== src/Libc/Number/Laws.antt =====
-- What `atoi` and `strtoul` read.
use jiauliyan_os.Base.{
  ℕ, suc, ◌+◌, ◌-◌, ◌*◌, ◌/◌, ◌%◌, ◌≤◌, ◌<◌, ◌≡◌, ◌≢◌, refl, sym, ap, ◌∙◌, Bool-cases, inl, inr,
  true, false, ◌&&◌, ◌||◌, List, [], ◌∷◌, ◌++◌, Option, none, some, arith, ltb, leb, ◌==◌, length,
}
use native.Mathlib.Nat.{mod-add-div, mod-lt, mul_comm, suc-mul, mul-le-mul_right}
use jiauliyan_os.Base.Words.{add32, mul32}
use jiauliyan_os.Libc.Number.{
  isdigit, atoi_from, atoi, digit_value, Any, nothing, digits, overflow, Parsed, ulong_max,
  add_digit, strtoul_from,
}

-- The number that a sequence of digits stands for in a base, after `acc`.
unfoldable pub horner : ℕ → ℕ → List ℕ → ℕ
horner base acc [] = acc
horner base acc (d ∷ ds) = horner base (acc * base + d) ds

-- The digits as characters.
unfoldable pub decimal : List ℕ → List ℕ
decimal [] = []
decimal (d ∷ ds) = (b'0' + d) ∷ decimal ds

abbrev pub AllBelow : ℕ → List ℕ → Type 0
AllBelow n [] = Unit
AllBelow n (d ∷ ds) = (d < n) × AllBelow n ds

-- The string begins with no digit.
abbrev pub EndsNumber : List ℕ → Type 0
EndsNumber [] = Unit
EndsNumber (c ∷ s) = isdigit c ≡ false

-- A wrap on the way is a wrap at the end.
horner_mod :
    (ds : List ℕ) (acc : ℕ)
    → horner 10 (acc % 4294967296) ds % 4294967296 ≡ horner 10 acc ds % 4294967296
unfolding horner
horner_mod [] acc = omega arith
horner_mod (d ∷ ds) acc =
    let same : (acc % 4294967296 * 10 + d) % 4294967296 ≡ (acc * 10 + d) % 4294967296 =
      omega arith in
    sym (horner_mod ds (acc % 4294967296 * 10 + d))
    ∙ ap (λ x. horner 10 x ds % 4294967296) same
    ∙ horner_mod ds (acc * 10 + d)

atoi_from_lem :
    (ds rest : List ℕ) (sum : ℕ)
    → AllBelow 10 ds
    → EndsNumber rest
    → sum < 4294967296
    → atoi_from (decimal ds ++ rest) sum ≡ horner 10 sum ds % 4294967296
unfolding atoi_from decimal horner
atoi_from_lem [] [] sum small ends fits = omega arith
atoi_from_lem [] (c ∷ s) sum small ends fits = rw ends (omega arith)
atoi_from_lem (d ∷ ds) rest sum (h, small) ends fits =
    let digit : isdigit (48 + d) ≡ true = ground arith in
    let back : 48 + d - 48 ≡ d = omega arith in
    let next : add32 (mul32 sum 10) d ≡ (sum * 10 + d) % 4294967296 = omega arith in
    rw (digit, back, next)
      (atoi_from_lem ds rest ((sum * 10 + d) % 4294967296) small ends (omega arith)
        ∙ horner_mod ds (sum * 10 + d))

-- `atoi` reads the decimal digits at the beginning of a string, up to a byte that is none, as their
-- number modulo 2^32.
pub atoi_lem :
    (ds rest : List ℕ)
    → AllBelow 10 ds
    → EndsNumber rest
    → atoi (decimal ds ++ rest) ≡ horner 10 0 ds % 4294967296
unfolding atoi
atoi_lem ds rest small ends = atoi_from_lem ds rest 0 small ends (omega arith)

horner-le : (base acc : ℕ) (ds : List ℕ) → 1 ≤ base → acc ≤ horner base acc ds
unfolding horner
horner-le base acc [] h = omega arith
horner-le base acc (d ∷ ds) h =
    let grows : acc * 1 ≤ acc * base = grind arith in
    omega (arith, horner-le base (acc * base + d) ds h)

above : (q base acc : ℕ) → suc q ≤ acc → base * q + base ≤ acc * base
above q base acc h =
    let times : suc q * base ≤ acc * base = mul-le-mul_right base h in
    let swap : suc q * base ≡ base * q + base =
      suc-mul q base ∙ ap (λ x. x + base) (mul_comm q base) in
    omega arith

bound :
    (q r base v acc : ℕ)
    → r + base * q ≡ 4294967295
    → r < base
    → acc * base + v ≤ 4294967295
    → acc ≤ q
bound q r base v acc whole low fits = elim (Bool-cases (ltb q acc)) [
  | inl e ↦ let more : suc q ≤ acc = ground arith in let big = above q base acc more in omega arith
  | inr e ↦ ground arith
]

rest_bound :
    (q r base v acc : ℕ) → r + base * q ≡ 4294967295 → acc * base + v ≤ 4294967295 → acc ≡ q → v ≤ r
rest_bound q r base v acc whole fits same =
    let swap : acc * base ≡ base * q = rw same (mul_comm q base) in omega arith

small_enough :
    (q r base v acc : ℕ)
    → r + base * q ≡ 4294967295
    → r < base
    → acc * base + v ≤ 4294967295
    → ((ltb q acc || (acc == q)) && ltb r v) ≡ false
small_enough q r base v acc whole low fits =
    let bounded : acc ≤ q = bound q r base v acc whole low fits in
    let last : acc ≡ q → v ≤ r = rest_bound q r base v acc whole fits in ground arith

-- The test of the source does not fire on a digit that fits.
fits_lem :
    (base v acc : ℕ)
    → 2 ≤ base
    → acc * base + v ≤ 4294967295
    → ((ltb (4294967295 / base) acc || (acc == 4294967295 / base)) && ltb (4294967295 % base) v)
      ≡ false
fits_lem base v acc h fits =
    small_enough (4294967295 / base) (4294967295 % base) base v acc (mod-add-div 4294967295 base)
      (mod-lt 4294967295 (omega arith)) fits

fits_sum : (x v : ℕ) → x + v ≤ 4294967295 → add32 (x % 4294967296) v ≡ x + v
fits_sum x v fits = omega arith

-- A digit that fits is added, and nothing is reported.
add_digit_fits :
    (base v : ℕ) (p : Parsed)
    → 2 ≤ base
    → p.any ≢ overflow
    → p.acc * base + v ≤ ulong_max
    → add_digit base v p ≡ record p { acc = p.acc * base + v; any = digits }
unfolding add_digit
add_digit_fits base v p h ne fits = fits_any p.any refl
  where
    fits_any :
        (y : Any)
        → p.any ≡ y
        → add_digit base v p ≡ record p { acc = p.acc * base + v; any = digits }
    fits_any overflow e = elim (ne e) [ ]
    fits_any digits e = rw (e, fits_lem base v p.acc h fits, fits_sum (p.acc * base) v fits) refl
    fits_any nothing e = rw (e, fits_lem base v p.acc h fits, fits_sum (p.acc * base) v fits) refl

-- The characters stand for these digits.
abbrev pub Reads : List ℕ → List ℕ → Type 0
Reads [] [] = Unit
Reads [] (d ∷ ds) = ⊥
Reads (c ∷ cs) [] = ⊥
Reads (c ∷ cs) (d ∷ ds) = (digit_value c ≡ some d) × Reads cs ds

-- The string goes on with no digit of the base.
abbrev pub StopsAt : ℕ → List ℕ → Type 0
StopsAt base [] = Unit
StopsAt base (c ∷ s) = (v : ℕ) → digit_value c ≡ some v → base ≤ v

-- A run that has not overflowed.
pub digits_run : digits ≢ overflow
digits_run = cc

-- The loop ends in front of the first character that is no digit of the base.
stops_lem :
    (rest : List ℕ) (base : ℕ) (p : Parsed) → StopsAt base rest → strtoul_from rest base p ≡ p
unfolding strtoul_from
stops_lem [] base p stops = refl
stops_lem (c ∷ rest) base p stops = by_value (digit_value c) refl
  where
    by_value : (o : Option ℕ) → digit_value c ≡ o → strtoul_from (c ∷ rest) base p ≡ p
    by_value none e = rw (e, strtoul_from) refl
    by_value (some v) e =
        let big : leb base v ≡ true = ground (arith, stops v e) in rw (e, strtoul_from, big) refl

-- Where the digits `ds` of a base from 2 on end at a byte that is no digit of it, no overflow came
-- before, and their number after `p.acc` fits unsigned long, the loop of `strtoul` has read that
-- number, stands behind the last digit and has left errno alone.
pub strtoul_from_lem :
    (cs ds rest : List ℕ) (base : ℕ) (p : Parsed)
    → 2 ≤ base
    → Reads cs ds
    → AllBelow base ds
    → StopsAt base rest
    → p.any ≢ overflow
    → horner base p.acc ds ≤ ulong_max
    → (let r = strtoul_from (cs ++ rest) base p in
        (r.acc ≡ horner base p.acc ds) × (r.at ≡ p.at + length ds) × (r.erange ≡ p.erange))
unfolding strtoul_from horner
strtoul_from_lem [] [] rest base p h reads low stops run fits =
    rw (stops_lem rest base p stops) (refl, omega arith, refl)
strtoul_from_lem [] (d ∷ ds) rest base p h reads low stops run fits = elim reads [ ]
strtoul_from_lem (c ∷ cs) [] rest base p h reads low stops run fits = elim reads [ ]
strtoul_from_lem (c ∷ cs) (d ∷ ds) rest base p h (e, reads) (l, low) stops run fits =
    let grown = horner-le base (p.acc * base + d) ds (omega arith) in
    let small : leb base d ≡ false = ground arith in
    let p' : Parsed = record {
      acc = p.acc * base + d;
      any = digits;
      at = p.at + 1;
      erange = p.erange;
    } in
    let step = add_digit_fits base d p h run (omega arith) in
    let (a, b, f) = strtoul_from_lem cs ds rest base p' h reads low stops digits_run fits in
    rw (e, strtoul_from, small, step) (a, omega arith, f)

-- Where no overflow came before, a digit up to `ulong_max % base` is added modulo 2^32 and errno is
-- left alone, however large the number before it is.
pub add_digit_wraps :
    (base v : ℕ) (p : Parsed)
    → v ≤ ulong_max % base
    → p.any ≢ overflow
    → add_digit base v p
      ≡ record p { acc = (p.acc * base % 4294967296 + v) % 4294967296; any = digits }
unfolding add_digit
add_digit_wraps base v p h run = by_any p.any refl
  where
    quiet : (q r acc : ℕ) → v ≤ r → ((ltb q acc || (acc == q)) && ltb r v) ≡ false
    quiet q r acc small = ground arith

    by_any :
        (y : Any)
        → p.any ≡ y
        → add_digit base v p
          ≡ record p { acc = (p.acc * base % 4294967296 + v) % 4294967296; any = digits }
    by_any overflow e = elim (run e) [ ]
    by_any digits e = rw (e, quiet (4294967295 / base) (4294967295 % base) p.acc h) refl
    by_any nothing e = rw (e, quiet (4294967295 / base) (4294967295 % base) p.acc h) refl
