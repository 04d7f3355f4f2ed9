-- ===== src/Libc/Search/Laws.antt =====
-- What the searches of src/libc/string.c find.
use mathlib.Core.Option
use jiauliyan_os.Base.{
  ℕ, zero, suc, ◌+◌, ◌≤◌, ◌<◌, ◌≡◌, ◌≢◌, refl, Bool-cases, inl, inr, true, false, List, [], ◌∷◌,
  Option, none, some, arith, ltb, leb, ◌==◌, if◌then◌else◌, length, take, drop,
}
use jiauliyan_os.Base.Int.{ℤ, pos}
use jiauliyan_os.Memory.{Mem}
use jiauliyan_os.Libc.Compare.{IsText, strcmp}
use jiauliyan_os.Libc.Compare.Laws.{Begins, strcmp_zero_iff}
use jiauliyan_os.Libc.Search.{memchr, has, strcspn, strspn, strpbrk, is_zero, strstr}

-- The first byte of the region that equals `c`, or that there is none.
abbrev pub IsFirst : Mem → ℕ → ℕ → ℕ → Option ℕ → Type 0
IsFirst m p c n none = (x : ℕ) → p ≤ x → x < p + n → m x ≢ c
IsFirst m p c n (some q) = (p ≤ q) × (q < p + n) × (m q ≡ c) × ((x : ℕ) → p ≤ x → x < q → m x ≢ c)

-- `memchr` gives the first place in the region that holds the byte, and null exactly where there is
-- none.
pub memchr-IsFirst : (p c n : ℕ) (m : Mem) → IsFirst m p c n (memchr p c n m)
unfolding memchr
memchr-IsFirst p c zero m = λ x lo hi. absurd (omega arith)
memchr-IsFirst p c (suc n) m = elim (Bool-cases (m p == c)) [
  | inl e ↦ rw e (omega arith, omega arith, ground arith, λ x lo hi. absurd (omega arith))
  | inr e ↦ rw e (later (memchr (p + 1) c n m) (memchr-IsFirst (p + 1) c n m) (ground arith))
]
  where
    later : (o : Option ℕ) → IsFirst m (p + 1) c n o → m p ≢ c → IsFirst m p c (suc n) o
    later none h ne = λ x lo hi. elim (Bool-cases (x == p)) [
      | inl at ↦ ground arith
      | inr off ↦ h x (ground arith) (omega arith)
    ]
    later (some q) h ne = (
      omega (arith, h.0),
      omega (arith, h.1),
      h.2,
      λ x lo hi. elim (Bool-cases (x == p)) [
        | inl at ↦ ground arith
        | inr off ↦ h.3 x (ground arith) hi
      ],
    )

-- No byte of the string is in the set, or each one is.
abbrev pub NoneIn : List ℕ → List ℕ → Type 0
NoneIn set [] = Unit
NoneIn set (c ∷ s) = (has set c ≡ false) × NoneIn set s

abbrev pub AllIn : List ℕ → List ℕ → Type 0
AllIn set [] = Unit
AllIn set (c ∷ s) = (has set c ≡ true) × AllIn set s

-- The string from an index on is at its end, or goes on with a byte that is in the set or is not.
abbrev pub StopsIn : List ℕ → List ℕ → Type 0
StopsIn set [] = Unit
StopsIn set (c ∷ s) = has set c ≡ true

abbrev pub StopsOut : List ℕ → List ℕ → Type 0
StopsOut set [] = Unit
StopsOut set (c ∷ s) = has set c ≡ false

-- `strcspn` is the length of the longest beginning of a string with no byte of the set.
pub strcspn_lem :
    (s set : List ℕ) → NoneIn set (take (strcspn s set) s) × StopsIn set (drop (strcspn s set) s)
unfolding strcspn
strcspn_lem [] set = (tt, tt)
strcspn_lem (c ∷ s) set = elim (Bool-cases (has set c)) [
  | inl e ↦ rw e (tt, e)
  | inr e ↦ rw e ((e, (strcspn_lem s set).0), (strcspn_lem s set).1)
]

-- `strspn` is the length of the longest beginning of a string with bytes of the set only.
pub strspn_lem :
    (s set : List ℕ) → AllIn set (take (strspn s set) s) × StopsOut set (drop (strspn s set) s)
unfolding strspn
strspn_lem [] set = (tt, tt)
strspn_lem (c ∷ s) set = elim (Bool-cases (has set c)) [
  | inl e ↦ rw e ((e, (strspn_lem s set).0), (strspn_lem s set).1)
  | inr e ↦ rw e (tt, e)
]

-- `strpbrk` points where `strcspn` ends, and is null where that is the end of the string.
pub strpbrk-strcspn :
    (s set : List ℕ)
    → strpbrk s set ≡ (if ltb (strcspn s set) (length s) then some (strcspn s set) else none)
unfolding strpbrk strcspn
strpbrk-strcspn [] set = ground arith
strpbrk-strcspn (c ∷ s) set = ground (arith, strpbrk-strcspn s set)

is_zero_lem : (z : ℤ) → z ≡ pos 0 → is_zero z ≡ true
unfolding is_zero
is_zero_lem z e = rw e refl

map-suc : (o : Option ℕ) {i : ℕ} → Option.map suc o ≡ some i → (j : ℕ) × (o ≡ some j) × (i ≡ suc j)
map-suc none h = cc
map-suc (some j) h = (j, refl, ground arith)

-- Where `strstr` gives a place in a string, the string does not go on with the one looked for there:
-- its test is the wrong way round.
pub strstr_misses :
    (s1 s2 : List ℕ) (i : ℕ)
    → IsText s1
    → IsText s2
    → strstr s1 s2 ≡ some i
    → ¬ (Begins (drop i s1) s2)
unfolding strstr
strstr_misses [] [] i t1 t2 found =
    let same = is_zero_lem (strcmp [] []) ((strcmp_zero_iff [] [] t1 t2).1 tt) in
    cc (rw same at found)
strstr_misses [] (y ∷ b) i t1 t2 found =
    let short : leb (length (y ∷ b)) 0 ≡ false = ground arith in cc (rw short at found)
strstr_misses (c ∷ s) s2 i t1 t2 found =
    let test = strcmp_zero_iff (c ∷ s) s2 t1 t2 in
    elim (Bool-cases (leb (length s2) (suc (length s)))) [
      | inr short ↦ cc (rw short at found)
      | inl long ↦ elim (Bool-cases (is_zero (strcmp (c ∷ s) s2))) [
        | inl same ↦
            let (j, later, e) = map-suc (strstr s s2) (rw (long, same) at found) in
            rw e (strstr_misses s s2 j t1.2 t2 later)
        | inr differs ↦ λ b.
            let start : i ≡ 0 = ground (arith, rw (long, differs) at found) in
            let same = is_zero_lem (strcmp (c ∷ s) s2) (test.1 (rw start at b)) in cc
      ]
    ]
