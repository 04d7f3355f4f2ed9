-- ===== src/Libc/Tests.antt =====
-- Runs of src/libc, and its theorems at concrete strings and regions.
use jiauliyan_os.Base.{
  ℕ, ◌+◌, ◌%◌, ◌<◌, ◌≤◌, ◌≡◌, ◌≢◌, ◌↔◌, refl, true, false, List, [], ◌∷◌, ◌++◌, some, arith, drop,
  inl, ◌==◌, if◌then◌else◌,
}
use jiauliyan_os.Base.Int.{pos, ◌-ℤ◌}
use jiauliyan_os.Memory.{Mem, write}
use jiauliyan_os.Libc.Copy.{memmove}
use jiauliyan_os.Libc.Write.{strcpy}
use jiauliyan_os.Libc.Write.Laws.{HasLength, strcpy_lem}
use jiauliyan_os.Libc.Copy.Laws.{moved, memmove_lem}
use jiauliyan_os.Libc.Compare.{IsText, strcmp}
use jiauliyan_os.Libc.Compare.Laws.{Begins, strcmp_zero_iff}
use jiauliyan_os.Libc.Search.{strchr, strrchr, is_zero, strstr}
use jiauliyan_os.Libc.Search.Laws.{strstr_misses}
use jiauliyan_os.Libc.Number.{strtoul, strtoul_from, Parsed, digits, digit_value}
use jiauliyan_os.Libc.Number.Laws.{horner, decimal, digits_run, strtoul_from_lem}

-- Each byte holds its address.
abbrev counting : Mem
counting = λ x. x % 256

abbrev hello : List ℕ
hello = b'h' ∷ b'e' ∷ b'l' ∷ b'l' ∷ b'o' ∷ []

abbrev hell : List ℕ
hell = b'h' ∷ b'e' ∷ b'l' ∷ b'l' ∷ []

abbrev vowels : List ℕ
vowels = b'a' ∷ b'e' ∷ b'i' ∷ b'o' ∷ b'u' ∷ []

-- The regions overlap and are not aligned; the same with both at multiples of 4.
move_up : memmove 103 101 5 counting 107 ≡ 105
unfolding memmove
move_up = refl

move_longs : memmove 104 100 8 counting 110 ≡ 106
unfolding memmove
move_longs = refl

memmove_lem_example : memmove 103 101 5 counting 107 ≡ moved 103 101 5 counting 107
memmove_lem_example = memmove_lem 103 101 5 counting 107

-- A string and its beginning compare as equal.
compare_beginning : strcmp hello hell ≡ pos 0
unfolding strcmp
compare_beginning = refl

hello-IsText : IsText hello
hello-IsText = ground arith

hell-IsText : IsText hell
hell-IsText = ground arith

strcmp_zero_iff_example : (strcmp hello hell ≡ pos 0) ↔ Begins hello hell
strcmp_zero_iff_example = strcmp_zero_iff hello hell hello-IsText hell-IsText

find_first_and_last : (strchr hello b'l' ≡ some 2) × (strrchr hello b'l' ≡ some 3)
unfolding strchr strrchr
find_first_and_last = (refl, refl)

-- "ell" is in "hello", and the search gives the place before it.
search_ell : strstr hello (b'e' ∷ b'l' ∷ b'l' ∷ []) ≡ some 0
unfolding strstr is_zero strcmp ◌-ℤ◌
search_ell = refl

ell-IsText : IsText (b'e' ∷ b'l' ∷ b'l' ∷ [])
ell-IsText = ground arith

strstr_misses_example : ¬ (Begins (drop 0 hello) (b'e' ∷ b'l' ∷ b'l' ∷ []))
strstr_misses_example =
    strstr_misses hello (b'e' ∷ b'l' ∷ b'l' ∷ []) 0 hello-IsText ell-IsText search_ell

-- "4294967296x"
abbrev two_to_32 : List ℕ
two_to_32 = 4 ∷ 2 ∷ 9 ∷ 4 ∷ 9 ∷ 6 ∷ 7 ∷ 2 ∷ 9 ∷ 6 ∷ []

-- " -0x1Fg" is the negation of 31; the digits end at index 6.
read_hex : strtoul (b' ' ∷ b'-' ∷ b'0' ∷ b'x' ∷ b'1' ∷ b'F' ∷ b'g' ∷ []) 0 ≡ (4294967265, 6, false)
unfolding strtoul
read_hex = refl

-- "9999999999" does not fit and is reported; "9999999995" neither fits nor is reported.
read_overflow :
    strtoul (decimal (9 ∷ 9 ∷ 9 ∷ 9 ∷ 9 ∷ 9 ∷ 9 ∷ 9 ∷ 9 ∷ 9 ∷ [])) 10 ≡ (4294967295, 10, true)
unfolding strtoul decimal
read_overflow = refl

read_unreported :
    strtoul (decimal (9 ∷ 9 ∷ 9 ∷ 9 ∷ 9 ∷ 9 ∷ 9 ∷ 9 ∷ 9 ∷ 5 ∷ [])) 10 ≡ (1410065403, 10, false)
unfolding strtoul decimal
read_unreported = refl

-- "1F" of "1Fg", behind the two characters of a prefix.
abbrev behind : Parsed
behind = record { acc = 0; any = digits; at = 2; erange = false }

g_ends : (v : ℕ) → digit_value b'g' ≡ some v → 16 ≤ v
unfolding digit_value
g_ends v e = ground arith

strtoul_from_lem_example :
    let r = strtoul_from ((b'1' ∷ b'F' ∷ []) ++ b'g' ∷ []) 16 behind in
    (r.acc ≡ horner 16 0 (1 ∷ 15 ∷ [])) × (r.at ≡ 4) × (r.erange ≡ false)
unfolding digit_value horner
strtoul_from_lem_example =
    strtoul_from_lem (b'1' ∷ b'F' ∷ []) (1 ∷ 15 ∷ []) (b'g' ∷ []) 16 behind (omega arith)
      (refl, (refl, tt)) (omega arith, (omega arith, tt)) g_ends digits_run (omega arith)

-- Nine digits 9 are read; the next one is a 5.
abbrev far : Parsed
far = record { acc = 999999999; any = digits; at = 9; erange = false }

-- "hi" at 200.
abbrev hi_memory : Mem
hi_memory = write (write (λ x. 0) 200 b'h') 201 b'i'

hi_bytes : (i : ℕ) → i < 2 → hi_memory (200 + i) ≢ 0
hi_bytes i h = ground arith

-- "hi" at 100 is moved down by one, over its own place.
abbrev hi_above : Mem
hi_above x = if x == 100 then b'h' else if x == 101 then b'i' else 0

hi_above-HasLength : HasLength hi_above 100 2
hi_above-HasLength = (λ i h. ground arith, refl)

strcpy_lem_example :
    (m' : Mem) × (strcpy 3 99 100 hi_above ≡ some m')
    × ((x : ℕ) → m' x ≡ moved 99 100 (2 + 1) hi_above x)
strcpy_lem_example =
    strcpy_lem 2 3 99 100 hi_above hi_above-HasLength (inl (omega arith)) (omega arith)
