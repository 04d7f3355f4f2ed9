-- ===== src/Libc/Search.antt =====
-- Searching of src/libc/string.c, over strings as lists of bytes; a pointer into the string is given
-- as the index of its byte, and `none` is the null pointer.
pub mod Laws
use mathlib.Core.Option
use jiauliyan_os.Base.{
  ℕ, zero, suc, ◌+◌, ◌-◌, Bool, true, false, ◌||◌, not, List, [], ◌∷◌, Option, none, some, ltb, leb,
  ◌==◌, if◌then◌else◌, length,
}
use jiauliyan_os.Base.Int.{ℤ, pos, negsuc}
use jiauliyan_os.Memory.{Mem}
use jiauliyan_os.Libc.Compare.{strcmp}

-- The loop of `memchr`, which the source unrolls four times, with `n` bytes left.
pub memchr : ℕ → ℕ → ℕ → Mem → Option ℕ
memchr p c zero m = none
memchr p c (suc n) m = let rest = memchr (p + 1) c n m in if m p == c then some p else rest

-- `ch` is the byte of a char. The NUL at the end is part of the string.
unfoldable pub strchr : List ℕ → ℕ → Option ℕ
strchr [] ch = if 0 == ch then some 0 else none
strchr (x ∷ s) ch = let rest = Option.map suc (strchr s ch) in if x == ch then some 0 else rest

-- `save` is the last match so far, at the index `i` of the loop.
strrchr_from : List ℕ → ℕ → ℕ → Option ℕ → Option ℕ
strrchr_from [] ch i save = if 0 == ch then some i else save
strrchr_from (x ∷ s) ch i save = strrchr_from s ch (i + 1) (if x == ch then some i else save)

unfoldable pub strrchr : List ℕ → ℕ → Option ℕ
unfolding strrchr_from
strrchr s ch = strrchr_from s ch 0 none

-- whether a byte is in the set
unfoldable pub has : List ℕ → ℕ → Bool
has [] c = false
has (x ∷ s) c = (x == c) || has s c

pub strcspn : List ℕ → List ℕ → ℕ
strcspn [] s2 = 0
strcspn (c ∷ s) s2 = let rest = suc (strcspn s s2) in if has s2 c then 0 else rest

pub strspn : List ℕ → List ℕ → ℕ
strspn [] s2 = 0
strspn (c ∷ s) s2 = let rest = suc (strspn s s2) in if has s2 c then rest else 0

pub strpbrk : List ℕ → List ℕ → Option ℕ
strpbrk [] s2 = none
strpbrk (c ∷ s) s2 = let rest = Option.map suc (strpbrk s s2) in if has s2 c then some 0 else rest

unfoldable pub is_zero : ℤ → Bool
is_zero (pos n) = n == 0
is_zero (negsuc n) = false

-- The first place where the rest of `s1` is as long as `s2` and `strcmp` tells them apart.
unfoldable pub strstr : List ℕ → List ℕ → Option ℕ
strstr [] s2 =
    if leb (length s2) 0 then (if not (is_zero (strcmp [] s2)) then some 0 else none) else none
strstr (c ∷ s) s2 =
    let rest = Option.map suc (strstr s s2) in
    if leb (length s2) (suc (length s))
    then (if not (is_zero (strcmp (c ∷ s) s2)) then some 0 else rest)
    else none
