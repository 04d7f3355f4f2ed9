-- ===== src/Libc/Compare.antt =====
-- Comparison of src/libc/string.c. A string that is only read is the list of its bytes before the
-- NUL; the bytes are not zero, and a `char` is signed.
pub mod Laws
use jiauliyan_os.Base.{
  ℕ, zero, suc, ◌+◌, ◌-◌, ◌<◌, ◌≢◌, Bool, List, [], ◌∷◌, ltb, ◌==◌, if◌then◌else◌, length,
}
use jiauliyan_os.Base.Int.{ℤ, pos, negsuc, ◌-ℤ◌}
use jiauliyan_os.Memory.{Mem}

-- the value of a `char`
abbrev pub schar : ℕ → ℤ
schar c = if ltb c 128 then pos c else negsuc (255 - c)

-- A string of the language: its bytes fit a char and none is the NUL.
abbrev pub IsText : List ℕ → Type 0
IsText [] = Unit
IsText (c ∷ s) = (c ≢ 0) × (c < 256) × IsText s

pub strlen : List ℕ → ℕ
strlen s = length s

-- The index runs while it is below both lengths. Behind the loop the second test repeats the first
-- one, so only the end of `a` before that of `b` gives a difference.
unfoldable pub strcmp : List ℕ → List ℕ → ℤ
strcmp [] [] = pos 0
strcmp [] (y ∷ b) = pos 0 -ℤ schar y
strcmp (x ∷ a) [] = pos 0
strcmp (x ∷ a) (y ∷ b) = let rest = strcmp a b in if x == y then rest else schar x -ℤ schar y

pub strcoll : List ℕ → List ℕ → ℤ
strcoll a b = strcmp a b

-- The bytes are compared as chars and subtracted as unsigned chars.
pub strncmp : List ℕ → List ℕ → ℕ → ℤ
strncmp a b zero = pos 0
strncmp [] [] (suc n) = pos 0
strncmp [] (y ∷ b) (suc n) = pos 0 -ℤ pos y
strncmp (x ∷ a) [] (suc n) = pos x -ℤ pos 0
strncmp (x ∷ a) (y ∷ b) (suc n) =
    let rest = strncmp a b n in if x == y then rest else pos x -ℤ pos y

memcmp_from : ℕ → ℕ → ℕ → ℕ → Mem → ℤ
memcmp_from zero i a b m = pos 0
memcmp_from (suc n) i a b m =
    let rest = memcmp_from n (i + 1) a b m in
    if m (a + i) == m (b + i) then rest else pos (m (a + i)) -ℤ pos (m (b + i))

pub memcmp : ℕ → ℕ → ℕ → Mem → ℤ
memcmp a b n m = memcmp_from n 0 a b m
