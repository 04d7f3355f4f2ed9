-- ===== src/Libc/Write.antt =====
-- The functions of src/libc/string.c that write strings, on memory, where a string is the bytes up to
-- a NUL. A loop that only a NUL ends runs on fuel; `none` means that it still runs.
pub mod Laws
use mathlib.Core.Option
use jiauliyan_os.Base.{ℕ, zero, suc, ◌+◌, Option, none, some, ◌>>=◌, ltb, ◌==◌, if◌then◌else◌}
use jiauliyan_os.Memory.{Mem, write}
use jiauliyan_os.Libc.Copy.{memcpy}

-- `strlen` of the string at an address.
unfoldable pub length_at : ℕ → ℕ → Mem → Option ℕ
length_at zero p m = none
length_at (suc fuel) p m =
    let rest = Option.map suc (length_at fuel (p + 1) m) in if m p == 0 then some 0 else rest

pub strcpy : ℕ → (to from : ℕ) → Mem → Option Mem
strcpy zero to from m = none
strcpy (suc fuel) to from m =
    let m' = write m to (m from) in
    let rest = strcpy fuel (to + 1) (from + 1) m' in if m from == 0 then some m' else rest

-- `*d++ = 0`, `n` times
zeros : ℕ → ℕ → Mem → Mem
zeros zero d m = m
zeros (suc n) d m = zeros n (d + 1) (write m d 0)

-- With `n` bytes left; no NUL is added behind the last one.
pub strncpy : (dst src n : ℕ) → Mem → Mem
strncpy dst src zero m = m
strncpy dst src (suc n) m =
    let m' = write m dst (m src) in
    let rest = strncpy (dst + 1) (src + 1) n m' in if m src == 0 then zeros n (dst + 1) m' else rest

pub strcat : ℕ → (str1 str2 : ℕ) → Mem → Option Mem
strcat fuel str1 str2 m = do len ← length_at fuel str1 m; strcpy fuel (str1 + len) str2 m

pub strncat : ℕ → (str1 str2 n : ℕ) → Mem → Option Mem
strncat fuel str1 str2 n m = do len ← length_at fuel str1 m; some (strncpy (str1 + len) str2 n m)

-- The result is the length with its NUL.
pub strxfrm : ℕ → (s1 s2 n : ℕ) → Mem → Option (ℕ × Mem)
strxfrm fuel s1 s2 n m = do
  len ← length_at fuel s2 m
  some (len + 1, memcpy s1 s2 (if ltb (len + 1) n then len + 1 else n) m)
