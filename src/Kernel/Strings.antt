-- ===== src/Kernel/Strings.antt =====
-- `strlcpy` and `strlcat` of src/kernel/stream.c, on memory. A loop that only a NUL ends runs on fuel;
-- `none` means that it still runs.
mod Tests
use jiauliyan_os.Base.{ℕ, zero, suc, ◌+◌, ◌-◌, Option, none, some, ◌>>=◌, ◌==◌, if◌then◌else◌}
use jiauliyan_os.Memory.{Mem, write}
use jiauliyan_os.Libc.Write.{length_at}

-- The copying loop with room for `n` bytes and a NUL, after `k` bytes.
copy_from : ℕ → (n d s k : ℕ) → Mem → Option (ℕ × Mem)
copy_from fuel zero d s k m = do len ← length_at fuel s (write m d 0); some (k + len, write m d 0)
copy_from fuel (suc n) d s k m =
    let m' = write m d (m s) in
    let rest = copy_from fuel n (d + 1) (s + 1) (k + 1) m' in
    if m s == 0 then some (k, m') else rest

-- The result is the length of the source.
pub strlcpy : ℕ → (dst src siz : ℕ) → Mem → Option (ℕ × Mem)
strlcpy fuel dst src zero m = do len ← length_at fuel src m; some (len, m)
strlcpy fuel dst src (suc n) m = copy_from fuel n dst src 0 m

-- The end of the string at an address, at most `n` bytes away.
end_within : ℕ → ℕ → Mem → ℕ
end_within zero d m = 0
end_within (suc n) d m = let rest = suc (end_within n (d + 1) m) in if m d == 0 then 0 else rest

append_from : ℕ → (n d s k : ℕ) → Mem → Option (ℕ × Mem)
append_from zero n d s k m = none
append_from (suc fuel) n d s k m =
    let skipped = append_from fuel n d (s + 1) (k + 1) m in
    let copied = append_from fuel (n - 1) (d + 1) (s + 1) (k + 1) (write m d (m s)) in
    if m s == 0 then some (k, write m d 0) else if n == 1 then skipped else copied

-- The result is the length of both.
pub strlcat : ℕ → (dst src siz : ℕ) → Mem → Option (ℕ × Mem)
strlcat fuel dst src siz m =
    let dlen = end_within siz dst m in
    let n = siz - dlen in
    if n == 0
    then (do len ← length_at fuel src m; some (dlen + len, m))
    else append_from fuel n (dst + dlen) src dlen m
