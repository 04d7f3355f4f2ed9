-- ===== src/Libc/Copy.antt =====
-- Copying and filling of src/libc/string.c, over the machine's memory. Each of these functions returns
-- its first argument, so the model gives the memory that it leaves. Regions do not wrap round the top
-- of the address space, as the source says too.
pub mod Laws
use jiauliyan_os.Base.{ℕ, zero, suc, ◌+◌, ◌*◌, ◌/◌, ◌%◌, ◌≡◌, Bool, ◌&&◌, ltb, ◌==◌, if◌then◌else◌}
use jiauliyan_os.Memory.{Mem, write, store8, store16}

-- The loop of `memcpy` with `n` rounds left: `i` counts up.
memcpy_from : ℕ → ℕ → ℕ → ℕ → Mem → Mem
memcpy_from zero i dest src m = m
memcpy_from (suc n) i dest src m = memcpy_from n (i + 1) dest src (write m (dest + i) (m (src + i)))

unfoldable pub memcpy : ℕ → ℕ → ℕ → Mem → Mem
unfolding memcpy_from
memcpy dest src count m = memcpy_from count 0 dest src m

-- `d[k] = s[k]` at longs: four bytes are read, then written.
copy_long : ℕ → ℕ → Mem → Mem
copy_long d s m =
    write (write (write (write m d (m s)) (d + 1) (m (s + 1))) (d + 2) (m (s + 2))) (d + 3)
      (m (s + 3))

-- The two downward loops of `memmove`, at index `i - 1` for `i > 0`.
longs_down : ℕ → ℕ → ℕ → Mem → Mem
longs_down zero d s m = m
longs_down (suc i) d s m = longs_down i d s (copy_long (d + 4 * i) (s + 4 * i) m)

bytes_down : ℕ → ℕ → ℕ → Mem → Mem
bytes_down zero d s m = m
bytes_down (suc i) d s m = bytes_down i d s (write m (d + i) (m (s + i)))

unfoldable pub memmove : ℕ → ℕ → ℕ → Mem → Mem
unfolding memcpy longs_down bytes_down copy_long
memmove dest src count m =
    if ltb dest src
    then memcpy dest src count m
    else if (dest % 4 == 0) && (src % 4 == 0) && (count % 4 == 0)
    then longs_down (count / 4) dest src m
    else bytes_down count dest src m

memset_from : ℕ → ℕ → ℕ → ℕ → Mem → Mem
memset_from zero i dest val m = m
memset_from (suc n) i dest val m = memset_from n (i + 1) dest val (store8 m (dest + i) val)

unfoldable pub memset : ℕ → ℕ → ℕ → Mem → Mem
unfolding memset_from
memset dest val count m = memset_from count 0 dest val m

-- The index of `memsetw` is an `unsigned short`, so it wraps at 2^16. At a count of 2^16 or more the
-- loop of the source never ends; the model stops after `count + 1` rounds.
memsetw_from : ℕ → ℕ → ℕ → ℕ → ℕ → Mem → Mem
memsetw_from zero i dest val count m = m
memsetw_from (suc fuel) i dest val count m =
    let rest = memsetw_from fuel ((i + 1) % 65536) dest val count (store16 m (dest + 2 * i) val) in
    if ltb i count then rest else m

unfoldable pub memsetw : ℕ → ℕ → ℕ → Mem → Mem
unfolding memsetw_from
memsetw dest val count m = memsetw_from (count + 1) 0 dest val count m
