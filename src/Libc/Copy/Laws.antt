-- ===== src/Libc/Copy/Laws.antt =====
-- What src/libc/string.c copies and fills, address by address.
use jiauliyan_os.Base.{
  ℕ, zero, suc, ◌+◌, ◌-◌, ◌*◌, ◌/◌, ◌%◌, ◌≤◌, ◌<◌, ◌≡◌, ◌⊎◌, inl, inr, ◌&&◌, arith, ltb, leb, ◌==◌,
  if◌then◌else◌, Bool-cases,
}
use jiauliyan_os.Memory.{Mem, write, store8, store16}
use jiauliyan_os.Libc.Copy.{
  memcpy_from, memcpy, copy_long, longs_down, bytes_down, memmove, memset_from, memset,
  memsetw_from, memsetw,
}

-- `count` bytes moved from `src` to `dest`, all at once.
unfoldable pub moved : ℕ → ℕ → ℕ → Mem → Mem
moved dest src count m x = if leb dest x && ltb x (dest + count) then m (src + (x - dest)) else m x

memcpy_from_lem :
    (n i dest src : ℕ) (m : Mem) (x : ℕ)
    → (dest ≤ src) ⊎ (src + (i + n) ≤ dest)
    → memcpy_from n i dest src m x
      ≡ (if leb (dest + i) x && ltb x (dest + i + n) then m (src + (x - dest)) else m x)
unfolding memcpy_from
memcpy_from_lem zero i dest src m x h = ground arith
memcpy_from_lem (suc n) i dest src m x h =
    ground
      (arith, memcpy_from_lem n (i + 1) dest src (write m (dest + i) (m (src + i))) x (omega arith))

-- `memcpy` copies forwards, which is right where the regions do not overlap, and where the source
-- overlaps from above.
pub memcpy_lem :
    (dest src count : ℕ) (m : Mem) (x : ℕ)
    → (dest ≤ src) ⊎ (src + count ≤ dest)
    → memcpy dest src count m x ≡ moved dest src count m x
unfolding memcpy moved
memcpy_lem dest src count m x h = ground (arith, memcpy_from_lem count 0 dest src m x)

bytes_down_lem :
    (n dest src : ℕ) (m : Mem) (x : ℕ)
    → src ≤ dest
    → bytes_down n dest src m x ≡ moved dest src n m x
unfolding bytes_down moved
bytes_down_lem zero dest src m x h = ground arith
bytes_down_lem (suc n) dest src m x h =
    ground (arith, bytes_down_lem n dest src (write m (dest + n) (m (src + n))) x h)

longs_down_lem :
    (n dest src : ℕ) (m : Mem) (x : ℕ)
    → src ≤ dest
    → dest % 4 ≡ 0
    → src % 4 ≡ 0
    → longs_down n dest src m x ≡ moved dest src (4 * n) m x
unfolding longs_down moved copy_long
longs_down_lem zero dest src m x h p q = ground arith
longs_down_lem (suc n) dest src m x h p q =
    ground (arith, longs_down_lem n dest src (copy_long (dest + 4 * n) (src + 4 * n) m) x h)

-- `memmove` is right however the regions overlap: every byte of the destination is what the source
-- held before the call, and no other byte changes.
pub memmove_lem :
    (dest src count : ℕ) (m : Mem) (x : ℕ) → memmove dest src count m x ≡ moved dest src count m x
unfolding memmove
memmove_lem dest src count m x = ground (
  arith,
  memcpy_lem dest src count m x,
  bytes_down_lem count dest src m x,
  longs_down_lem (count / 4) dest src m x,
  quarters,
)
  where
    quarters : count % 4 ≡ 0 → 4 * (count / 4) ≡ count
    quarters h = omega arith

-- `count` bytes of the value `val`.
unfoldable pub filled : ℕ → ℕ → ℕ → Mem → Mem
filled dest val count m x = if leb dest x && ltb x (dest + count) then val % 256 else m x

memset_from_lem :
    (n i dest val : ℕ) (m : Mem) (x : ℕ)
    → memset_from n i dest val m x ≡ filled (dest + i) val n m x
unfolding memset_from filled
memset_from_lem zero i dest val m x = ground arith
memset_from_lem (suc n) i dest val m x =
    ground (arith, memset_from_lem n (i + 1) dest val (store8 m (dest + i) val) x)

-- `memset` fills exactly the region with the low byte of the value.
pub memset_lem :
    (dest val count : ℕ) (m : Mem) (x : ℕ) → memset dest val count m x ≡ filled dest val count m x
unfolding memset filled
memset_lem dest val count m x = ground (arith, memset_from_lem count 0 dest val m x)

-- `count` words of the value `val`.
unfoldable pub filled_words : ℕ → ℕ → ℕ → Mem → Mem
filled_words dest val count m x =
    if leb dest x && ltb x (dest + 2 * count)
    then (if (x - dest) % 2 == 0 then val % 256 else val / 256 % 256)
    else m x

memsetw_from_lem :
    (fuel i dest val count : ℕ) (m : Mem) (x : ℕ)
    → i ≤ count
    → count < 65536
    → count < i + fuel
    → memsetw_from fuel i dest val count m x ≡ (
        if leb (dest + 2 * i) x && ltb x (dest + 2 * count)
        then (if (x - dest) % 2 == 0 then val % 256 else val / 256 % 256)
        else m x)
unfolding memsetw_from store16
memsetw_from_lem zero i dest val count m x lo small enough = absurd (omega arith)
memsetw_from_lem (suc fuel) i dest val count m x lo small enough = elim (Bool-cases (ltb i count)) [
  | inl more ↦ rw more (
      ground (
        arith,
        memsetw_from_lem fuel ((i + 1) % 65536) dest val count (store16 m (dest + 2 * i) val) x
            (ground arith) small (ground arith),
      ))
  | inr over ↦ rw over (ground arith)
]

-- Below 2^16 words `memsetw` ends and fills exactly the region.
pub memsetw_lem :
    (dest val count : ℕ) (m : Mem) (x : ℕ)
    → count < 65536
    → memsetw dest val count m x ≡ filled_words dest val count m x
unfolding memsetw filled_words
memsetw_lem dest val count m x small =
    ground (arith, memsetw_from_lem (count + 1) 0 dest val count m x)
