-- ===== src/Libc/Malloc.antt =====
-- The allocator of src/libc/stdlib.c: a ring of free blocks in memory, each with a header of two words,
-- the address of the next one and the size in units of 8 bytes, the size of a header (`aligned` stands
-- behind the typedef's name, so it raises the alignment and not the size). A pointer is an address, and
-- 0 is null.
pub mod Ring
pub mod Fit
pub mod Carve
pub mod Split
pub mod Take
pub mod Grant
pub mod Start
pub mod Apart
pub mod Place
pub mod Insert
pub mod Lower
pub mod Free
mod Tests
use jiauliyan_os.Base.{
  ℕ, zero, suc, ◌+◌, ◌-◌, ◌*◌, ◌/◌, ◌%◌, Bool, true, ◌&&◌, ◌||◌, Option, none, some, ◌>>=◌, ltb,
  leb, ◌==◌, if◌then◌else◌,
}
use jiauliyan_os.Base.Words.{add32, sub32, mul32}
use jiauliyan_os.Memory.{Mem, load32, store32}
use jiauliyan_os.Libc.Copy.{memcpy, memset}
use jiauliyan_os.Drivers.Ram.{Ram}

-- The memory, the address of the static `base`, `freep`, and what `memory_ptr` and `memory_size` give.
pub record Arena : Type 0 where
  pub mem : Mem
  pub base : ℕ
  pub freep : ℕ
  pub ram : Ram

-- The fields of the header at `p`.
abbrev pub next : Mem → ℕ → ℕ
next m p = load32 m p

abbrev pub size : Mem → ℕ → ℕ
size m p = load32 m (p + 4)

abbrev pub set_next : ℕ → ℕ → Mem → Mem
set_next p v m = store32 m p v

abbrev pub set_size : ℕ → ℕ → Mem → Mem
set_size p v m = store32 m (p + 4) v

-- `BLOCK_ALIGN`: the units for some bytes and a header.
abbrev pub block_align : ℕ → ℕ
block_align nbytes = add32 nbytes 7 / 8 + 1

-- `((void *) B+1)`: the cast is applied first, and a step of a `void *` is one byte.
abbrev pub block_ptr : ℕ → ℕ
block_ptr b = add32 b 1

-- `(((Header *) B)-1)`: a step of a `Header *` is 8 bytes.
abbrev pub ptr_block : ℕ → ℕ
ptr_block b = sub32 b 8

-- `b + b->size`, the header behind a block.
abbrev pub block_end : Mem → ℕ → ℕ
block_end m b = add32 b (mul32 8 (size m b))

-- The first call makes a ring of `base`, which is empty, and of the whole memory.
pub start : Arena → Arena
start a =
    let e = a.ram.ptr in
    let m = set_size e (a.ram.size / 8) (set_next e a.base a.mem) in
    if a.freep == 0
    then record a { mem = set_size a.base 0 (set_next a.base e m); freep = a.base }
    else a

-- A block that is large enough leaves the ring, or gives its tail. The block taken, and the memory.
pub carve : (prevp p nunits : ℕ) → Mem → ℕ × Mem
carve prevp p nunits m =
    let m' = set_size p (sub32 (size m p) nunits) m in
    let q = block_end m' p in
    if size m p == nunits then (p, set_next prevp (next m p) m) else (q, set_size q nunits m')

-- The loop of `malloc`: the pointer, the new `freep` and the memory. `none`: it still runs.
pub search_from : ℕ → (nunits freep prevp p : ℕ) → Mem → Option (ℕ × ℕ × Mem)
search_from zero nunits freep prevp p m = none
search_from (suc fuel) nunits freep prevp p m = elim (leb nunits (size m p)) [
  | true ↦ let r = carve prevp p nunits m in some (block_ptr r.0, prevp, r.1)
  | _ ↦ elim (p == freep) [
    | true ↦ some (0, freep, m)
    | _ ↦ search_from fuel nunits freep p (next m p) m
  ]
]

pub malloc : ℕ → ℕ → Arena → Option (ℕ × Arena)
malloc fuel nbytes a =
    let a' = start a in
    let run =
      search_from fuel (block_align nbytes) a'.freep a'.freep (next a'.mem a'.freep) a'.mem in
    if nbytes == 0
    then some (0, a)
    else (do r ← run; some (r.0, record a' { freep = r.1; mem = r.2 }))

-- The place in the ring for the block `bp`: between two neighbours, or at the ring's seam.
pub find_place : ℕ → ℕ → ℕ → Mem → Option ℕ
find_place zero bp p m = none
find_place (suc fuel) bp p m =
    let n = next m p in
    elim ((ltb p bp && ltb bp n) || (leb n p && (ltb p bp || ltb bp n))) [
      | true ↦ some p
      | _ ↦ find_place fuel bp n m
    ]

-- The block `bp` goes behind `p`, and is joined to the neighbour above and to `p`.
pub join_upper : ℕ → ℕ → Mem → Mem
join_upper bp p m =
    let m' = set_size bp (add32 (size m bp) (size m (next m p))) m in
    if block_end m bp == next m p
    then set_next bp (next m' (next m' p)) m'
    else set_next bp (next m p) m

pub join_lower : ℕ → ℕ → Mem → Mem
join_lower bp p m =
    let m' = set_size p (add32 (size m p) (size m bp)) m in
    if block_end m p == bp then set_next p (next m' bp) m' else set_next p bp m

pub insert_block : ℕ → ℕ → Mem → Mem
insert_block bp p m = join_lower bp p (join_upper bp p m)

pub free : ℕ → ℕ → Arena → Option Arena
free fuel ap a = if ap == 0 then some a else (do
  p ← find_place fuel (ptr_block ap) a.freep a.mem
  some (record a { mem = insert_block (ptr_block ap) p a.mem; freep = p }))

-- The bytes of the old block, at most as many as the new one has, and zeros behind them. The count of
-- `memset` is an int, so a large one is negative and fills nothing.
move_block : (newptr ptr nbytes : ℕ) → Mem → Mem
move_block newptr ptr nbytes m =
    let bsize = mul32 (sub32 (size m (ptr_block ptr)) 1) 8 in
    let dsize = if ltb bsize nbytes then bsize else nbytes in
    let more = nbytes - dsize in
    memset (add32 newptr dsize) 0 (if leb 0x80000000 more then 0 else more)
      (memcpy newptr ptr dsize m)

-- No test asks whether `malloc` gave null.
pub realloc : ℕ → (ptr nbytes : ℕ) → Arena → Option (ℕ × Arena)
realloc fuel ptr nbytes a = do
  (newptr, a') ← malloc fuel nbytes a
  a'' ←
      if ptr == 0
      then some a'
      else free fuel ptr (record a' { mem = move_block newptr ptr nbytes a'.mem })
  some (newptr, a'')
