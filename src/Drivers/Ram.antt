-- ===== src/Drivers/Ram.antt =====
-- The choice of the memory that `malloc` manages (src/drivers/memory.c), from the boot loader's map: a
-- sequence of packed entries of a size, a base, a length and a type.
mod Tests
use mathlib.Core.List.{foldl}
use jiauliyan_os.Base.{
  ℕ, zero, suc, ◌+◌, ◌*◌, ◌%◌, ◌≤◌, ◌<◌, ◌≡◌, ◌⊎◌, refl, Bool-cases, inl, inr, true, false, List,
  [], ◌∷◌, Option, none, some, arith, ltb, if◌then◌else◌, length,
}
use jiauliyan_os.Base.Words.{add32}
use jiauliyan_os.Memory.{Mem, load32, load64}

-- `ptr` and `size`.
pub record Ram : Type 0 where
  pub ptr : ℕ
  pub size : ℕ

abbrev pub no_ram : Ram
no_ram = record { ptr = 0; size = 0 }

-- A longer piece of memory replaces the one so far; its address is cut to 32 bits.
unfoldable pub pick : ℕ → ℕ → Ram → Ram
pick addr len r = if ltb r.size len then record { ptr = addr % 4294967296; size = len } else r

-- The loop of `memory_init`, which steps to the next entry before it looks at one. `none`: it still
-- runs after `fuel` rounds.
unfoldable pub memory_from : ℕ → Mem → ℕ → ℕ → Ram → Option Ram
memory_from zero m end mmap r = none
memory_from (suc fuel) m end mmap r =
    let next = add32 (add32 mmap (load32 m mmap)) 4 in
    let rest = memory_from fuel m end next (pick (load64 m (next + 4)) (load64 m (next + 12)) r) in
    if ltb mmap end then rest else some r

unfoldable pub memory_init : ℕ → Mem → (mmap_addr mmap_length : ℕ) → Ram → Option Ram
memory_init fuel m mmap_addr mmap_length r =
    memory_from fuel m (add32 mmap_addr mmap_length) mmap_addr r

-- An entry of the map.
pub record Entry : Type 0 where
  pub size : ℕ
  pub addr : ℕ
  pub len : ℕ

-- The entries stand one behind the other from an address on, below 4 GB, each before `end` but the
-- last, which is not.
abbrev pub Lays : Mem → ℕ → ℕ → Entry → List Entry → Type 0
Lays m end a e [] = end ≤ a
Lays m end a e (f ∷ es) =
    (a < end)
    × (load32 m a ≡ e.size)
    × (a + e.size + 4 < 4294967296)
    × (load64 m (a + e.size + 4 + 4) ≡ f.addr)
    × (load64 m (a + e.size + 4 + 12) ≡ f.len)
    × Lays m end (a + e.size + 4) f es

unfoldable pub pick_all : List Entry → Ram → Ram
pick_all [] r = r
pick_all (e ∷ es) r = pick_all es (pick e.addr e.len r)

memory_from_lem :
    (es : List Entry) (e : Entry) (fuel : ℕ) (m : Mem) (end a : ℕ) (r : Ram)
    → Lays m end a e es
    → length es < fuel
    → memory_from fuel m end a r ≡ some (pick_all es r)
unfolding memory_from pick_all
memory_from_lem es e zero m end a r lays enough = absurd (omega arith)
memory_from_lem [] e (suc fuel) m end a r lays enough = ground arith
memory_from_lem (f ∷ es) e (suc fuel) m end a r (before, size, low, addr, len, rest) enough =
    let more : ltb a end ≡ true = ground arith in
    let step : add32 (add32 a e.size) 4 ≡ a + e.size + 4 = omega arith in
    rw (more, size, step, addr, len)
      (memory_from_lem es f fuel m end (a + e.size + 4) (pick f.addr f.len r) rest (omega arith))

-- What `memory_init` chooses from a map that begins with the entry `e` and goes on with `es`: the
-- longest piece among `es`. The first entry is never looked at, and the last of `es`, which the loop
-- reads too, stands at or behind the end of the map.
pub memory_init_lem :
    (es : List Entry) (e : Entry) (fuel : ℕ) (m : Mem) (mmap_addr mmap_length : ℕ)
    → mmap_addr + mmap_length < 4294967296
    → Lays m (mmap_addr + mmap_length) mmap_addr e es
    → length es < fuel
    → memory_init fuel m mmap_addr mmap_length no_ram ≡ some (pick_all es no_ram)
unfolding memory_init
memory_init_lem es e fuel m mmap_addr mmap_length low lays enough =
    let stop : add32 mmap_addr mmap_length ≡ mmap_addr + mmap_length = omega arith in
    rw stop (memory_from_lem es e fuel m (mmap_addr + mmap_length) mmap_addr no_ram lays enough)

-- No piece of a list is longer than the chosen one, and the choice is a piece of the list.
abbrev pub AllShorter : List Entry → Ram → Type 0
AllShorter [] r = Unit
AllShorter (e ∷ es) r = (e.len ≤ r.size) × AllShorter es r

abbrev pub IsPiece : Ram → List Entry → Type 0
IsPiece r [] = r ≡ no_ram
IsPiece r (e ∷ es) = (r ≡ record { ptr = e.addr % 4294967296; size = e.len }) ⊎ IsPiece r es

size-pick_all : (es : List Entry) (r : Ram) → r.size ≤ (pick_all es r).size
unfolding pick_all pick
size-pick_all [] r = omega arith
size-pick_all (e ∷ es) r = ground (arith, size-pick_all es (pick e.addr e.len r))

AllShorter-pick_all : (es : List Entry) (r : Ram) → AllShorter es (pick_all es r)
unfolding pick_all pick
AllShorter-pick_all [] r = tt
AllShorter-pick_all (e ∷ es) r = (
  ground (arith, size-pick_all es (pick e.addr e.len r)),
  AllShorter-pick_all es (pick e.addr e.len r),
)

-- A list whose pick is the start value, or a piece.
pick_all-cases : (es : List Entry) (r : Ram) → (pick_all es r ≡ r) ⊎ IsPiece (pick_all es r) es
unfolding pick_all pick
pick_all-cases [] r = inl refl
pick_all-cases (e ∷ es) r = ground (arith, pick_all-cases es (pick e.addr e.len r))

-- Where a map of the boot loader, below 4 GB, begins with the entry `e` and goes on with the entries
-- `es`, of which the last stands at or behind its end, `memory_init` ends after a round for each of
-- `es` and a last test, and chooses a longest piece among `es`, or nothing. The entry `e` does not
-- count.
pub memory_init_longest :
    (es : List Entry) (e : Entry) (fuel : ℕ) (m : Mem) (mmap_addr mmap_length : ℕ)
    → mmap_addr + mmap_length < 4294967296
    → Lays m (mmap_addr + mmap_length) mmap_addr e es
    → length es < fuel
    → (r : Ram) × (memory_init fuel m mmap_addr mmap_length no_ram ≡ some r)
      × AllShorter es r
      × ((r ≡ no_ram) ⊎ IsPiece r es)
memory_init_longest es e fuel m mmap_addr mmap_length low lays enough = (
  pick_all es no_ram,
  memory_init_lem es e fuel m mmap_addr mmap_length low lays enough,
  AllShorter-pick_all es no_ram,
  pick_all-cases es no_ram,
)
