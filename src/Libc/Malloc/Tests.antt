-- ===== src/Libc/Malloc/Tests.antt =====
-- The allocator of src/libc/stdlib.c with 4 KB of memory at 1 MB and `base` at 4096.
use jiauliyan_os.Base.{
  ℕ, ◌+◌, ◌*◌, ◌≤◌, ◌≡◌, ◌≢◌, ◌⊎◌, inl, refl, List, [], ◌∷◌, arith, Option, none, some,
}
use jiauliyan_os.Memory.{load32, store32}
use jiauliyan_os.Libc.Malloc.{Arena, size, block_align, malloc, start, search_from, carve}
use jiauliyan_os.Libc.Malloc.Ring.{Block}
use jiauliyan_os.Libc.Malloc.Fit.{Found}
use jiauliyan_os.Libc.Malloc.Grant.{IsArena, IsGranted, AllSmaller, malloc_lem}
use jiauliyan_os.Libc.Malloc.Apart.{malloc-malloc}
use jiauliyan_os.Libc.Malloc.Start.{start-IsArena}

abbrev small_arena : Arena
small_arena = record {
  mem = λ x. 0;
  base = 4096;
  freep = 0;
  ram = record { ptr = 1048576; size = 4096 };
}

abbrev small_blocks : List Block
small_blocks = (1048576, 512) ∷ (4096, 0) ∷ []

start-IsArena_example : IsArena (start small_arena) small_blocks
start-IsArena_example =
    start-IsArena small_arena refl (omega arith, omega arith) (omega arith, omega arith)
      (inl (omega arith)) (omega arith)

small-IsArena : IsArena (start small_arena) small_blocks
small-IsArena =
    start-IsArena small_arena refl (omega arith, omega arith) (omega arith, omega arith)
      (inl (omega arith)) (omega arith)

malloc_lem_example :
    ((malloc 2 100 small_arena ≡ some (0, start small_arena))
      × AllSmaller (block_align 100) small_blocks)
    ⊎ ((f : Found) × ((r : ℕ × Arena) × (malloc 2 100 small_arena ≡ some r)
          × IsGranted (block_align 100) small_blocks f r))
malloc_lem_example =
    malloc_lem 2 100 small_arena small_blocks small-IsArena (omega arith) (omega arith)

abbrev or_null : Option (ℕ × Arena) → ℕ × Arena
or_null none = (0, small_arena)
or_null (some r) = r

abbrev first_call : ℕ × Arena
first_call = or_null (malloc 2 100 small_arena)

abbrev second_call : ℕ × Arena
second_call = or_null (malloc 2 50 (first_call.1))

first_call_done : malloc 2 100 small_arena ≡ some (first_call.0, first_call.1)
unfolding malloc start search_from carve load32 store32
first_call_done = refl

first_call_there : first_call.0 ≢ 0
unfolding malloc start search_from carve load32 store32
first_call_there = λ e. absurd (omega arith)

second_call_done : malloc 2 50 (first_call.1) ≡ some (second_call.0, second_call.1)
unfolding malloc start search_from carve load32 store32
second_call_done = refl

second_call_there : second_call.0 ≢ 0
unfolding malloc start search_from carve load32 store32
second_call_there = λ e. absurd (omega arith)

malloc-malloc_example : (first_call.0 + 100 ≤ second_call.0) ⊎ (second_call.0 + 50 ≤ first_call.0)
malloc-malloc_example =
    malloc-malloc 2 100 50 (first_call.0) (second_call.0) small_arena (first_call.1) (second_call.1)
      small_blocks small-IsArena (omega arith) (omega arith, omega arith) (omega arith, omega arith)
      first_call_done first_call_there second_call_done second_call_there

-- A block of two units at 8192 that is no free one.
abbrev held_arena : Arena
held_arena = record small_arena { mem = store32 (λ x. 0) 8196 2 }

held-IsArena : IsArena (start held_arena) small_blocks
held-IsArena =
    start-IsArena held_arena refl (omega arith, omega arith) (omega arith, omega arith)
      (inl (omega arith)) (omega arith)

held_units : size (start held_arena).mem 8192 ≡ 2
unfolding start load32 store32
held_units = refl

held_base : 8208 ≢ (start held_arena).base
unfolding start
held_base = λ e. absurd (omega arith)

first_call_below : first_call.0 + 8 * block_align 100 ≢ first_call.1.base + 1
unfolding malloc start search_from carve load32 store32
first_call_below = λ e. absurd (omega arith)
