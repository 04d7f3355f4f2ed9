-- ===== src/Libc/Malloc/Start.antt =====
-- The first call of `malloc` of src/libc/stdlib.c.
use jiauliyan_os.Base.{
  ℕ, ◌+◌, ◌*◌, ◌/◌, ◌≤◌, ◌<◌, ◌≡◌, ◌⊎◌, inl, inr, refl, ◌∙◌, [], ◌∷◌, arith, ◌==◌, true,
}
use jiauliyan_os.Memory.{Mem, load32}
use jiauliyan_os.Memory.Laws.{load32-store32_self, load32-store32_apart}
use jiauliyan_os.Libc.Malloc.{Arena, start, next, size, set_next, set_size}
use jiauliyan_os.Libc.Malloc.Ring.{span}
use jiauliyan_os.Libc.Malloc.Carve.{small_mod}
use jiauliyan_os.Libc.Malloc.Grant.{IsArena}

-- The four writes of the first call.
start_mem : ℕ → ℕ → ℕ → Mem → Mem
start_mem e b units m = set_size b 0 (set_next b e (set_size e units (set_next e b m)))

module _ (e b units : ℕ) (m : Mem) (apart : (b + 8 ≤ e) ⊎ (e + 8 ≤ b)) where
  start-next_root : e < 4294967296 → next (start_mem e b units m) b ≡ e
  unfolding start_mem
  start-next_root small =
      load32-store32_apart (set_next b e (set_size e units (set_next e b m))) (b + 4) 0 b
        (omega arith)
      ∙ load32-store32_self (set_size e units (set_next e b m)) b e
      ∙ small_mod e small

  start-size_root : size (start_mem e b units m) b ≡ 0
  unfolding start_mem
  start-size_root = load32-store32_self (set_next b e (set_size e units (set_next e b m))) (b + 4) 0

  behind_root :
      (p : ℕ)
      → (b + 8 ≤ p) ⊎ (p + 4 ≤ b)
      → load32 (start_mem e b units m) p ≡ load32 (set_size e units (set_next e b m)) p
  unfolding start_mem
  behind_root p off =
      load32-store32_apart (set_next b e (set_size e units (set_next e b m))) (b + 4) 0 p
        (omega arith)
      ∙ load32-store32_apart (set_size e units (set_next e b m)) b e p (omega arith)

  start-next_memory : b < 4294967296 → next (start_mem e b units m) e ≡ b
  start-next_memory small =
      behind_root e (omega arith)
      ∙ load32-store32_apart (set_next e b m) (e + 4) units e (omega arith)
      ∙ load32-store32_self m e b
      ∙ small_mod b small

  start-size_memory : units < 4294967296 → size (start_mem e b units m) e ≡ units
  start-size_memory small =
      behind_root (e + 4) (omega arith)
      ∙ load32-store32_self (set_next e b m) (e + 4) units
      ∙ small_mod units small

-- The first call of `malloc` makes a ring of two blocks, the whole memory and the empty root, where
-- the memory has 8 bytes or more, begins above 0, ends below 4 GB and is apart from the root.
pub start-IsArena :
    (a : Arena)
    → a.freep ≡ 0
    → (0 < a.ram.ptr) × (a.ram.ptr + a.ram.size < 4294967296)
    → (0 < a.base) × (a.base + 8 < 4294967296)
    → (a.base + 8 ≤ a.ram.ptr) ⊎ (a.ram.ptr + a.ram.size ≤ a.base)
    → 8 ≤ a.ram.size
    → IsArena (start a) ((a.ram.ptr, a.ram.size / 8) ∷ (a.base, 0) ∷ [])
unfolding start start_mem
start-IsArena a fresh (some_ptr, ptr_fits) (some_base, base_fits) off large =
    let e = a.ram.ptr in
    let b = a.base in
    let u = a.ram.size / 8 in
    let apart : (b + 8 ≤ e) ⊎ (e + 8 ≤ b) = omega arith in
    let on : (a.freep == 0) ≡ true = ground arith in
    let wide : span u ≡ 8 * u = ground arith in
    rw on (record {
      ring = record {
        links = (
          start-next_root e b u a.mem apart (omega arith),
          start-size_memory e b u a.mem apart (omega arith),
          (
            start-next_memory e b u a.mem apart (omega arith),
            start-size_root e b u a.mem apart,
            refl,
          ),
        );
        apart = ((omega (arith, wide), tt), (tt, tt));
        fit = (some_ptr, omega (arith, wide), (some_base, base_fits, tt));
      };
      root = inr (inl (refl, refl));
    })
