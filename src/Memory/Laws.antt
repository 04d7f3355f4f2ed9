-- ===== src/Memory/Laws.antt =====
-- What a load sees of a store: the word itself, or, apart from it, what was there before.
use jiauliyan_os.Base.{ℕ, ◌+◌, ◌%◌, ◌≤◌, ◌<◌, ◌≡◌, ◌⊎◌, arith}
use jiauliyan_os.Memory.{Mem, load16, store16, load32, store32}

module _ (m : Mem) (a v : ℕ) where
  pub load16-store16_self : load16 (store16 m a v) a ≡ v % 65536
  unfolding load16 store16
  load16-store16_self = ground arith

  pub load32-store32_self : load32 (store32 m a v) a ≡ v % 4294967296
  unfolding load32 store32
  load32-store32_self = ground arith

  -- A store changes nothing but its own bytes.
  pub store16_frame : (x : ℕ) → (x < a) ⊎ (a + 2 ≤ x) → store16 m a v x ≡ m x
  unfolding store16
  store16_frame x h = ground arith

  pub store32_frame : (x : ℕ) → (x < a) ⊎ (a + 4 ≤ x) → store32 m a v x ≡ m x
  unfolding store32
  store32_frame x h = ground arith

  pub load16-store16_apart :
      (b : ℕ) → (b + 2 ≤ a) ⊎ (a + 2 ≤ b) → load16 (store16 m a v) b ≡ load16 m b
  unfolding load16 store16
  load16-store16_apart b h = ground arith

  pub load32-store32_apart :
      (b : ℕ) → (b + 4 ≤ a) ⊎ (a + 4 ≤ b) → load32 (store32 m a v) b ≡ load32 m b
  unfolding load32 store32
  load32-store32_apart b h = ground arith
