-- ===== src/Memory.antt =====
-- The byte-addressed memory of the machine, which the drivers and the C library share: a byte for
-- each address, and little-endian words of 16 and 32 bits. (The addresses that C code reaches by
-- pointer arithmetic are plain numbers.)
pub mod Laws
use jiauliyan_os.Base.{ℕ, ◌+◌, ◌*◌, ◌/◌, ◌%◌, ◌==◌, if◌then◌else◌}

abbrev pub Mem : Type 0
Mem = ℕ → ℕ

-- The byte `b` goes to the address `a`.
abbrev pub write : Mem → ℕ → ℕ → Mem
write m a b x = if x == a then b else m x

-- `*(unsigned char *) a = v`
abbrev pub store8 : Mem → ℕ → ℕ → Mem
store8 m a v = write m a (v % 256)

-- `*(unsigned short *) a`
unfoldable pub load16 : Mem → ℕ → ℕ
load16 m a = m a + 256 * m (a + 1)

-- `*(unsigned short *) a = v`
unfoldable pub store16 : Mem → ℕ → ℕ → Mem
store16 m a v = store8 (store8 m a v) (a + 1) (v / 256)

-- `*(unsigned int *) a`
unfoldable pub load32 : Mem → ℕ → ℕ
load32 m a = m a + 256 * m (a + 1) + 65536 * m (a + 2) + 16777216 * m (a + 3)

-- `*(unsigned int *) a = v`
unfoldable pub store32 : Mem → ℕ → ℕ → Mem
store32 m a v =
    store8 (store8 (store8 (store8 m a v) (a + 1) (v / 256)) (a + 2) (v / 65536)) (a + 3)
      (v / 16777216)

-- `*(unsigned long long *) a`
unfoldable pub load64 : Mem → ℕ → ℕ
load64 m a = load32 m a + 4294967296 * load32 m (a + 4)
