-- ===== src/Drivers/Buffer.antt =====
-- The input buffers of the keyboard and the serial port: an array of bytes in memory whose first
-- `len` hold what has arrived, oldest first. Reading one moves the others down by `memcpy`.
use jiauliyan_os.Base.{
  ℕ, zero, suc, ◌+◌, ◌<◌, ◌≡◌, refl, ap, ap₂, ◌∙◌, List, [], ◌∷◌, ◌++◌, length, arith,
}
use jiauliyan_os.Memory.{Mem, write}
use jiauliyan_os.Libc.Copy.{memcpy}
use jiauliyan_os.Libc.Copy.Laws.{moved, memcpy_lem}

-- The `n` bytes from an address on.
unfoldable pub bytes_at : Mem → ℕ → ℕ → List ℕ
bytes_at m a zero = []
bytes_at m a (suc n) = m a ∷ bytes_at m (a + 1) n

-- Two ranges with the same bytes.
pub bytes_at_congr :
    (m m' : Mem) (a a' n : ℕ)
    → ((i : ℕ) → i < n → m (a + i) ≡ m' (a' + i))
    → bytes_at m a n ≡ bytes_at m' a' n
unfolding bytes_at
bytes_at_congr m m' a a' zero same = refl
bytes_at_congr m m' a a' (suc n) same =
    let first : m a ≡ m' a' = ground (arith, same 0) in
    let later : (i : ℕ) → i < n → m (a + 1 + i) ≡ m' (a' + 1 + i) =
      λ i h. ground (arith, same (i + 1)) in
    ap₂ ◌∷◌ first (bytes_at_congr m m' (a + 1) (a' + 1) n later)

bytes_at-suc : (m : Mem) (a n : ℕ) → bytes_at m a (suc n) ≡ bytes_at m a n ++ m (a + n) ∷ []
unfolding bytes_at
bytes_at-suc m a zero = ap (λ x. m x ∷ []) (omega arith)
bytes_at-suc m a (suc n) =
    let there : a + suc n ≡ a + 1 + n = omega arith in
    rw there (ap (λ l. m a ∷ l) (bytes_at-suc m (a + 1) n))

-- A byte written behind the range is one more byte.
pub bytes_at-write :
    (m : Mem) (a n b : ℕ) → bytes_at (write m (a + n) b) a (suc n) ≡ bytes_at m a n ++ b ∷ []
bytes_at-write m a n b =
    let m' = write m (a + n) b in
    let old : bytes_at m' a n ≡ bytes_at m a n = bytes_at_congr m' m a a n (λ i h. ground arith) in
    let new : m' (a + n) ≡ b = ground arith in
    bytes_at-suc m' a n ∙ ap₂ (λ l (x : ℕ). l ++ x ∷ []) old new

-- What stays after the oldest byte is read.
pub bytes_at-memcpy :
    (m : Mem) (a n : ℕ) → bytes_at m a (suc n) ≡ m a ∷ bytes_at (memcpy a (a + 1) n m) a n
unfolding bytes_at
bytes_at-memcpy m a n =
    let m' = memcpy a (a + 1) n m in
    let same : (i : ℕ) → i < n → m (a + 1 + i) ≡ m' (a + i) =
      λ i h. unfold moved in ground (arith, memcpy_lem a (a + 1) n m (a + i)) in
    ap (λ l. m a ∷ l) (bytes_at_congr m m' (a + 1) a n same)

pub length-bytes_at : (m : Mem) (a n : ℕ) → length (bytes_at m a n) ≡ n
unfolding bytes_at
length-bytes_at m a zero = refl
length-bytes_at m a (suc n) = ap suc (length-bytes_at m (a + 1) n)
