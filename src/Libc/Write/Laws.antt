-- ===== src/Libc/Write/Laws.antt =====
-- What `strcpy` of src/libc/string.c leaves in memory.
use jiauliyan_os.Base.{
  ℕ, zero, suc, ◌+◌, ◌≤◌, ◌<◌, ◌≡◌, ◌≢◌, ◌⊎◌, refl, true, false, some, arith, ◌==◌,
}
use jiauliyan_os.Memory.{Mem, write}
use jiauliyan_os.Libc.Copy.Laws.{moved}
use jiauliyan_os.Libc.Write.{strcpy, strncpy, zeros}

-- A string of `n` bytes stands at an address.
abbrev pub HasLength : Mem → ℕ → ℕ → Type 0
HasLength m p n = ((i : ℕ) → i < n → m (p + i) ≢ 0) × (m (p + n) ≡ 0)

-- Where a string of `n` bytes does not overlap the destination from below, `strcpy` ends after `n + 1`
-- bytes and has moved the string with its NUL, all at once, and no other byte changes.
pub strcpy_lem :
    (n fuel to from : ℕ) (m : Mem)
    → HasLength m from n
    → (to ≤ from) ⊎ (from + n < to)
    → n < fuel
    → (m' : Mem) × (strcpy fuel to from m ≡ some m') × ((x : ℕ) → m' x ≡ moved to from (n + 1) m x)
unfolding strcpy moved
strcpy_lem n zero to from m text apart enough = absurd (omega arith)
strcpy_lem zero (suc fuel) to from m (some_bytes, end) apart enough =
    let stop : (m from == 0) ≡ true = ground (arith, end) in
    (write m to (m from), rw stop refl, λ x. ground arith)
strcpy_lem (suc n) (suc fuel) to from m (some_bytes, end) apart enough =
    let more : (m from == 0) ≡ false = ground (arith, some_bytes 0) in
    let m₁ = write m to (m from) in
    let text : HasLength m₁ (from + 1) n =
      (λ i h. ground (arith, some_bytes (i + 1) (omega arith)), ground (arith, end)) in
    let (m', ran, all) =
      strcpy_lem n fuel (to + 1) (from + 1) m₁ text (omega arith) (omega arith) in
    (m', rw more ran, λ x. ground (arith, all x))

-- Where a string of `n` bytes does not overlap the destination from below, `strncpy` of `n + 1` bytes has moved
-- the string with its NUL, and no other byte changes.
pub strncpy_lem :
    (n to from : ℕ) (m : Mem)
    → HasLength m from n
    → (to ≤ from) ⊎ (from + n < to)
    → (x : ℕ) → strncpy to from (suc n) m x ≡ moved to from (n + 1) m x
unfolding strncpy zeros moved
strncpy_lem zero to from m (some_bytes, end) apart x = ground (arith, end)
strncpy_lem (suc n) to from m (some_bytes, end) apart x =
    let more : (m from == 0) ≡ false = ground (arith, some_bytes 0) in
    let m₁ = write m to (m from) in
    let text : HasLength m₁ (from + 1) n =
      (λ i h. ground (arith, some_bytes (i + 1) (omega arith)), ground (arith, end)) in
    rw more (ground (arith, strncpy_lem n (to + 1) (from + 1) m₁ text (omega arith) x))
