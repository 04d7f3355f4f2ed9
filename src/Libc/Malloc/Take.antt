-- ===== src/Libc/Malloc/Take.antt =====
-- Every way in which `malloc` of src/libc/stdlib.c takes a block from the ring.
use jiauliyan_os.Base.{
  ℕ, ◌+◌, ◌-◌, ◌*◌, ◌≤◌, ◌<◌, ◌≡◌, ◌≢◌, ◌⊎◌, inl, inr, refl, sym, ◌∙◌, List, [], ◌∷◌, ◌++◌, arith,
  ◌==◌, if◌then◌else◌, true, false, Bool-cases,
}
use jiauliyan_os.Memory.{Mem}
use jiauliyan_os.Memory.Laws.{load32-store32_apart}
use jiauliyan_os.Libc.Malloc.{next, size, set_next, carve}
use jiauliyan_os.Libc.Malloc.Ring.{Block, span, Clear, IsRing}
use jiauliyan_os.Libc.Malloc.Carve.{exact-IsRing, carve-exact}
use jiauliyan_os.Libc.Malloc.Split.{front_cases, split-IsRing, tail_size, tail-Clear, carve-split}

-- What stays of the block: nothing, or its front.
abbrev pub kept : ℕ → ℕ → ℕ → List Block
kept x s n = if s == n then [] else ((x, s - n) ∷ [])

-- The tail of the block `(x, s)` is taken from a ring with the blocks `rest` behind it.
pub record IsTaken (prevp x s n : ℕ) (rest : List Block) (r : ℕ × Mem) : Type 0 where
  pub place : r.0 ≡ x + 8 * (s - n)
  pub units : size r.1 r.0 ≡ n
  pub ring : IsRing r.1 prevp (kept x s n ++ rest)
  pub clear : Clear r.0 (r.0 + 8 * n) (kept x s n ++ rest)

exact_size :
    (m : Mem) (prevp x n : ℕ) (rest : List Block)
    → IsRing m prevp ((x, n) ∷ rest)
    → size (set_next prevp (next m x) m) x ≡ n
exact_size m prevp x n rest r =
    let apart : (prevp + 4 ≤ x + 4) ⊎ (x + 4 + 4 ≤ prevp) = elim (front_cases m prevp x n rest r) [
      | inl e ↦ omega arith
      | inr (inl d) ↦ ground arith
      | inr (inr d) ↦ omega arith
    ] in
    load32-store32_apart m prevp (next m x) (x + 4) (omega arith) ∙ r.links.1

exact-IsTaken :
    (m : Mem) (prevp x n : ℕ) (rest : List Block)
    → IsRing m prevp ((x, n) ∷ rest)
    → 0 < n
    → rest ≢ []
    → IsTaken prevp x n n rest (x, set_next prevp (next m x) m)
exact-IsTaken m prevp x n rest r some_units others =
    let all : (n == n) ≡ true = ground arith in
    let wide : span n ≡ 8 * n = ground arith in
    record {
      place = omega arith;
      units = exact_size m prevp x n rest r;
      ring = rw all (exact-IsRing m prevp x n rest r others);
      clear = rw (all, sym wide) (r.apart.0);
    }

split-IsTaken :
    (m : Mem) (prevp x s n : ℕ) (rest : List Block)
    → IsRing m prevp ((x, s) ∷ rest)
    → n < s
    → 0 < n
    → IsTaken prevp x s n rest (carve prevp x n m)
split-IsTaken m prevp x s n rest r more some_units =
    let part : (s == n) ≡ false = ground arith in
    rw (carve-split m prevp x s n rest r more some_units) (record {
      place = refl;
      units = tail_size m prevp x s n rest r more some_units;
      ring = rw part (split-IsRing m prevp x s n rest r more some_units);
      clear = rw part (tail-Clear m prevp x s n rest r more some_units);
    })

pub carve_lem :
    (m : Mem) (prevp x s n : ℕ) (rest : List Block)
    → IsRing m prevp ((x, s) ∷ rest)
    → n ≤ s
    → 0 < n
    → rest ≢ []
    → IsTaken prevp x s n rest (carve prevp x n m)
carve_lem m prevp x s n rest r enough some_units others = elim (Bool-cases (s == n)) [
  | inl all ↦
      let e : s ≡ n = ground arith in
      rw (carve-exact m prevp x n (r.links.1 ∙ e), e)
        (exact-IsTaken m prevp x n rest (rw e at r) some_units others)
  | inr part ↦ split-IsTaken m prevp x s n rest r (ground arith) some_units
]
