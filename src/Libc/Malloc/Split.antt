-- ===== src/Libc/Malloc/Split.antt =====
-- What `malloc` of src/libc/stdlib.c does to the ring when it takes the tail of a larger block.
use jiauliyan_os.Base.{
  ℕ, ◌+◌, ◌-◌, ◌*◌, ◌≤◌, ◌<◌, ◌≡◌, ◌⊎◌, inl, inr, refl, sym, ◌∙◌, List, [], ◌∷◌, arith, ◌==◌, false,
}
use jiauliyan_os.Base.Words.{add32, sub32, mul32}
use jiauliyan_os.Memory.{Mem}
use jiauliyan_os.Memory.Laws.{load32-store32_self, load32-store32_apart, store32_frame}
use jiauliyan_os.Libc.Malloc.{next, size, set_size, carve}
use jiauliyan_os.Libc.Malloc.Ring.{Block, span, Clear, IsRing}
use jiauliyan_os.Libc.Malloc.Carve.{
  SameOutside, load32_outside, Links-outside, Links-empty, last-Clear, small_mod,
}

pub Clear-within :
    (lo hi lo' hi' : ℕ) (bs : List Block) → lo ≤ lo' → hi' ≤ hi → Clear lo hi bs → Clear lo' hi' bs
Clear-within lo hi lo' hi' [] h k c = tt
Clear-within lo hi lo' hi' ((y, t) ∷ bs) h k (d, c) =
    (nearer d, Clear-within lo hi lo' hi' bs h k c)
  where
    nearer : (hi ≤ y) ⊎ (y + span t ≤ lo) → (hi' ≤ y) ⊎ (y + span t ≤ lo')
    nearer (inl d) = inl (omega arith)
    nearer (inr d) = inr (omega arith)

-- Where the front of a ring stands: it is its only block, or apart from the first.
pub front_cases :
    (m : Mem) (prevp x s : ℕ) (rest : List Block)
    → IsRing m prevp ((x, s) ∷ rest)
    → (prevp ≡ x) ⊎ ((x + span s ≤ prevp) ⊎ (prevp + 8 ≤ x))
front_cases m prevp x s [] r = inl (sym (r.links.2))
front_cases m prevp x s ((y, t) ∷ rest) r =
    inr (last-Clear x (x + span s) x prevp y t m rest (r.links.2) (r.apart.0))

-- A larger block: it keeps its place with what is left, and its tail is the one taken.
module _ (m : Mem) (prevp x s n : ℕ) (rest : List Block) (r : IsRing m prevp ((x, s) ∷ rest))
    (more : n < s) (some_units : 0 < n) where
  abbrev pub tail : ℕ
  tail = x + 8 * (s - n)

  abbrev pub split_mem : Mem
  split_mem = set_size tail n (set_size x (s - n) m)

  big : span s ≡ 8 * s
  big = ground arith

  split_outside : SameOutside (x + 4) (x + 8 * s) m split_mem
  split_outside y h =
      store32_frame (set_size x (s - n) m) (x + 8 * (s - n) + 4) n y (omega arith)
      ∙ store32_frame m (x + 4) (s - n) y (omega arith)

  split_size : size split_mem x ≡ s - n
  split_size =
      let fits = r.fit.1 in
      load32-store32_apart (set_size x (s - n) m) (x + 8 * (s - n) + 4) n (x + 4) (omega arith)
      ∙ load32-store32_self m (x + 4) (s - n)
      ∙ small_mod (s - n) (omega (arith, big))

  split_next : next split_mem x ≡ next m x
  split_next = load32_outside (x + 4) (x + 8 * s) x m split_mem split_outside (omega arith)

  pub tail_size : size split_mem tail ≡ n
  tail_size =
      let fits = r.fit.1 in
      load32-store32_self (set_size x (s - n) m) (tail + 4) n ∙ small_mod n (omega (arith, big))

  front_next : next split_mem prevp ≡ x
  front_next = elim (front_cases m prevp x s rest r) [
    | inl e ↦ rw e (split_next ∙ rw e at r.links.0)
    | inr d ↦
        load32_outside (x + 4) (x + 8 * s) prevp m split_mem split_outside (omega (arith, big))
        ∙ r.links.0
  ]

  pub split-IsRing : IsRing split_mem prevp ((x, s - n) ∷ rest)
  split-IsRing =
      let left : span (s - n) ≡ 8 * (s - n) = ground arith in
      let fits = r.fit.1 in
      record {
        links = (
          front_next,
          split_size,
          Links-outside (x + 4) (x + 8 * s) x x prevp m split_mem rest split_outside
              (Clear-within x (x + span s) (x + 4) (x + 8 * s) rest (omega arith)
                (omega (arith, big)) (r.apart.0))
              (r.links.2) split_next (λ q. Links-empty m x prevp rest q (r.links.2)),
        );
        apart = (
          Clear-within x (x + span s) x (x + span (s - n)) rest (omega arith)
              (omega (arith, big, left)) (r.apart.0),
          r.apart.1,
        );
        fit = (r.fit.0, omega (arith, big, left), r.fit.2);
      }

  -- The tail is apart from every block that stays.
  pub tail-Clear : Clear tail (tail + 8 * n) ((x, s - n) ∷ rest)
  tail-Clear =
      let left : span (s - n) ≡ 8 * (s - n) = ground arith in
      (
        inr (omega (arith, left)),
        Clear-within x (x + span s) (x + 8 * (s - n)) (x + 8 * (s - n) + 8 * n) rest (omega arith)
            (omega (arith, big)) (r.apart.0),
      )

  pub carve-split : carve prevp x n m ≡ (tail, split_mem)
  unfolding carve
  carve-split =
      let fits = r.fit.1 in
      let units : size m x ≡ s = r.links.1 in
      let differ : (s == n) ≡ false = ground arith in
      let less : sub32 s n ≡ s - n = omega (arith, big) in
      let left : size (set_size x (s - n) m) x ≡ s - n =
        load32-store32_self m (x + 4) (s - n) ∙ small_mod (s - n) (omega (arith, big)) in
      let end : add32 x (mul32 8 (s - n)) ≡ x + 8 * (s - n) = omega (arith, big) in
      rw (units, differ, less, left, end) refl
