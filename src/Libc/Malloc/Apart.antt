-- ===== src/Libc/Malloc/Apart.antt =====
-- Two calls of `malloc` of src/libc/stdlib.c, one after the other.
use jiauliyan_os.Base.{
  ℕ, ◌+◌, ◌-◌, ◌*◌, ◌≤◌, ◌<◌, ◌≡◌, ◌≢◌, ◌⊎◌, inl, inr, sym, ◌∙◌, ap, List, [], ◌∷◌, ◌++◌, arith,
  ◌==◌, Bool-cases, length, length-append, some,
}
use jiauliyan_os.Libc.Malloc.{Arena, block_align, malloc, start}
use jiauliyan_os.Libc.Malloc.Ring.{Block, span, Clear, AllFit-split}
use jiauliyan_os.Libc.Malloc.Fit.{Found}
use jiauliyan_os.Libc.Malloc.Grant.{IsArena, IsArena-start, IsGranted, left_over, malloc_lem}

pub Clear-member :
    (lo hi x s : ℕ) (ks bs : List Block)
    → Clear lo hi (ks ++ (x, s) ∷ bs)
    → (hi ≤ x) ⊎ (x + span s ≤ lo)
Clear-member lo hi x s [] bs (c, rest) = c
Clear-member lo hi x s ((y, t) ∷ ks) bs (c, rest) = Clear-member lo hi x s ks bs rest

-- A ring is not longer when a block has been taken.
pub length-left_over :
    (n : ℕ) (bs : List Block) (f : Found)
    → bs ≡ f.before ++ (f.addr, f.units) ∷ f.after
    → length (left_over n f) ≤ length bs
length-left_over n bs f here =
    let all = ap length here ∙ length-append f.before ((f.addr, f.units) ∷ f.after) in
    let others = length-append f.after f.before in
    elim (Bool-cases (f.units == n)) [
      | inl e ↦ rw e (omega (arith, all, others))
      | inr e ↦ rw e (omega (arith, all, others))
    ]

-- The block that a call takes is one byte below its pointer, and ends below 4 GB.
pub granted_place :
    (n : ℕ) (a : Arena) (bs : List Block) (f : Found) (r : ℕ × Arena)
    → 0 < n
    → IsArena a bs
    → IsGranted n bs f r
    → (r.0 ≡ f.addr + 8 * (f.units - n) + 1) × (f.addr + 8 * f.units < 4294967296)
granted_place n a bs f r some_units w g =
    let (p, fits) =
      AllFit-split f.before ((f.addr, f.units) ∷ f.after) (rw (g.around) at w.ring.fit) in
    let wide : span f.units ≡ 8 * f.units = ground (arith, g.enough) in
    let below : f.addr + 8 * f.units < 4294967296 = omega (arith, fits.1, wide) in
    (g.pointer ∙ omega (arith, below, g.enough), below)

-- A pointer that is not null is to a block of the ring.
pub call-IsGranted :
    (fuel nbytes : ℕ) (a : Arena) (bs : List Block) (r : ℕ × Arena)
    → IsArena (start a) bs
    → 0 < nbytes
    → length bs ≤ fuel
    → malloc fuel nbytes a ≡ some r
    → r.0 ≢ 0
    → (f : Found) × IsGranted (block_align nbytes) bs f r
call-IsGranted fuel nbytes a bs r w some_bytes enough call there =
    elim (malloc_lem fuel nbytes a bs w some_bytes enough) [
      | inl (e, smaller) ↦
          let same : (0, start a) ≡ r = cc in absurd (there (sym (ap (λ t. t.0) same)))
      | inr (f, (t, e, g)) ↦ let same : t ≡ r = cc in (f, rw same at g)
    ]

bytes_apart :
    (k l : ℕ) (a a' : Arena) (bs : List Block) (f g : Found) (p q : ℕ) (a'' : Arena)
    → k + 7 < 4294967296
    → l + 7 < 4294967296
    → IsArena a bs
    → IsGranted (block_align k) bs f (p, a')
    → IsGranted (block_align l) (left_over (block_align k) f) g (q, a'')
    → (p + k ≤ q) ⊎ (q + l ≤ p)
bytes_apart k l a a' bs f g p q a'' k_small l_small w first second =
    let (e, below) = granted_place (block_align k) a bs f (p, a') (omega arith) w first in
    let (e', below') =
      granted_place (block_align l) a' (left_over (block_align k) f) g (q, a'') (omega arith)
        (first.arena) second in
    let wide : span g.units ≡ 8 * g.units = ground (arith, second.enough) in
    let h = first.enough in
    let h' = second.enough in
    elim (Clear-member (f.addr + 8 * (f.units - block_align k)) (f.addr + 8 * f.units) g.addr
      g.units g.before g.after (rw (second.around) at first.clear)) [
        | inl d ↦ inl (omega arith)
        | inr d ↦ inr (omega (arith, wide))
      ]

-- Where two calls of `malloc` on a ring of free blocks, one after the other, for some bytes and below
-- 2^32 - 7 each, give no null, the bytes of the one and of the other do not overlap.
pub malloc-malloc :
    (fuel k l p q : ℕ) (a a' a'' : Arena) (bs : List Block)
    → IsArena (start a) bs
    → length bs ≤ fuel
    → (0 < k) × (k + 7 < 4294967296)
    → (0 < l) × (l + 7 < 4294967296)
    → malloc fuel k a ≡ some (p, a')
    → p ≢ 0
    → malloc fuel l a' ≡ some (q, a'')
    → q ≢ 0
    → (p + k ≤ q) ⊎ (q + l ≤ p)
malloc-malloc fuel k l p q a a' a'' bs w enough (some_k, small_k) (some_l, small_l) call there call'
      there' =
    let (f, first) = call-IsGranted fuel k a bs (p, a') w some_k enough call there in
    let short = length-left_over (block_align k) bs f (first.around) in
    let (g, second) =
      call-IsGranted fuel l a' (left_over (block_align k) f) (q, a'')
        (IsArena-start a' (left_over (block_align k) f) (first.arena)) some_l (omega (arith, short))
        call' there' in
    bytes_apart k l (start a) a' bs f g p q a'' small_k small_l w first second
