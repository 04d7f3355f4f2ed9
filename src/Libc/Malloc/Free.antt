-- ===== src/Libc/Malloc/Free.antt =====
-- What `free` of src/libc/stdlib.c does to the ring.
pub mod Blocks
pub mod Back
use jiauliyan_os.Base.{
  ℕ, zero, suc, ◌+◌, ◌-◌, ◌*◌, ◌≤◌, ◌<◌, ◌≡◌, ◌≢◌, ◌⊎◌, inl, inr, refl, sym, ◌∙◌, ap, subst, List,
  [], ◌∷◌, ◌++◌, arith, ◌==◌, Bool-cases, if◌then◌else◌, true, false, length, length-append, some,
  ◌>>=◌,
}
use jiauliyan_os.Memory.{Mem}
use jiauliyan_os.Libc.Malloc.{
  Arena, size, insert_block, join_upper, join_lower, find_place, free, ptr_block,
}
use jiauliyan_os.Libc.Malloc.Ring.{
  Block, span, Links, Clear, AllApart, AllFit, IsRing, IsRing-turn, last_at, Links-last_at,
}
use jiauliyan_os.Libc.Malloc.Carve.{last-Clear}
use jiauliyan_os.Libc.Malloc.Grant.{IsArena, HasRoot, HasRoot-some}
use jiauliyan_os.Libc.Malloc.Place.{ring-HasPlace, find_place_lem}
use jiauliyan_os.Libc.Malloc.Insert.{
  IsHanging, upper_blocks, upper_units, join_upper-IsHanging, join_upper-SameOutside,
}
use jiauliyan_os.Libc.Malloc.Lower.{lower_blocks, lower-IsRing, lower-SameOutside}
use jiauliyan_os.Libc.Malloc.Free.Blocks.{
  total, total-swap, Clear-swap, HasRoot-swap, HasRoot-upper, HasRoot-lower, total-upper,
  total-lower, Clear-upper, Clear-lower, off_upper, length-upper, length-lower,
}

-- The blocks of the ring when `(b, s)` has come between the front `p` and the block `(x, t)`.
abbrev pub freed_blocks : (b s p x t : ℕ) → List Block → List Block
freed_blocks b s p x t rest = lower_blocks b (upper_units b s x t) p (upper_blocks b s x t rest)

-- The memory and the ring behind the call: as many units more as the block has, and the bytes from
-- `lo` to `hi` as they were and still outside of every free block.
pub record IsFreed (a : Arena) (s lo hi : ℕ) (bs : List Block) (a' : Arena) (bs' : List Block)
    : Type 0 where
  pub arena : IsArena a' bs'
  pub units : total bs' ≡ total bs + s
  pub longer : length bs' ≤ suc (length bs)
  pub clear : Clear lo hi bs'
  pub same : (y : ℕ) → (lo ≤ y) × (y < hi) → a'.mem y ≡ a.mem y

module _ (a : Arena) (b s lo hi p x t : ℕ) (rest : List Block) (r : IsRing a.mem p ((x, t) ∷ rest))
    (root : HasRoot a.base ((x, t) ∷ rest)) (some_units : 0 < s) (place : 0 < b)
    (end : b + 8 * s < 4294967296) (units : size a.mem b ≡ s)
    (clear : Clear b (b + 8 * s) ((x, t) ∷ rest)) (below : b + 8 * s ≢ a.base) (wide : lo < hi)
    (kept : Clear lo hi ((x, t) ∷ rest)) (off : (hi ≤ b) ⊎ (b + 8 * s ≤ lo)) where
  some_left : b + 8 * s ≡ x → rest ≢ []
  some_left touch = elim root [
    | inl (e, z) ↦ absurd (below (touch ∙ e))
    | inr h ↦ HasRoot-some a.base rest h
  ]

  hanging : IsHanging (join_upper b p a.mem) p b (upper_units b s x t) (upper_blocks b s x t rest)
  hanging = join_upper-IsHanging a.mem p b s x t rest r some_units place end units clear some_left

  inserted :
      IsFreed a s lo hi
        ((x, t) ∷ rest)
        (record a { mem = insert_block b p a.mem; freep = p })
        (freed_blocks b s p x t rest)
  unfolding insert_block
  inserted =
      let h = hanging in
      let u = upper_units b s x t in
      let bs = upper_blocks b s x t rest in
      let kept' = Clear-upper lo hi b s x t rest kept in
      let off' = off_upper lo hi b s x t rest wide kept off in
      record {
        arena = record {
          ring = lower-IsRing (join_upper b p a.mem) p b u bs h;
          root =
              HasRoot-lower (a.base) b u p (join_upper b p a.mem) bs h
                (HasRoot-upper (a.base) b s x t rest below root);
        };
        units = total-lower (join_upper b p a.mem) p b u bs h ∙ total-upper b s x t rest;
        longer = let l = length-lower b u p bs in let k = length-upper b s x t rest in omega arith;
        clear = Clear-lower lo hi b u p (join_upper b p a.mem) bs h wide kept' off';
        same = λ y k.
            lower-SameOutside (join_upper b p a.mem) p b u bs lo hi h kept' y k
            ∙ join_upper-SameOutside a.mem p b s x t rest r some_units place end units clear y
                (omega arith);
      }

-- The blocks in another turn of the ring are as many, and the same bytes are outside of them.
turned :
    (a a' : Arena) (s lo hi : ℕ) (ks bs bs' : List Block)
    → IsFreed a s lo hi (bs ++ ks) a' bs'
    → IsFreed a s lo hi (ks ++ bs) a' bs'
turned a a' s lo hi ks bs bs' f = record {
  arena = f.arena;
  units = rw (sym (total-swap ks bs)) (f.units);
  longer = let e = length-append ks bs in let k = length-append bs ks in omega (arith, f.longer);
  clear = f.clear;
  same = f.same;
}

-- A block `b` of `s` units, more than none, is outside of every free block of the ring, above address
-- 0, ends below 4 GB, and not where the empty root begins; bytes from `lo` to `hi` are outside of it
-- and of every free block. With as many rounds as blocks, `free` of the pointer behind its header
-- ends. The ring then has the block's units, the root, and at most one block more; and those bytes are
-- as they were and still no free block's.
pub free_lem :
    (fuel b s lo hi : ℕ) (a : Arena) (bs : List Block)
    → IsArena a bs
    → length bs ≤ fuel
    → (0 < s) × (0 < b) × (b + 8 * s < 4294967296) × (b + 8 * s ≢ a.base)
    → size a.mem b ≡ s
    → Clear b (b + 8 * s) bs
    → lo < hi
    → Clear lo hi bs
    → (hi ≤ b) ⊎ (b + 8 * s ≤ lo)
    → (a' : Arena) × ((bs' : List Block) × ((free fuel (b + 8) a ≡ some a')
          × IsFreed a s lo hi bs a' bs'))
unfolding free
free_lem fuel b s lo hi a [] w enough bounds units clear wide kept off = absurd (w.root)
free_lem fuel b s lo hi a ((x0, s0) ∷ bs) w enough (some_units, place, end, below) units clear wide
      kept off =
    let all = (x0, s0) ∷ bs in
    let on_way =
      ring-HasPlace b (b + 8 * s) a.freep x0 s0 bs (omega arith) clear
        (Links-last_at a.mem a.freep a.freep all (w.ring.links)) in
    let (ks, (x, (t, (rest, (here, found))))) =
      find_place_lem all fuel b a.freep a.freep a.mem (w.ring.links) on_way enough in
    let p = last_at a.freep ks in
    let back : ptr_block (b + 8) ≡ b = omega arith in
    let there : (b + 8 == 0) ≡ false = ground arith in
    let behind = (x, t) ∷ rest in
    let done =
      inserted a b s lo hi p x t (rest ++ ks)
        (IsRing-turn a.mem a.freep ks behind (subst (IsRing a.mem a.freep) here (w.ring)))
        (HasRoot-swap a.base ks behind (subst (HasRoot a.base) here (w.root))) some_units place end
        units (Clear-swap b (b + 8 * s) ks behind (subst (Clear b (b + 8 * s)) here clear)) below
        wide (Clear-swap lo hi ks behind (subst (Clear lo hi) here kept)) off in
    (
      record a { mem = insert_block b p a.mem; freep = p },
      (
        freed_blocks b s p x t (rest ++ ks),
        (
          rw (there, back, found) refl,
          subst
              (λ l.
                IsFreed a s lo hi l (record a { mem = insert_block b p a.mem; freep = p })
                  (freed_blocks b s p x t (rest ++ ks)))
              (sym here) (turned a _ s lo hi ks behind _ done),
        ),
      ),
    )
