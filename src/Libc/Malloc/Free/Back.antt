-- ===== src/Libc/Malloc/Free/Back.antt =====
-- `malloc` of src/libc/stdlib.c, and `free` of the block that it took.
use jiauliyan_os.Base.{
  ℕ, ◌+◌, ◌-◌, ◌*◌, ◌≤◌, ◌<◌, ◌≡◌, ◌≢◌, ◌⊎◌, inl, inr, ◌∙◌, ap, subst, List, ◌∷◌, ◌++◌, arith, ◌==◌,
  Bool-cases, suc, length, some,
}
use jiauliyan_os.Libc.Malloc.{Arena, block_align, malloc, start, free}
use jiauliyan_os.Libc.Malloc.Ring.{Block, span, Clear, Clear-append, AllFit, AllFit-split}
use jiauliyan_os.Libc.Malloc.Fit.{Found}
use jiauliyan_os.Libc.Malloc.Grant.{IsArena, left_over}
use jiauliyan_os.Libc.Malloc.Apart.{call-IsGranted, granted_place, length-left_over, Clear-member}
use jiauliyan_os.Libc.Malloc.Free.{free_lem}
use jiauliyan_os.Libc.Malloc.Free.Blocks.{total, total-append, Clear-split}

-- The block taken is all that the ring has less.
total-left_over :
    (n : ℕ) (bs : List Block) (f : Found)
    → bs ≡ f.before ++ (f.addr, f.units) ∷ f.after
    → n ≤ f.units
    → total (left_over n f) + n ≡ total bs
total-left_over n bs f here enough =
    let all = ap total here ∙ total-append f.before ((f.addr, f.units) ∷ f.after) in
    let others = total-append f.after f.before in
    elim (Bool-cases (f.units == n)) [
      | inl e ↦ let same : f.units ≡ n = ground arith in rw e (omega (arith, all, others))
      | inr e ↦ rw e (omega (arith, all, others))
    ]

Clear-left_over :
    (lo hi n : ℕ) (bs : List Block) (f : Found)
    → bs ≡ f.before ++ (f.addr, f.units) ∷ f.after
    → n ≤ f.units
    → Clear lo hi bs
    → Clear lo hi (left_over n f)
Clear-left_over lo hi n bs f here enough c =
    let (k, (d, l)) =
      Clear-split lo hi f.before ((f.addr, f.units) ∷ f.after) (subst (Clear lo hi) here c) in
    let others = Clear-append lo hi f.after f.before l k in
    elim (Bool-cases (f.units == n)) [
      | inl e ↦ rw e others
      | inr e ↦
          let differ : f.units ≢ n = ground arith in
          let left : span (f.units - n) ≤ span f.units = ground arith in
          rw e (omega (arith, left), others)
    ]

-- The block taken was one of the ring's own.
off_block :
    (lo hi n : ℕ) (bs : List Block) (f : Found)
    → bs ≡ f.before ++ (f.addr, f.units) ∷ f.after
    → 0 < n
    → n ≤ f.units
    → Clear lo hi bs
    → (hi ≤ f.addr + 8 * (f.units - n)) ⊎ (f.addr + 8 * (f.units - n) + 8 * n ≤ lo)
off_block lo hi n bs f here some_units enough c =
    let long : span f.units ≡ 8 * f.units = ground arith in
    let d = Clear-member lo hi f.addr f.units f.before f.after (subst (Clear lo hi) here c) in
    omega (arith, long, d)

-- The pointer to the block behind the header, 7 bytes above the one that `malloc` gives.
abbrev pub data_ptr : ℕ × Arena → ℕ
data_ptr r = r.0 + 7

-- A call of `malloc` for some bytes on a ring of free blocks gives no null, and the block it takes
-- does not end where the empty root begins. Then `free` of the address behind the block's header, 7
-- above the pointer given, ends, with as many rounds as the ring had blocks at first. It leaves a ring
-- with as many units as at first and at most one block more; bytes outside of the blocks at first are
-- outside of them now and as they were before `free`.
pub malloc-free :
    (fuel nbytes lo hi : ℕ) (a : Arena) (bs : List Block) (r : ℕ × Arena)
    → IsArena (start a) bs
    → length bs ≤ fuel
    → 0 < nbytes
    → malloc fuel nbytes a ≡ some r
    → r.0 ≢ 0
    → r.0 + 8 * block_align nbytes ≢ r.1.base + 1
    → lo < hi
    → Clear lo hi bs
    → (a' : Arena) × ((bs' : List Block) × ((free fuel (data_ptr r) (r.1) ≡ some a')
          × IsArena a' bs'
          × (total bs' ≡ total bs)
          × (length bs' ≤ suc (length bs))
          × Clear lo hi bs'
          × ((y : ℕ) → (lo ≤ y) × (y < hi) → a'.mem y ≡ r.1.mem y)))
malloc-free fuel nbytes lo hi a bs r w enough some_bytes call there below wide c =
    let n = block_align nbytes in
    let (f, g) = call-IsGranted fuel nbytes a bs r w some_bytes enough call there in
    let some_units : 0 < n = omega arith in
    let fits_units = g.enough in
    let (place, end) = granted_place n (start a) bs f r some_units w g in
    let b = f.addr + 8 * (f.units - n) in
    let fits =
      (AllFit-split f.before ((f.addr, f.units) ∷ f.after)
        (subst AllFit (g.around) (w.ring.fit))).1 in
    let block_end : f.addr + 8 * f.units ≡ b + 8 * n = omega arith in
    let pointer : data_ptr r ≡ b + 8 = omega arith in
    let kept = Clear-left_over lo hi n bs f (g.around) fits_units c in
    let short = length-left_over n bs f (g.around) in
    let (a', (bs', (done, freed))) =
      free_lem fuel b n lo hi (r.1) (left_over n f) (g.arena) (omega arith)
        (some_units, omega (arith, fits.0), omega arith, λ e. below (omega arith)) (g.header)
        (subst (λ q. Clear b q (left_over n f)) block_end (g.clear)) wide kept
        (off_block lo hi n bs f (g.around) some_units fits_units c) in
    let all = total-left_over n bs f (g.around) fits_units in
    (
      a',
      (
        bs',
        (
          rw pointer done,
          freed.arena,
          omega (arith, freed.units),
          omega (arith, freed.longer),
          freed.clear,
          freed.same,
        ),
      ),
    )
