-- ===== src/Libc/Malloc/Free/Blocks.antt =====
-- The list of free blocks when `free` of src/libc/stdlib.c has put a block into it.
use jiauliyan_os.Base.{
  ℕ, suc, ◌+◌, ◌*◌, ◌≤◌, ◌<◌, ◌≡◌, ◌≢◌, ◌⊎◌, inl, inr, refl, ◌∙◌, ap, List, [], ◌∷◌, ◌++◌, arith,
  ◌==◌, Bool-cases, length,
}
use jiauliyan_os.Memory.{Mem}
use jiauliyan_os.Libc.Malloc.Ring.{Block, span, Clear, Clear-append, Links-last_at}
use jiauliyan_os.Libc.Malloc.Carve.{span_wide}
use jiauliyan_os.Libc.Malloc.Grant.{HasRoot, HasRoot-append, HasRoot-front, HasRoot-split}
use jiauliyan_os.Libc.Malloc.Insert.{IsHanging, upper_blocks, upper_units}
use jiauliyan_os.Libc.Malloc.Lower.{last_units, grow_last, Touches, Clear-grow, lower_blocks}

-- The units of all blocks.
abbrev pub total : List Block → ℕ
total [] = 0
total ((x, s) ∷ bs) = s + total bs

pub total-append : (ks bs : List Block) → total (ks ++ bs) ≡ total ks + total bs
total-append [] bs = omega arith
total-append ((x, s) ∷ ks) bs = let e = total-append ks bs in omega arith

pub total-swap : (ks bs : List Block) → total (bs ++ ks) ≡ total (ks ++ bs)
total-swap ks bs = omega (arith, total-append ks bs, total-append bs ks)

pub Clear-split :
    (lo hi : ℕ) (ks bs : List Block) → Clear lo hi (ks ++ bs) → Clear lo hi ks × Clear lo hi bs
Clear-split lo hi [] bs c = (tt, c)
Clear-split lo hi ((x, s) ∷ ks) bs (d, c) = let (k, l) = Clear-split lo hi ks bs c in ((d, k), l)

pub Clear-swap : (lo hi : ℕ) (ks bs : List Block) → Clear lo hi (ks ++ bs) → Clear lo hi (bs ++ ks)
Clear-swap lo hi ks bs c = let (k, l) = Clear-split lo hi ks bs c in Clear-append lo hi bs ks l k

pub HasRoot-swap :
    (base : ℕ) (ks bs : List Block) → HasRoot base (ks ++ bs) → HasRoot base (bs ++ ks)
HasRoot-swap base ks bs h = elim (HasRoot-split base ks bs h) [
  | inl k ↦ HasRoot-append base bs ks k
  | inr k ↦ HasRoot-front base bs ks k
]

pub HasRoot-upper :
    (base b s x t : ℕ) (rest : List Block)
    → b + 8 * s ≢ base
    → HasRoot base ((x, t) ∷ rest)
    → HasRoot base (upper_blocks b s x t rest)
HasRoot-upper base b s x t rest below root = elim (Bool-cases (b + 8 * s == x)) [
  | inl e ↦
      let touch : b + 8 * s ≡ x = ground arith in
      elim root [ inl (e', z) ↦ absurd (below (touch ∙ e')) | inr h ↦ rw e h ]
  | inr e ↦ rw e root
]

-- The empty root is 8 bytes long, so a block apart from it does not begin where it does.
HasRoot-grow :
    (base b u : ℕ) (bs : List Block)
    → 0 < u
    → Clear b (b + 8 * u) bs
    → Touches b bs
    → HasRoot base bs
    → HasRoot base (grow_last u bs)
HasRoot-grow base b u [] some_units c touch h = h
HasRoot-grow base b u ((x, s) ∷ []) some_units (c, _) touch (inl (e, z)) =
    absurd (omega (arith, span_wide s))
HasRoot-grow base b u ((x, s) ∷ []) some_units (c, _) touch (inr h) = absurd h
HasRoot-grow base b u ((x, s) ∷ (y, t) ∷ bs) some_units (d, c) touch (inl h) = inl h
HasRoot-grow base b u ((x, s) ∷ (y, t) ∷ bs) some_units (d, c) touch (inr h) =
    inr (HasRoot-grow base b u ((y, t) ∷ bs) some_units c touch h)

total-grow :
    (u x s : ℕ) (bs : List Block) → total (grow_last u ((x, s) ∷ bs)) ≡ u + total ((x, s) ∷ bs)
total-grow u x s [] = omega arith
total-grow u x s ((y, t) ∷ bs) = let e = total-grow u y t bs in omega arith

length-grow : (u : ℕ) (bs : List Block) → length (grow_last u bs) ≡ length bs
length-grow u [] = refl
length-grow u ((x, s) ∷ []) = refl
length-grow u ((x, s) ∷ (y, t) ∷ bs) = ap suc (length-grow u ((y, t) ∷ bs))

touch_lem :
    (m : Mem) (p b u : ℕ) (bs : List Block)
    → IsHanging m p b u bs
    → p + 8 * last_units bs ≡ b
    → Touches b bs
touch_lem m p b u [] h e = absurd (h.others refl)
touch_lem m p b u ((x, t) ∷ bs) h e = rw (Links-last_at m b p ((x, t) ∷ bs) (h.links)) e

pub HasRoot-lower :
    (base b u p : ℕ) (m : Mem) (bs : List Block)
    → IsHanging m p b u bs
    → HasRoot base bs
    → HasRoot base (lower_blocks b u p bs)
HasRoot-lower base b u p m bs h root = elim (Bool-cases (p + 8 * last_units bs == b)) [
  | inl e ↦ rw e (
      HasRoot-grow base b u bs (h.some_units) (h.clear) (touch_lem m p b u bs h (ground arith))
        root)
  | inr e ↦ rw e (inr root)
]

pub total-upper :
    (b s x t : ℕ) (rest : List Block)
    → upper_units b s x t + total (upper_blocks b s x t rest) ≡ total ((x, t) ∷ rest) + s
total-upper b s x t rest = elim (Bool-cases (b + 8 * s == x)) [
  | inl e ↦ rw e (omega arith)
  | inr e ↦ rw e (omega arith)
]

pub total-lower :
    (m : Mem) (p b u : ℕ) (bs : List Block)
    → IsHanging m p b u bs
    → total (lower_blocks b u p bs) ≡ u + total bs
total-lower m p b u [] h = absurd (h.others refl)
total-lower m p b u ((x, t) ∷ bs) h = elim (Bool-cases (p + 8 * last_units ((x, t) ∷ bs) == b)) [
  | inl e ↦ rw e (total-grow u x t bs)
  | inr e ↦ rw e refl
]

pub length-upper :
    (b s x t : ℕ) (rest : List Block) → length (upper_blocks b s x t rest) ≤ suc (length rest)
length-upper b s x t rest = elim (Bool-cases (b + 8 * s == x)) [
  | inl e ↦ rw e (omega arith)
  | inr e ↦ rw e (omega arith)
]

pub length-lower : (b u p : ℕ) (bs : List Block) → length (lower_blocks b u p bs) ≤ suc (length bs)
length-lower b u p bs = elim (Bool-cases (p + 8 * last_units bs == b)) [
  | inl e ↦ rw e (omega (arith, length-grow u bs))
  | inr e ↦ rw e (omega arith)
]

pub Clear-upper :
    (lo hi b s x t : ℕ) (rest : List Block)
    → Clear lo hi ((x, t) ∷ rest)
    → Clear lo hi (upper_blocks b s x t rest)
Clear-upper lo hi b s x t rest (d, c) = elim (Bool-cases (b + 8 * s == x)) [
  | inl e ↦ rw e c
  | inr e ↦ rw e (d, c)
]

pub off_upper :
    (lo hi b s x t : ℕ) (rest : List Block)
    → lo < hi
    → Clear lo hi ((x, t) ∷ rest)
    → (hi ≤ b) ⊎ (b + 8 * s ≤ lo)
    → (hi ≤ b) ⊎ (b + 8 * upper_units b s x t ≤ lo)
off_upper lo hi b s x t rest wide (d, c) off = elim (Bool-cases (b + 8 * s == x)) [
  | inl e ↦
      let touch : b + 8 * s ≡ x = ground arith in
      let long : 8 * t ≤ span t = ground arith in rw e (omega arith)
  | inr e ↦ rw e off
]

pub Clear-lower :
    (lo hi b u p : ℕ) (m : Mem) (bs : List Block)
    → IsHanging m p b u bs
    → lo < hi
    → Clear lo hi bs
    → (hi ≤ b) ⊎ (b + 8 * u ≤ lo)
    → Clear lo hi (lower_blocks b u p bs)
Clear-lower lo hi b u p m bs h wide c off = elim (Bool-cases (p + 8 * last_units bs == b)) [
  | inl e ↦
      rw e
        (Clear-grow lo hi b u bs wide (h.some_units) c off (touch_lem m p b u bs h (ground arith)))
  | inr e ↦
      let some_units = h.some_units in
      let long : span u ≡ 8 * u = ground arith in rw e (omega (arith, long), c)
]
