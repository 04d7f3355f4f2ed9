-- ===== src/Libc/Malloc/Grant.antt =====
-- What `malloc` of src/libc/stdlib.c returns, and the ring that it leaves.
use jiauliyan_os.Base.{
  ℕ, ◌+◌, ◌-◌, ◌*◌, ◌≤◌, ◌<◌, ◌≡◌, ◌≢◌, ◌⊎◌, inl, inr, refl, sym, ap, List, [], ◌∷◌, ◌++◌, arith,
  ◌==◌, Bool-cases, false, leb, length, Option, none, some, ◌>>=◌,
}
use jiauliyan_os.Memory.{Mem}
use jiauliyan_os.Libc.Malloc.{Arena, size, carve, block_ptr, block_align, malloc, start}
use jiauliyan_os.Libc.Malloc.Ring.{Block, Links, Clear, AllFit, IsRing, IsRing-turn, last_at}
use jiauliyan_os.Libc.Malloc.Fit.{Found, first_fit, behind, outcome, search_lem}
use jiauliyan_os.Libc.Malloc.Take.{kept, carve_lem}

-- The empty block at `base` is one of the ring's.
abbrev pub HasRoot : ℕ → List Block → Type 0
HasRoot base [] = ⊥
HasRoot base ((x, s) ∷ bs) = ((x ≡ base) × (s ≡ 0)) ⊎ HasRoot base bs

-- The memory holds the free blocks `bs`, the root among them, from `freep` on.
pub record IsArena (a : Arena) (bs : List Block) : Type 0 where
  pub ring : IsRing a.mem a.freep bs
  pub root : HasRoot a.base bs

abbrev pub AllSmaller : ℕ → List Block → Type 0
AllSmaller n [] = Unit
AllSmaller n ((x, s) ∷ bs) = (s < n) × AllSmaller n bs

-- The blocks that stay in the ring, in its new turn.
abbrev pub left_over : ℕ → Found → List Block
left_over n f = kept f.addr f.units n ++ (f.after ++ f.before)

-- The pointer `r.0` is to the tail of the first block that is large enough.
pub record IsGranted (n : ℕ) (bs : List Block) (f : Found) (r : ℕ × Arena) : Type 0 where
  pub around : bs ≡ f.before ++ (f.addr, f.units) ∷ f.after
  pub smaller : AllSmaller n f.before
  pub enough : n ≤ f.units
  pub pointer : r.0 ≡ block_ptr (f.addr + 8 * (f.units - n))
  pub header : size r.1.mem (f.addr + 8 * (f.units - n)) ≡ n
  pub arena : IsArena r.1 (left_over n f)
  pub clear : Clear (f.addr + 8 * (f.units - n)) (f.addr + 8 * f.units) (left_over n f)

pub HasRoot-append : (b : ℕ) (ks bs : List Block) → HasRoot b bs → HasRoot b (ks ++ bs)
HasRoot-append b [] bs h = h
HasRoot-append b ((x, s) ∷ ks) bs h = inr (HasRoot-append b ks bs h)

pub HasRoot-front : (b : ℕ) (ks bs : List Block) → HasRoot b ks → HasRoot b (ks ++ bs)
HasRoot-front b [] bs h = absurd h
HasRoot-front b ((x, s) ∷ ks) bs (inl h) = inl h
HasRoot-front b ((x, s) ∷ ks) bs (inr h) = inr (HasRoot-front b ks bs h)

pub HasRoot-split :
    (b : ℕ) (ks bs : List Block) → HasRoot b (ks ++ bs) → HasRoot b ks ⊎ HasRoot b bs
HasRoot-split b [] bs h = inr h
HasRoot-split b ((x, s) ∷ ks) bs (inl h) = inl (inl h)
HasRoot-split b ((x, s) ∷ ks) bs (inr h) = elim (HasRoot-split b ks bs h) [
  | inl k ↦ inl (inr k)
  | inr k ↦ inr k
]

-- The root is too small to be the block that is taken.
root_stays :
    (b x s : ℕ) (ks bs : List Block) → 0 < s → HasRoot b (ks ++ (x, s) ∷ bs) → HasRoot b (bs ++ ks)
root_stays b x s ks bs some_units h = elim (HasRoot-split b ks ((x, s) ∷ bs) h) [
  | inl k ↦ HasRoot-append b bs ks k
  | inr (inl (e, z)) ↦ absurd (omega arith)
  | inr (inr k) ↦ HasRoot-front b bs ks k
]

pub HasRoot-some : (b : ℕ) (bs : List Block) → HasRoot b bs → bs ≢ []
HasRoot-some b [] h e = h
HasRoot-some b ((x, s) ∷ bs) h e = cc

-- `first_fit` finds the first block that is large enough, or all are smaller.
IsFirst : ℕ → List Block → Found → Type 0
IsFirst n bs f =
    (bs ≡ f.before ++ (f.addr, f.units) ∷ f.after) × AllSmaller n f.before × (n ≤ f.units)

first_fit_cases :
    (n : ℕ) (bs : List Block)
    → ((first_fit n bs ≡ none) × AllSmaller n bs)
      ⊎ ((f : Found) × (first_fit n bs ≡ some f) × IsFirst n bs f)
unfolding first_fit IsFirst
first_fit_cases n [] = inl (refl, tt)
first_fit_cases n ((x, s) ∷ bs) = elim (Bool-cases (leb n s)) [
  | inl fits ↦ inr (
    record { before = []; addr = x; units = s; after = bs },
    rw fits refl,
    (refl, tt, ground arith),
  )
  | inr small ↦ elim (first_fit_cases n bs) [
    | inl (e, smaller) ↦ inl (rw (small, e) refl, (ground arith, smaller))
    | inr (f, e, (here, smaller, enough)) ↦ inr (
      behind x s f,
      rw (small, e) refl,
      (ap (λ r. (x, s) ∷ r) here, (ground arith, smaller), enough),
    )
  ]
]

first_fit-none : (n : ℕ) (bs : List Block) → AllSmaller n bs → first_fit n bs ≡ none
unfolding first_fit
first_fit-none n [] smaller = refl
first_fit-none n ((x, s) ∷ bs) (small, smaller) =
    let no : leb n s ≡ false = ground arith in rw (no, first_fit-none n bs smaller) refl

pub front_positive :
    (m : Mem) (a b : ℕ) (bs : List Block) → Links m a bs b → AllFit bs → bs ≢ [] → 0 < b
front_positive m a b [] l fit others = absurd (others refl)
front_positive m a b ((x, s) ∷ []) (n, z, l) fit others = omega (arith, fit.0, l)
front_positive m a b ((x, s) ∷ (y, t) ∷ bs) (n, z, l) (p, q, fit) others =
    front_positive m x b ((y, t) ∷ bs) l fit (λ e. cc)

-- The call on a ring that is there, by what `first_fit` finds.
abbrev answer : ℕ → Arena → Option Found → Option (ℕ × Arena)
answer n a none = some (0, a)
answer n a (some f) =
    let q = last_at a.freep f.before in
    let r = carve q f.addr n a.mem in some (block_ptr (r.0), record a { freep = q; mem = r.1 })

start-later : (a : Arena) → 0 < a.freep → start a ≡ a
unfolding start
start-later a there = let on : (a.freep == 0) ≡ false = ground arith in rw on refl

answer-outcome :
    (n : ℕ) (a : Arena) (o : Option Found)
    → (outcome n a.freep a.freep a.mem o >>= (λ r. some (r.0, record a { freep = r.1; mem = r.2 })))
      ≡ answer n a o
answer-outcome n a none = refl
answer-outcome n a (some f) = refl

malloc-answer :
    (fuel nbytes : ℕ) (a : Arena) (bs : List Block)
    → IsArena (start a) bs
    → 0 < nbytes
    → length bs ≤ fuel
    → malloc fuel nbytes a
      ≡ answer (block_align nbytes) (start a) (first_fit (block_align nbytes) bs)
unfolding malloc
malloc-answer fuel nbytes a [] w some_bytes enough = absurd (w.root)
malloc-answer fuel nbytes a ((x, s) ∷ bs) w some_bytes enough =
    let ask : (nbytes == 0) ≡ false = ground arith in
    let a' = start a in
    rw (ask, w.ring.links.0)
      (rw
        (search_lem bs fuel (block_align nbytes) a'.freep a'.freep x s a'.mem (w.ring.links)
          (w.ring.apart) (omega arith))
        (answer-outcome (block_align nbytes) a' (first_fit (block_align nbytes) ((x, s) ∷ bs))))

granted :
    (n : ℕ) (a : Arena) (bs : List Block) (f : Found)
    → IsArena a bs
    → 0 < n
    → IsFirst n bs f
    → (r : ℕ × Arena) × (answer n a (some f) ≡ some r) × IsGranted n bs f r
unfolding IsFirst
granted n a bs f w some_units (here, smaller, enough) =
    let at_front =
      IsRing-turn a.mem a.freep f.before ((f.addr, f.units) ∷ f.after) (rw here at w.ring) in
    let root =
      root_stays a.base f.addr f.units f.before f.after (omega arith) (rw here at w.root) in
    let prevp = last_at a.freep f.before in
    let taken =
      carve_lem a.mem prevp f.addr f.units n (f.after ++ f.before) at_front enough some_units
        (HasRoot-some a.base (f.after ++ f.before) root) in
    let e = taken.place in
    let end : f.addr + 8 * (f.units - n) + 8 * n ≡ f.addr + 8 * f.units = omega arith in
    (
      _,
      refl,
      (record {
        around = here;
        smaller = smaller;
        enough = enough;
        pointer = ap block_ptr e;
        header = rw (sym e) (taken.units);
        arena = record {
          ring = taken.ring;
          root = HasRoot-append a.base (kept f.addr f.units n) (f.after ++ f.before) root;
        };
        clear = rw (sym end) (rw (sym e) (taken.clear));
      }),
    )

pub IsArena-start : (a : Arena) (bs : List Block) → IsArena a bs → IsArena (start a) bs
IsArena-start a bs w =
    let some_blocks = HasRoot-some a.base bs (w.root) in
    rw
      (start-later a
        (front_positive a.mem a.freep a.freep bs (w.ring.links) (w.ring.fit) some_blocks))
      w

-- Where the memory holds a ring of free blocks, the empty root among them, and there are as many
-- rounds as blocks, a call of `malloc` for some bytes ends. It gives null and leaves the ring alone
-- where every block is smaller than what is needed. Otherwise it gives the tail of the first block
-- that is large enough, with its size in its header; the ring then holds the other blocks and what is
-- left of that one, all apart from the tail.
pub malloc_lem :
    (fuel nbytes : ℕ) (a : Arena) (bs : List Block)
    → IsArena (start a) bs
    → 0 < nbytes
    → length bs ≤ fuel
    → ((malloc fuel nbytes a ≡ some (0, start a)) × AllSmaller (block_align nbytes) bs)
      ⊎ ((f : Found) × ((r : ℕ × Arena) × (malloc fuel nbytes a ≡ some r)
            × IsGranted (block_align nbytes) bs f r))
malloc_lem fuel nbytes a bs w some_bytes enough =
    rw (malloc-answer fuel nbytes a bs w some_bytes enough)
      (elim (first_fit_cases (block_align nbytes) bs) [
        | inl (e, smaller) ↦ rw e (inl (refl, smaller))
        | inr (f, e, here) ↦
            rw e (inr (f, granted (block_align nbytes) (start a) bs f w (omega arith) here))
      ])

-- Where no block of the ring is large enough for the bytes asked for, and there are as many rounds as
-- blocks, `malloc` gives null and leaves everything as it was after the first call's setup.
pub malloc-null :
    (fuel nbytes : ℕ) (a : Arena) (bs : List Block)
    → IsArena (start a) bs
    → 0 < nbytes
    → length bs ≤ fuel
    → AllSmaller (block_align nbytes) bs
    → malloc fuel nbytes a ≡ some (0, start a)
malloc-null fuel nbytes a bs w some_bytes enough smaller =
    rw
      (
        malloc-answer fuel nbytes a bs w some_bytes enough,
        first_fit-none (block_align nbytes) bs smaller,
      )
      refl
