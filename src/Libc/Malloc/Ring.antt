-- ===== src/Libc/Malloc/Ring.antt =====
-- The free list of src/libc/stdlib.c as a list of blocks: what the memory holds, and what a write
-- apart from the headers leaves.
use jiauliyan_os.Base.{
  ℕ, ◌+◌, ◌*◌, ◌≤◌, ◌<◌, ◌≡◌, ◌⊎◌, inl, inr, refl, sym, List, [], ◌∷◌, ◌++◌, ◌==◌, if◌then◌else◌,
}
use mathlib.Core.List.{append-nil, append_assoc}
use jiauliyan_os.Memory.{Mem}
use jiauliyan_os.Libc.Malloc.{next, size}

-- An address and a size in units.
abbrev pub Block : Type 0
Block = ℕ × ℕ

-- The bytes of a block; one of size 0 is its header alone.
abbrev pub span : ℕ → ℕ
span s = 8 * (if s == 0 then 1 else s)

-- From the header at `a` the `next` pointers lead through the blocks, with their sizes, to `b`.
abbrev pub Links : Mem → ℕ → List Block → ℕ → Type 0
Links m a [] b = a ≡ b
Links m a ((x, s) ∷ bs) b = (next m a ≡ x) × (size m x ≡ s) × Links m x bs b

-- No block shares a byte with those from `lo` to `hi`.
abbrev pub Clear : ℕ → ℕ → List Block → Type 0
Clear lo hi [] = Unit
Clear lo hi ((y, t) ∷ bs) = ((hi ≤ y) ⊎ (y + span t ≤ lo)) × Clear lo hi bs

abbrev pub AllApart : List Block → Type 0
AllApart [] = Unit
AllApart ((x, s) ∷ bs) = Clear x (x + span s) bs × AllApart bs

-- No block is at the null pointer, and each ends below 4 GB.
abbrev pub AllFit : List Block → Type 0
AllFit [] = Unit
AllFit ((x, s) ∷ bs) = (0 < x) × (x + span s < 4294967296) × AllFit bs

-- The ring from the block that `freep` points to, which comes last.
pub record IsRing (m : Mem) (freep : ℕ) (bs : List Block) : Type 0 where
  pub links : Links m freep bs freep
  pub apart : AllApart bs
  pub fit : AllFit bs

-- The last address, or the one in front of the list.
abbrev pub last_at : ℕ → List Block → ℕ
last_at a [] = a
last_at a ((x, s) ∷ bs) = last_at x bs

Links-append :
    (m : Mem) (a b : ℕ) (ks bs : List Block)
    → Links m a ks (last_at a ks)
    → Links m (last_at a ks) bs b
    → Links m a (ks ++ bs) b
Links-append m a b [] bs k l = l
Links-append m a b ((x, s) ∷ ks) bs (n, z, k) l = (n, z, Links-append m x b ks bs k l)

Links-split :
    (m : Mem) (a b : ℕ) (ks bs : List Block)
    → Links m a (ks ++ bs) b
    → Links m a ks (last_at a ks) × Links m (last_at a ks) bs b
Links-split m a b [] bs l = (refl, l)
Links-split m a b ((x, s) ∷ ks) bs (n, z, l) =
    let (k, k') = Links-split m x b ks bs l in ((n, z, k), k')

pub Links-last_at : (m : Mem) (a b : ℕ) (bs : List Block) → Links m a bs b → last_at a bs ≡ b
Links-last_at m a b [] l = l
Links-last_at m a b ((x, s) ∷ bs) (n, z, l) = Links-last_at m x b bs l

pub Clear-append :
    (lo hi : ℕ) (ks bs : List Block) → Clear lo hi ks → Clear lo hi bs → Clear lo hi (ks ++ bs)
Clear-append lo hi [] bs k l = l
Clear-append lo hi ((y, t) ∷ ks) bs (h, k) l = (h, Clear-append lo hi ks bs k l)

AllApart-snoc :
    (x s : ℕ) (bs : List Block)
    → Clear x (x + span s) bs
    → AllApart bs
    → AllApart (bs ++ (x, s) ∷ [])
AllApart-snoc x s [] c h = (tt, tt)
AllApart-snoc x s ((y, t) ∷ bs) (d, c) (k, h) =
    let back : (x + span s ≤ y) ⊎ (y + span t ≤ x) = d in
    (
      Clear-append y (y + span t) bs ((x, s) ∷ []) k (other x s y t back, tt),
      AllApart-snoc x s bs c h,
    )
  where
    other :
        (x s y t : ℕ) → (x + span s ≤ y) ⊎ (y + span t ≤ x) → (y + span t ≤ x) ⊎ (x + span s ≤ y)
    other x s y t (inl h) = inr h
    other x s y t (inr h) = inl h

-- The blocks in another turn of the ring.
AllApart-swap : (ks bs : List Block) → AllApart (ks ++ bs) → AllApart (bs ++ ks)
AllApart-swap [] bs h = rw (append-nil bs) h
AllApart-swap ((x, s) ∷ ks) bs (c, h) = rw (sym (append_assoc bs ((x, s) ∷ []) ks)) (
    AllApart-swap ks (bs ++ (x, s) ∷ [])
      (rw (sym (append_assoc ks bs ((x, s) ∷ []))) (AllApart-snoc x s (ks ++ bs) c h)))

AllFit-append : (ks bs : List Block) → AllFit ks → AllFit bs → AllFit (ks ++ bs)
AllFit-append [] bs k l = l
AllFit-append ((y, t) ∷ ks) bs (g, h, k) l = (g, h, AllFit-append ks bs k l)

pub AllFit-split : (ks bs : List Block) → AllFit (ks ++ bs) → AllFit ks × AllFit bs
AllFit-split [] bs l = (tt, l)
AllFit-split ((y, t) ∷ ks) bs (g, h, k) = let (p, q) = AllFit-split ks bs k in ((g, h, p), q)

-- A ring may be entered at any of its blocks.
pub IsRing-turn :
    (m : Mem) (freep : ℕ) (ks bs : List Block)
    → IsRing m freep (ks ++ bs)
    → IsRing m (last_at freep ks) (bs ++ ks)
IsRing-turn m freep ks bs r =
    let c = last_at freep ks in
    let (k, l) = Links-split m freep freep ks bs r.links in
    let e : last_at c bs ≡ freep = Links-last_at m c freep bs l in
    let (p, q) = AllFit-split ks bs r.fit in
    record {
      links = Links-append m c c bs ks (rw e l) (rw e k);
      apart = AllApart-swap ks bs r.apart;
      fit = AllFit-append bs ks q p;
    }
