-- ===== src/Libc/Malloc/Carve.antt =====
-- What `malloc` of src/libc/stdlib.c does to the ring when it takes a block.
use jiauliyan_os.Base.{
  ℕ, ◌+◌, ◌%◌, ◌≤◌, ◌<◌, ◌≡◌, ◌≢◌, ◌⊎◌, refl, ◌∙◌, List, [], ◌∷◌, arith, ◌==◌, true,
}
use jiauliyan_os.Memory.{Mem, load32, store32}
use jiauliyan_os.Memory.Laws.{load32-store32_self, load32-store32_apart}
use jiauliyan_os.Libc.Malloc.{next, size, set_next, carve}
use jiauliyan_os.Libc.Malloc.Ring.{Block, span, Links, Clear, AllApart, AllFit, IsRing}

-- The bytes outside a region are the same.
abbrev pub SameOutside : ℕ → ℕ → Mem → Mem → Type 0
SameOutside lo hi m m' = (y : ℕ) → (y < lo) ⊎ (hi ≤ y) → m' y ≡ m y

pub load32_outside :
    (lo hi p : ℕ) (m m' : Mem)
    → SameOutside lo hi m m'
    → (p + 4 ≤ lo) ⊎ (hi ≤ p)
    → load32 m' p ≡ load32 m p
unfolding load32
load32_outside lo hi p m m' same h = ground (
  arith,
  same p (omega arith),
  same (p + 1) (omega arith),
  same (p + 2) (omega arith),
  same (p + 3) (omega arith),
)

pub Links-empty : (m : Mem) (x b : ℕ) (bs : List Block) → bs ≡ [] → Links m x bs b → x ≡ b
Links-empty m x b [] q l = l
Links-empty m x b (z ∷ bs) q l = cc

-- Blocks apart from a region are linked as before after writes to it.
pub Links-outside :
    (lo hi a a' b : ℕ) (m m' : Mem) (bs : List Block)
    → SameOutside lo hi m m'
    → Clear lo hi bs
    → Links m a bs b
    → next m' a' ≡ next m a
    → (bs ≡ [] → a' ≡ b)
    → Links m' a' bs b
Links-outside lo hi a a' b m m' [] same clear l e end = end refl
Links-outside lo hi a a' b m m' ((x, s) ∷ bs) same (c, clear) (n, z, l) e end =
    let wide : 8 ≤ span s = ground arith in
    (
      e ∙ n,
      load32_outside lo hi (x + 4) m m' same (omega arith) ∙ z,
      Links-outside lo hi x x b m m' bs same clear l
          (load32_outside lo hi x m m' same (omega arith)) (λ q. Links-empty m x b bs q l),
    )

pub span_wide : (s : ℕ) → 8 ≤ span s
span_wide s = ground arith

-- The last block of a list is one of it.
pub last-Clear :
    (lo hi a b x s : ℕ) (m : Mem) (bs : List Block)
    → Links m a ((x, s) ∷ bs) b
    → Clear lo hi ((x, s) ∷ bs)
    → (hi ≤ b) ⊎ (b + 8 ≤ lo)
last-Clear lo hi a b x s m [] (n, z, l) (c, clear) = omega (arith, span_wide s, l)
last-Clear lo hi a b x s m ((y, t) ∷ bs) (n, z, l) (c, clear) =
    last-Clear lo hi x b y t m bs l clear

-- The `next` field of the last block is written: the others are linked as before.
pub Links-hole :
    (a c h v : ℕ) (m : Mem) (bs : List Block)
    → Links m c bs h
    → AllApart bs
    → next (store32 m h v) a ≡ next m c
    → (bs ≡ [] → a ≡ h)
    → Links (store32 m h v) a bs h
Links-hole a c h v m [] l apart e end = end refl
Links-hole a c h v m ((x, s) ∷ []) (n, z, l) apart e end =
    (e ∙ n, load32-store32_apart m h v (x + 4) (omega (arith, l)) ∙ z, l)
Links-hole a c h v m ((x, s) ∷ (y, t) ∷ bs) (n, z, l) (clear, apart) e end =
    let off = last-Clear x (x + span s) x h y t m bs l clear in
    let wide = span_wide s in
    (
      e ∙ n,
      load32-store32_apart m h v (x + 4) (omega arith) ∙ z,
      Links-hole x x h v m ((y, t) ∷ bs) l apart (load32-store32_apart m h v x (omega arith))
          (λ q. cc),
    )

pub next_small :
    (m : Mem) (x b : ℕ) (bs : List Block)
    → bs ≢ []
    → Links m x bs b
    → AllFit bs
    → next m x < 4294967296
next_small m x b [] h l fit = absurd (h refl)
next_small m x b ((y, t) ∷ bs) h (n, z, l) (p, q, fit) = omega (arith, n)

pub small_mod : (x : ℕ) → x < 4294967296 → x % 4294967296 ≡ x
small_mod x h = omega arith

-- An exact fit: the block in front of it now leads to the one behind it.
module _ (m : Mem) (prevp x n : ℕ) (rest : List Block) (r : IsRing m prevp ((x, n) ∷ rest)) where
  pub exact-IsRing : rest ≢ [] → IsRing (set_next prevp (next m x) m) prevp rest
  exact-IsRing some_left = record {
    links =
        Links-hole prevp x prevp (next m x) m rest (r.links.2) (r.apart.1)
          (load32-store32_self m prevp (next m x)
            ∙ small_mod (next m x) (next_small m x prevp rest some_left (r.links.2) (r.fit.2)))
          (λ q. refl);
    apart = r.apart.1;
    fit = r.fit.2;
  }

pub carve-exact :
    (m : Mem) (prevp x n : ℕ) → size m x ≡ n → carve prevp x n m ≡ (x, set_next prevp (next m x) m)
unfolding carve
carve-exact m prevp x n e = let same : (size m x == n) ≡ true = ground arith in rw same refl
