-- ===== src/Libc/Malloc/Lower.antt =====
-- How `free` of src/libc/stdlib.c joins a block to the one below it.
use jiauliyan_os.Base.{
  ℕ, ◌+◌, ◌*◌, ◌≤◌, ◌<◌, ◌≡◌, ◌⊎◌, inl, inr, refl, sym, ◌∙◌, ap, List, [], ◌∷◌, arith, ◌==◌,
  Bool-cases, if◌then◌else◌,
}
use jiauliyan_os.Base.Words.{add32}
use jiauliyan_os.Memory.{Mem}
use jiauliyan_os.Memory.Laws.{load32-store32_self, load32-store32_apart, store32_frame}
use jiauliyan_os.Libc.Malloc.{next, size, set_next, set_size, block_end, join_lower}
use jiauliyan_os.Libc.Malloc.Ring.{
  Block, span, Links, Clear, AllApart, AllFit, IsRing, last_at, Links-last_at,
}
use jiauliyan_os.Libc.Malloc.Carve.{SameOutside, Links-hole, last-Clear, span_wide, small_mod}
use jiauliyan_os.Libc.Malloc.Split.{Clear-within}
use jiauliyan_os.Libc.Malloc.Insert.{IsHanging}

-- The size of the last block, and the list with that size grown.
abbrev pub last_units : List Block → ℕ
last_units [] = 0
last_units ((x, s) ∷ []) = s
last_units ((x, s) ∷ (y, t) ∷ bs) = last_units ((y, t) ∷ bs)

abbrev pub grow_last : ℕ → List Block → List Block
grow_last u [] = []
grow_last u ((x, s) ∷ []) = (x, s + u) ∷ []
grow_last u ((x, s) ∷ (y, t) ∷ bs) = (x, s) ∷ grow_last u ((y, t) ∷ bs)

-- The last block ends at `b`.
abbrev pub Touches : ℕ → List Block → Type 0
Touches b bs = last_at 0 bs + 8 * last_units bs ≡ b

last_size :
    (m : Mem) (a p x s : ℕ) (bs : List Block)
    → Links m a ((x, s) ∷ bs) p
    → size m p ≡ last_units ((x, s) ∷ bs)
last_size m a p x s [] (n, z, e) = rw (sym e) z
last_size m a p x s ((y, t) ∷ bs) (n, z, l) = last_size m x p y t bs l

pub Clear-grow :
    (lo hi b u : ℕ) (bs : List Block)
    → lo < hi
    → 0 < u
    → Clear lo hi bs
    → (hi ≤ b) ⊎ (b + 8 * u ≤ lo)
    → Touches b bs
    → Clear lo hi (grow_last u bs)
Clear-grow lo hi b u [] wide some_units c d e = tt
Clear-grow lo hi b u ((x, s) ∷ []) wide some_units (c, _) d e = (both c d, tt)
  where
    both :
        (hi ≤ x) ⊎ (x + span s ≤ lo)
        → (hi ≤ b) ⊎ (b + 8 * u ≤ lo)
        → (hi ≤ x) ⊎ (x + span (s + u) ≤ lo)
    both (inl c) d = inl c
    both (inr c) (inl d) = let wide' : 8 * s ≤ span s = ground arith in absurd (omega arith)
    both (inr c) (inr d) =
        let long : span (s + u) ≡ 8 * (s + u) = ground arith in inr (omega (arith, long))
Clear-grow lo hi b u ((x, s) ∷ (y, t) ∷ bs) wide some_units (c, k) d e =
    (c, Clear-grow lo hi b u ((y, t) ∷ bs) wide some_units k d e)

AllApart-grow :
    (b u : ℕ) (bs : List Block)
    → 0 < u
    → AllApart bs
    → Clear b (b + 8 * u) bs
    → Touches b bs
    → AllApart (grow_last u bs)
AllApart-grow b u [] some_units k c e = tt
AllApart-grow b u ((x, s) ∷ []) some_units k c e = (tt, tt)
AllApart-grow b u ((x, s) ∷ (y, t) ∷ bs) some_units (h, k) (d, c) e = (
  Clear-grow x (x + span s) b u ((y, t) ∷ bs) (omega (arith, span_wide s)) some_units h (other d) e,
  AllApart-grow b u ((y, t) ∷ bs) some_units k c e,
)
  where
    other : (b + 8 * u ≤ x) ⊎ (x + span s ≤ b) → (x + span s ≤ b) ⊎ (b + 8 * u ≤ x)
    other (inl d) = inr d
    other (inr d) = inl d

AllFit-grow :
    (b u : ℕ) (bs : List Block)
    → 0 < u
    → AllFit bs
    → b + 8 * u < 4294967296
    → Touches b bs
    → AllFit (grow_last u bs)
AllFit-grow b u [] some_units f end e = tt
AllFit-grow b u ((x, s) ∷ []) some_units (p, q, f) end e =
    let long : span (s + u) ≡ 8 * (s + u) = ground arith in (p, omega (arith, long), tt)
AllFit-grow b u ((x, s) ∷ (y, t) ∷ bs) some_units (p, q, f) end e =
    (p, q, AllFit-grow b u ((y, t) ∷ bs) some_units f end e)

-- The size of the last block is written.
Links-grow :
    (m : Mem) (a p v u : ℕ) (bs : List Block)
    → Links m a bs p
    → AllApart bs
    → next (set_size p (v + u) m) a ≡ next m a
    → size m p ≡ v
    → v + u < 4294967296
    → Links (set_size p (v + u) m) a (grow_last u bs) p
Links-grow m a p v u [] l apart e w small = l
Links-grow m a p v u ((x, s) ∷ []) (n, z, l) apart e w small =
    let same : s ≡ v = sym z ∙ ap (λ q. size m q) l ∙ w in
    let now : size (set_size p (v + u) m) p ≡ v + u =
      load32-store32_self m (p + 4) (v + u) ∙ small_mod (v + u) small in
    (e ∙ n, rw (l, same) now, l)
Links-grow m a p v u ((x, s) ∷ (y, t) ∷ bs) (n, z, l) (c, apart) e w small =
    let off = last-Clear x (x + span s) x p y t m bs l c in
    let wide = span_wide s in
    (
      e ∙ n,
      load32-store32_apart m (p + 4) (v + u) (x + 4) (omega arith) ∙ z,
      Links-grow m x p v u ((y, t) ∷ bs) l apart
          (load32-store32_apart m (p + 4) (v + u) x (omega arith)) w small,
    )

last-Fit :
    (x s : ℕ) (bs : List Block)
    → AllFit ((x, s) ∷ bs)
    → last_at x bs + span (last_units ((x, s) ∷ bs)) < 4294967296
last-Fit x s [] (p, q, f) = q
last-Fit x s ((y, t) ∷ bs) (p, q, f) = last-Fit y t bs f

-- What `join_lower` leaves of a block and the blocks behind it.
abbrev pub lower_blocks : (b u p : ℕ) → List Block → List Block
lower_blocks b u p bs = if p + 8 * last_units bs == b then grow_last u bs else ((b, u) ∷ bs)

module _ (m : Mem) (p b u x t : ℕ) (rest : List Block) (h : IsHanging m p b u ((x, t) ∷ rest)) where
  pub last_size_lem : size m p ≡ last_units ((x, t) ∷ rest)
  last_size_lem = last_size m b p x t rest (h.links)

  last_place : last_at x rest ≡ p
  last_place = Links-last_at m b p ((x, t) ∷ rest) (h.links)

  last_end : p + 8 * size m p < 4294967296
  last_end =
      let fits = last-Fit x t rest (h.fit) in
      let wide : 8 * size m p ≤ span (size m p) = ground arith in
      let whole : p + span (size m p) < 4294967296 = rw (last_size_lem, sym last_place) fits in
      omega arith

  last_apart : (b + 8 * u ≤ p) ⊎ (p + 8 ≤ b)
  last_apart = last-Clear b (b + 8 * u) b p x t m rest (h.links) (h.clear)

  block_end_lem : block_end m p ≡ p + 8 * size m p
  block_end_lem = omega (arith, last_end)

  front_IsRing : IsRing (set_next p b m) p ((b, u) ∷ (x, t) ∷ rest)
  front_IsRing =
      let some_units = h.some_units in
      let long : span u ≡ 8 * u = ground arith in
      let end = h.end in
      record {
        links = (
          load32-store32_self m p b ∙ small_mod b (omega arith),
          load32-store32_apart m p b (b + 4) (omega (arith, last_apart)) ∙ h.units,
          Links-hole b b p b m ((x, t) ∷ rest) (h.links) (h.apart)
              (load32-store32_apart m p b b (omega (arith, last_apart))) (λ q. cc),
        );
        apart = (
          Clear-within b (b + 8 * u) b (b + span u) ((x, t) ∷ rest) (omega arith)
              (omega (arith, long)) (h.clear),
          h.apart,
        );
        fit = (h.place, omega (arith, long), h.fit);
      }

  touch_lem : p + 8 * last_units ((x, t) ∷ rest) ≡ b → Touches b ((x, t) ∷ rest)
  touch_lem e = rw last_place e

  grown_mem : Mem
  grown_mem = set_size p (last_units ((x, t) ∷ rest) + u) m

  grown_IsRing :
      p + 8 * last_units ((x, t) ∷ rest) ≡ b
      → IsRing (set_next p (next grown_mem b) grown_mem) p (grow_last u ((x, t) ∷ rest))
  unfolding grown_mem
  grown_IsRing e =
      let some_units = h.some_units in
      let end = h.end in
      let v = last_units ((x, t) ∷ rest) in
      let touch = touch_lem e in
      let apart' = AllApart-grow b u ((x, t) ∷ rest) some_units (h.apart) (h.clear) touch in
      let same : next (set_size p (v + u) m) b ≡ next m b =
        load32-store32_apart m (p + 4) (v + u) b (omega (arith, last_apart)) in
      let below : x < 4294967296 = omega (arith, h.fit.1) in
      record {
        links =
            Links-hole p b p (next grown_mem b) grown_mem (grow_last u ((x, t) ∷ rest))
              (Links-grow m b p v u ((x, t) ∷ rest) (h.links) (h.apart) same last_size_lem
                (omega arith))
              apart'
              (load32-store32_self grown_mem p (next grown_mem b)
                ∙ small_mod (next grown_mem b) (rw (same, h.links.0) below))
              (λ q. refl);
        apart = apart';
        fit = AllFit-grow b u ((x, t) ∷ rest) some_units (h.fit) end touch;
      }

  pub join_lower-IsRing : IsRing (join_lower b p m) p (lower_blocks b u p ((x, t) ∷ rest))
  unfolding join_lower grown_mem
  join_lower-IsRing =
      let end = last_end in
      let sum : p + 8 * size m p ≡ b → add32 (size m p) u ≡ size m p + u =
        λ e. omega (arith, h.end, h.some_units) in
      elim (Bool-cases (p + 8 * last_units ((x, t) ∷ rest) == b)) [
        | inl e ↦
            let touch : p + 8 * last_units ((x, t) ∷ rest) ≡ b = ground arith in
            let touch' : p + 8 * size m p ≡ b = rw last_size_lem touch in
            rw (block_end_lem, h.units, sum touch', last_size_lem, e) (grown_IsRing touch)
        | inr e ↦ rw (block_end_lem, last_size_lem, e) front_IsRing
      ]

  pub join_lower-SameOutside : SameOutside p (p + 8) m (join_lower b p m)
  unfolding join_lower
  join_lower-SameOutside y o = elim (Bool-cases (block_end m p == b)) [
    | inl e ↦ rw e (
        store32_frame (set_size p (add32 (size m p) (size m b)) m) p
          (next (set_size p (add32 (size m p) (size m b)) m) b) y (omega arith)
        ∙ store32_frame m (p + 4) (add32 (size m p) (size m b)) y (omega arith))
    | inr e ↦ rw e (store32_frame m p b y (omega arith))
  ]

pub lower-IsRing :
    (m : Mem) (p b u : ℕ) (bs : List Block)
    → IsHanging m p b u bs
    → IsRing (join_lower b p m) p (lower_blocks b u p bs)
lower-IsRing m p b u [] h = absurd (h.others refl)
lower-IsRing m p b u ((x, t) ∷ rest) h = join_lower-IsRing m p b u x t rest h

-- What is apart from the list's blocks is as it was.
pub lower-SameOutside :
    (m : Mem) (p b u : ℕ) (bs : List Block) (lo hi : ℕ)
    → IsHanging m p b u bs
    → Clear lo hi bs
    → (y : ℕ) → (lo ≤ y) × (y < hi)
    → join_lower b p m y ≡ m y
lower-SameOutside m p b u [] lo hi h c y k = absurd (h.others refl)
lower-SameOutside m p b u ((x, t) ∷ rest) lo hi h c y k =
    let off = last-Clear lo hi b p x t m rest (h.links) c in
    join_lower-SameOutside m p b u x t rest h y (omega arith)
