-- ===== src/Libc/Malloc/Insert.antt =====
-- How `free` of src/libc/stdlib.c joins a block to the one above it.
use jiauliyan_os.Base.{
  ℕ, ◌+◌, ◌*◌, ◌≤◌, ◌<◌, ◌≡◌, ◌≢◌, ◌⊎◌, inl, inr, refl, sym, ◌∙◌, List, [], ◌∷◌, arith, ◌==◌,
  Bool-cases, if◌then◌else◌, true, false,
}
use jiauliyan_os.Base.Words.{add32}
use jiauliyan_os.Memory.{Mem}
use jiauliyan_os.Memory.Laws.{load32-store32_self, load32-store32_apart, store32_frame}
use jiauliyan_os.Libc.Malloc.{next, size, set_next, set_size, block_end, join_upper}
use jiauliyan_os.Libc.Malloc.Ring.{Block, span, Links, Clear, AllApart, AllFit, IsRing}
use jiauliyan_os.Libc.Malloc.Carve.{
  SameOutside, Links-outside, last-Clear, span_wide, small_mod, next_small,
}
use jiauliyan_os.Libc.Malloc.Split.{Clear-within}

-- The block `(b, u)` leads into the list of blocks that ends at `p`, and no block leads to it yet.
pub record IsHanging (m : Mem) (p b u : ℕ) (bs : List Block) : Type 0 where
  pub links : Links m b bs p
  pub units : size m b ≡ u
  pub apart : AllApart bs
  pub clear : Clear b (b + 8 * u) bs
  pub fit : AllFit bs
  pub others : bs ≢ []
  pub place : 0 < b
  pub some_units : 0 < u
  pub end : b + 8 * u < 4294967296

-- What `join_upper` leads `b` to, and the size that `b` gets.
abbrev pub upper_blocks : (b s x t : ℕ) → List Block → List Block
upper_blocks b s x t rest = if b + 8 * s == x then rest else ((x, t) ∷ rest)

abbrev pub upper_units : (b s x t : ℕ) → ℕ
upper_units b s x t = if b + 8 * s == x then s + t else s

-- A block that touches the one above it is apart from the others with it, if both are.
Clear-join :
    (b s x t : ℕ) (bs : List Block)
    → b + 8 * s ≡ x
    → Clear b (b + 8 * s) bs
    → Clear x (x + span t) bs
    → Clear b (b + 8 * (s + t)) bs
Clear-join b s x t [] touch h k = tt
Clear-join b s x t ((y, n) ∷ bs) touch (d, h) (e, k) = (both d e, Clear-join b s x t bs touch h k)
  where
    both :
        (b + 8 * s ≤ y) ⊎ (y + span n ≤ b)
        → (x + span t ≤ y) ⊎ (y + span n ≤ x)
        → (b + 8 * (s + t) ≤ y) ⊎ (y + span n ≤ b)
    both (inr d) e = inr d
    both (inl d) (inl e) = let wide : 8 * t ≤ span t = ground arith in inl (omega arith)
    both (inl d) (inr e) = absurd (omega (arith, span_wide n))

module _ (m : Mem) (p b s x t : ℕ) (rest : List Block) (r : IsRing m p ((x, t) ∷ rest))
    (some_units : 0 < s) (place : 0 < b) (end : b + 8 * s < 4294967296) (units : size m b ≡ s)
    (clear : Clear b (b + 8 * s) ((x, t) ∷ rest)) where
  -- The header of `p`, which is the last block.
  front_apart : (b + 8 * s ≤ p) ⊎ (p + 8 ≤ b)
  front_apart = last-Clear b (b + 8 * s) p p x t m rest r.links clear

  end_lem : block_end m b ≡ b + 8 * s
  end_lem = rw units (omega arith)

  plain_mem : Mem
  plain_mem = set_next b x m

  plain_outside : SameOutside b (b + 8) m plain_mem
  unfolding plain_mem
  plain_outside y h = store32_frame m b x y (omega arith)

  plain-IsHanging : IsHanging plain_mem p b s ((x, t) ∷ rest)
  unfolding plain_mem
  plain-IsHanging =
      let fits = r.fit.1 in
      record {
        links =
            Links-outside b (b + 8) p b p m plain_mem ((x, t) ∷ rest) plain_outside
              (Clear-within b (b + 8 * s) b (b + 8) ((x, t) ∷ rest) (omega arith) (omega arith)
                clear)
              (r.links) (load32-store32_self m b x ∙ small_mod x (omega arith) ∙ sym (r.links.0))
              (λ q. cc);
        units = load32-store32_apart m b x (b + 4) (omega arith) ∙ units;
        apart = r.apart;
        clear = clear;
        fit = r.fit;
        others = λ q. cc;
        place = place;
        some_units = some_units;
        end = end;
      }

  -- The block above is joined.
  joined_mem : Mem
  joined_mem = set_next b (next m x) (set_size b (s + t) m)

  joined_outside : SameOutside b (b + 8) m joined_mem
  unfolding joined_mem
  joined_outside y h =
      store32_frame (set_size b (s + t) m) b (next m x) y (omega arith)
      ∙ store32_frame m (b + 4) (s + t) y (omega arith)

  joined-next : rest ≢ [] → next joined_mem b ≡ next m x
  unfolding joined_mem
  joined-next others =
      load32-store32_self (set_size b (s + t) m) b (next m x)
      ∙ small_mod (next m x) (next_small m x p rest others (r.links.2) (r.fit.2))

  joined-size : s + t < 4294967296 → size joined_mem b ≡ s + t
  unfolding joined_mem
  joined-size small =
      load32-store32_apart (set_size b (s + t) m) b (next m x) (b + 4) (omega arith)
      ∙ load32-store32_self m (b + 4) (s + t)
      ∙ small_mod (s + t) small

  joined-IsHanging : b + 8 * s ≡ x → rest ≢ [] → IsHanging joined_mem p b (s + t) rest
  joined-IsHanging touch others =
      let fits = r.fit.1 in
      let wide : 8 * t ≤ span t = ground arith in
      record {
        links =
            Links-outside b (b + 8) x b p m joined_mem rest joined_outside
              (Clear-within b (b + 8 * s) b (b + 8) rest (omega arith) (omega arith) (clear.1))
              (r.links.2) (joined-next others) (λ q. absurd (others q));
        units = joined-size (omega (arith, wide));
        apart = r.apart.1;
        clear = Clear-join b s x t rest touch (clear.1) (r.apart.0);
        fit = r.fit.2;
        others = others;
        place = place;
        some_units = omega arith;
        end = omega (arith, wide);
      }

  upper_plain : (b + 8 * s == x) ≡ false → join_upper b p m ≡ plain_mem
  unfolding join_upper plain_mem
  upper_plain e = rw (r.links.0, end_lem, e) refl

  upper_joined : (b + 8 * s == x) ≡ true → join_upper b p m ≡ joined_mem
  unfolding join_upper joined_mem
  upper_joined e =
      let fits = r.fit.1 in
      let touch : b + 8 * s ≡ x = ground arith in
      let wide : 8 * t ≤ span t = ground arith in
      let sum : add32 s t ≡ s + t = omega (arith, wide) in
      let at_p : next (set_size b (s + t) m) p ≡ x =
        load32-store32_apart m (b + 4) (s + t) p (omega (arith, front_apart)) ∙ r.links.0 in
      let at_x : next (set_size b (s + t) m) x ≡ next m x =
        load32-store32_apart m (b + 4) (s + t) x (omega arith) in
      rw (r.links.0, end_lem, e, units, r.links.1, sum, at_p, at_x) refl

  pub join_upper-IsHanging :
      (b + 8 * s ≡ x → rest ≢ [])
      → IsHanging (join_upper b p m) p b (upper_units b s x t) (upper_blocks b s x t rest)
  join_upper-IsHanging others = elim (Bool-cases (b + 8 * s == x)) [
    | inl e ↦
        let touch : b + 8 * s ≡ x = ground arith in
        rw (upper_joined e, e) (joined-IsHanging touch (others touch))
    | inr e ↦ rw (upper_plain e, e) plain-IsHanging
  ]

  pub join_upper-SameOutside : SameOutside b (b + 8) m (join_upper b p m)
  join_upper-SameOutside = elim (Bool-cases (b + 8 * s == x)) [
    | inl e ↦ rw (upper_joined e) joined_outside
    | inr e ↦ rw (upper_plain e) plain_outside
  ]
