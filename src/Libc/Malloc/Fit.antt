-- ===== src/Libc/Malloc/Fit.antt =====
-- Which block `malloc` of src/libc/stdlib.c finds.
use mathlib.Core.Option
use jiauliyan_os.Base.{
  ℕ, zero, suc, ◌+◌, ◌<◌, ◌≡◌, inl, inr, refl, sym, ◌∙◌, List, [], ◌∷◌, arith, ◌==◌, if◌then◌else◌,
  Bool-cases, true, false, leb, length, Option, none, some,
}
use jiauliyan_os.Memory.{Mem}
use jiauliyan_os.Libc.Malloc.{next, carve, search_from, block_ptr}
use jiauliyan_os.Libc.Malloc.Ring.{Block, span, Links, AllApart, last_at}
use jiauliyan_os.Libc.Malloc.Carve.{last-Clear, span_wide}

-- A list of blocks around the first that is large enough.
pub record Found : Type 0 where
  pub before : List Block
  pub addr : ℕ
  pub units : ℕ
  pub after : List Block

-- The same with one more block in front.
abbrev pub behind : ℕ → ℕ → Found → Found
behind x s f = record f { before = (x, s) ∷ f.before }

unfoldable pub first_fit : ℕ → List Block → Option Found
first_fit n [] = none
first_fit n ((x, s) ∷ bs) =
    let rest = Option.map (behind x s) (first_fit n bs) in
    if leb n s then some (record { before = []; addr = x; units = s; after = bs }) else rest

-- The result of the search where `o` is what it finds.
abbrev pub outcome : (n freep prevp : ℕ) → Mem → Option Found → Option (ℕ × ℕ × Mem)
outcome n freep prevp m none = some (0, freep, m)
outcome n freep prevp m (some f) =
    let q = last_at prevp f.before in let r = carve q f.addr n m in some (block_ptr (r.0), q, r.1)

outcome-map :
    (n freep prevp x s : ℕ) (m : Mem) (o : Option Found)
    → outcome n freep prevp m (Option.map (behind x s) o) ≡ outcome n freep x m o
outcome-map n freep prevp x s m none = refl
outcome-map n freep prevp x s m (some f) = refl

pub search_lem :
    (bs : List Block) (fuel n freep prevp x s : ℕ) (m : Mem)
    → Links m prevp ((x, s) ∷ bs) freep
    → AllApart ((x, s) ∷ bs)
    → length bs < fuel
    → search_from fuel n freep prevp x m ≡ outcome n freep prevp m (first_fit n ((x, s) ∷ bs))
unfolding search_from first_fit
search_lem bs zero n freep prevp x s m l apart enough = absurd (omega arith)
search_lem [] (suc fuel) n freep prevp x s m (e, z, l) apart enough =
    let seam : (x == freep) ≡ true = ground arith in
    elim (Bool-cases (leb n s)) [
      | inl fits ↦ rw (z, search_from, fits) refl
      | inr small ↦ rw (z, search_from, small, seam) refl
    ]
search_lem ((y, t) ∷ bs) (suc fuel) n freep prevp x s m (e, z, l) (clear, apart) enough =
    let off = last-Clear x (x + span s) x freep y t m bs l clear in
    let on : (x == freep) ≡ false = ground (arith, span_wide s) in
    let there : next m x ≡ y = l.0 in
    elim (Bool-cases (leb n s)) [
      | inl fits ↦ rw (z, search_from, fits) refl
      | inr small ↦
          rw (z, search_from, small, on, there)
            (search_lem bs fuel n freep x y t m l apart (omega arith)
              ∙ sym (outcome-map n freep prevp x s m (first_fit n ((y, t) ∷ bs))))
    ]
