-- ===== src/Libc/Malloc/Place.antt =====
-- Where `free` of src/libc/stdlib.c puts a block into the ring.
use jiauliyan_os.Base.{
  ℕ, zero, suc, ◌+◌, ◌≤◌, ◌<◌, ◌≡◌, ◌⊎◌, inl, inr, refl, ap, List, [], ◌∷◌, ◌++◌, arith, Bool,
  Bool-cases, true, false, ◌&&◌, ◌||◌, ltb, leb, length, some,
}
use jiauliyan_os.Memory.{Mem}
use jiauliyan_os.Libc.Malloc.{find_place}
use jiauliyan_os.Libc.Malloc.Ring.{Block, span, Links, Clear, last_at}
use jiauliyan_os.Libc.Malloc.Carve.{span_wide}

-- The test of the loop: `b` lies between the neighbours, or at the seam of the ring.
abbrev pub fits_between : ℕ → ℕ → ℕ → Bool
fits_between b p n = (ltb p b && ltb b n) || (leb n p && (ltb p b || ltb b n))

-- The test holds of two neighbours on the way from `p` through the blocks.
abbrev pub HasPlace : ℕ → ℕ → List Block → Type 0
HasPlace b p [] = ⊥
HasPlace b p ((x, s) ∷ bs) = (fits_between b p x ≡ true) ⊎ HasPlace b x bs

-- A block that is no place for `b`, seen from below `b` and from above it.
step_below :
    (b hi p x s : ℕ)
    → b < hi
    → (hi ≤ x) ⊎ (x + span s ≤ b)
    → p < b
    → fits_between b p x ≡ false
    → (p < x) × (x < b)
step_below b hi p x s wide c low off = ground (arith, span_wide s)

step_above :
    (b hi p x s : ℕ)
    → b < hi
    → (hi ≤ x) ⊎ (x + span s ≤ b)
    → b < p
    → fits_between b p x ≡ false
    → ((p < x) × (b < x)) ⊎ (x < b)
step_above b hi p x s wide c high off = ground (arith, span_wide s)

-- From below `b` the way leads up and stays below, or passes a place.
from_below :
    (b hi p x s : ℕ) (bs : List Block)
    → b < hi
    → Clear b hi ((x, s) ∷ bs)
    → p < b
    → HasPlace b p ((x, s) ∷ bs) ⊎ ((p < last_at x bs) × (last_at x bs < b))
from_below b hi p x s [] wide (c, clear) low = elim (Bool-cases (fits_between b p x)) [
  | inl here ↦ inl (inl here)
  | inr off ↦ inr (step_below b hi p x s wide c low off)
]
from_below b hi p x s ((y, t) ∷ bs) wide (c, clear) low = elim (Bool-cases (fits_between b p x)) [
  | inl here ↦ inl (inl here)
  | inr off ↦
      let (up, low') = step_below b hi p x s wide c low off in
      elim (from_below b hi x y t bs wide clear low') [
        | inl place ↦ inl (inr place)
        | inr (up', last) ↦ inr (omega arith, last)
      ]
]

-- From above `b` it leads up, or comes to below `b`, or passes a place.
from_above :
    (b hi p x s : ℕ) (bs : List Block)
    → b < hi
    → Clear b hi ((x, s) ∷ bs)
    → b < p
    → HasPlace b p ((x, s) ∷ bs) ⊎ ((p < last_at x bs) ⊎ (last_at x bs < b))
from_above b hi p x s [] wide (c, clear) high = elim (Bool-cases (fits_between b p x)) [
  | inl here ↦ inl (inl here)
  | inr off ↦ elim (step_above b hi p x s wide c high off) [
    | inl (up, _) ↦ inr (inl up)
    | inr low ↦ inr (inr low)
  ]
]
from_above b hi p x s ((y, t) ∷ bs) wide (c, clear) high = elim (Bool-cases (fits_between b p x)) [
  | inl here ↦ inl (inl here)
  | inr off ↦ elim (step_above b hi p x s wide c high off) [
    | inl (up, high') ↦ elim (from_above b hi x y t bs wide clear high') [
      | inl place ↦ inl (inr place)
      | inr (inl up') ↦ inr (inl (omega arith))
      | inr (inr last) ↦ inr (inr last)
    ]
    | inr low ↦ elim (from_below b hi x y t bs wide clear low) [
      | inl place ↦ inl (inr place)
      | inr (up', last) ↦ inr (inr last)
    ]
  ]
]

last_apart :
    (b hi x s : ℕ) (bs : List Block)
    → b < hi
    → Clear b hi ((x, s) ∷ bs)
    → (last_at x bs < b) ⊎ (b < last_at x bs)
last_apart b hi x s [] wide (c, clear) = ground (arith, span_wide s)
last_apart b hi x s ((y, t) ∷ bs) wide (c, clear) = last_apart b hi y t bs wide clear

-- On a ring the way comes back to where it began, so it passes a place.
pub ring-HasPlace :
    (b hi p x s : ℕ) (bs : List Block)
    → b < hi
    → Clear b hi ((x, s) ∷ bs)
    → last_at x bs ≡ p
    → HasPlace b p ((x, s) ∷ bs)
ring-HasPlace b hi p x s bs wide clear e = elim (last_apart b hi x s bs wide clear) [
  | inl low ↦ elim (from_below b hi p x s bs wide clear (omega arith)) [
    | inl place ↦ place
    | inr (up, _) ↦ absurd (omega arith)
  ]
  | inr high ↦ elim (from_above b hi p x s bs wide clear (omega arith)) [
    | inl place ↦ place
    | inr (inl up) ↦ absurd (omega arith)
    | inr (inr low) ↦ absurd (omega arith)
  ]
]

-- The loop ends at a place, in no more rounds than there are blocks.
pub find_place_lem :
    (bs : List Block) (fuel b p z : ℕ) (m : Mem)
    → Links m p bs z
    → HasPlace b p bs
    → length bs ≤ fuel
    → (ks : List Block) × ((x : ℕ) × ((s : ℕ) × ((rest : List Block) × ((bs ≡ ks ++ (x, s) ∷ rest)
              × (find_place fuel b p m ≡ some (last_at p ks))))))
unfolding find_place
find_place_lem [] fuel b p z m l place enough = absurd place
find_place_lem ((x, s) ∷ bs) zero b p z m l place enough = absurd (omega arith)
find_place_lem ((x, s) ∷ bs) (suc fuel) b p z m (e, _, l) place enough =
    elim (Bool-cases (fits_between b p x)) [
      | inl here ↦ ([], (x, (s, (bs, (refl, rw (e, find_place, here) refl)))))
      | inr off ↦ elim place [
        | inl here ↦ absurd (cc)
        | inr place' ↦
            let (ks, (y, (t, (rest, (e', found))))) =
              find_place_lem bs fuel b x z m l place' (omega arith) in
            (
              (x, s) ∷ ks,
              (y, (t, (rest, (ap (λ r. (x, s) ∷ r) e', rw (e, find_place, off, e) found)))),
            )
      ]
    ]
