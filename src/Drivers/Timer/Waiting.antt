-- ===== src/Drivers/Timer/Waiting.antt =====
-- How long `timer_wait` of src/drivers/timer.c waits.
use jiauliyan_os.Base.{
  ℕ, zero, suc, ◌+◌, ◌≤◌, ◌<◌, ◌≡◌, refl, ap, ◌∙◌, Bool-cases, inl, inr, true, false, List, [], ◌∷◌,
  ◌++◌, Option, some, arith, ltb, length, take,
}
use jiauliyan_os.Base.Words.{add32}
use jiauliyan_os.Drivers.Timer.{timer_interrupt, interrupts, wait_from, timer_wait}

unfoldable pub total : List ℕ → ℕ
total [] = 0
total (n ∷ ns) = n + total ns

timer_interrupt_lem : (ticks : ℕ) → ticks + 1 < 4294967296 → timer_interrupt ticks ≡ ticks + 1
unfolding timer_interrupt
timer_interrupt_lem ticks h = omega arith

interrupts_lem : (n ticks : ℕ) → ticks + n < 4294967296 → interrupts n ticks ≡ ticks + n
unfolding interrupts
interrupts_lem zero ticks h = omega arith
interrupts_lem (suc n) ticks h =
    rw (timer_interrupt_lem ticks (omega arith))
      (interrupts_lem n (ticks + 1) (omega arith) ∙ omega arith)

-- The list is cut where the loop ends: the interrupts in front of the cut are enough to reach `eticks`,
-- and at no test before were they.
abbrev pub Cut : List ℕ → (eticks ticks : ℕ) → Option (ℕ × List ℕ) → List ℕ → List ℕ → Type 0
Cut between eticks ticks r before after =
    (between ≡ before ++ after)
    × (r ≡ some (ticks + total before, after))
    × (eticks ≤ ticks + total before)
    × ((i : ℕ) → i < length before → ticks + total (take i before) < eticks)

Cut-now :
    (between : List ℕ) (eticks ticks : ℕ)
    → eticks ≤ ticks
    → Cut between eticks ticks (wait_from between eticks ticks) [] between
unfolding wait_from total
Cut-now [] eticks ticks h =
    let stop : ltb ticks eticks ≡ false = ground arith in
    let same : ticks + 0 ≡ ticks = omega arith in
    rw (stop, same) (refl, refl, h, λ i k. absurd (omega arith))
Cut-now (n ∷ between) eticks ticks h =
    let stop : ltb ticks eticks ≡ false = ground arith in
    let same : ticks + 0 ≡ ticks = omega arith in
    rw (stop, same) (refl, refl, h, λ i k. absurd (omega arith))

Cut-later :
    (n : ℕ) (between : List ℕ) (eticks ticks : ℕ) (before after : List ℕ)
    → ticks < eticks
    → ticks + n < 4294967296
    → Cut between eticks (ticks + n) (wait_from between eticks (ticks + n)) before after
    → Cut (n ∷ between) eticks ticks (wait_from (n ∷ between) eticks ticks) (n ∷ before) after
unfolding wait_from total
Cut-later n between eticks ticks before after h small (whole, r, reached, earlier) =
    let go : ltb ticks eticks ≡ true = ground arith in
    rw (go, interrupts_lem n ticks small)
      (
        ap (λ l. n ∷ l) whole,
        r ∙ ap (λ k. some (k, after)) (omega arith),
        omega arith,
        λ i k. early i k,
      )
  where
    early : (i : ℕ) → i < length (n ∷ before) → ticks + total (take i (n ∷ before)) < eticks
    early zero k = omega arith
    early (suc i) k = let e = earlier i (omega arith) in omega arith

wait_from_lem :
    (between : List ℕ) (eticks ticks : ℕ)
    → ticks + total between < 4294967296
    → eticks ≤ ticks + total between
    → (before : List ℕ) × ((after : List ℕ) × Cut between eticks ticks
          (wait_from between eticks ticks)
          before
          after)
unfolding total
wait_from_lem [] eticks ticks small enough = ([], ([], Cut-now [] eticks ticks (omega arith)))
wait_from_lem (n ∷ between) eticks ticks small enough = elim (Bool-cases (ltb ticks eticks)) [
  | inr stop ↦ ([], (n ∷ between, Cut-now (n ∷ between) eticks ticks (ground arith)))
  | inl go ↦
      let (before, (after, cut)) =
        wait_from_lem between eticks (ticks + n) (omega arith) (omega arith) in
      (
        n ∷ before,
        (after, Cut-later n between eticks ticks before after (ground arith) (omega arith) cut),
      )
]

-- Whatever number of interrupts comes between each test of its loop and the next, as long as all of
-- them are enough for the wait and do not make the tick counter wrap, `timer_wait` returns, at the
-- first test in front of which as many ticks came as it was asked for.
pub timer_wait_lem :
    (between : List ℕ) (wait ticks : ℕ)
    → ticks + total between < 4294967296
    → wait ≤ total between
    → (before : List ℕ) × ((after : List ℕ) × (between ≡ before ++ after)
        × (timer_wait between wait ticks ≡ some (ticks + total before, after))
        × (wait ≤ total before)
        × ((i : ℕ) → i < length before → total (take i before) < wait))
unfolding timer_wait
timer_wait_lem between wait ticks small enough =
    let sum : add32 ticks wait ≡ ticks + wait = omega arith in
    let (before, (after, (whole, r, reached, earlier))) =
      wait_from_lem between (ticks + wait) ticks small (omega arith) in
    rw sum (before, (after, whole, r, omega arith, λ i k. let e = earlier i k in omega arith))

-- Where the sum of two 32-bit numbers, the tick counter and the wait, passes 2^32, `timer_wait` does
-- not wait at all.
pub timer_wait_wraps :
    (between : List ℕ) (wait ticks : ℕ)
    → ticks < 4294967296
    → wait < 4294967296
    → 4294967296 ≤ ticks + wait
    → timer_wait between wait ticks ≡ some (ticks, between)
unfolding timer_wait wait_from
timer_wait_wraps [] wait ticks ht hw h = ground arith
timer_wait_wraps (n ∷ between) wait ticks ht hw h = ground arith
