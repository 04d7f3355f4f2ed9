-- ===== src/Drivers/Timer/Tests.antt =====
-- Runs of src/drivers/timer.c, and its theorems at concrete times.
use jiauliyan_os.Base.{ℕ, ◌+◌, ◌≤◌, ◌<◌, ◌≡◌, ◌++◌, refl, List, [], ◌∷◌, some, length, take, arith}
use jiauliyan_os.Drivers.Timer.{
  timer_wait, wait_from, interrupts, timer_interrupt, timer_phase, programmed,
}
use jiauliyan_os.Drivers.Timer.Waiting.{total, timer_wait_lem}

-- The kernel's clock runs at 100 Hz.
hundred_hz : programmed (timer_phase 100 []) ≡ some 11931
unfolding timer_phase programmed
hundred_hz = refl

-- The loop tests twice in front of the first tick, and two ticks come in front of its last test.
abbrev some_ticks : List ℕ
some_ticks = 0 ∷ 0 ∷ 1 ∷ 0 ∷ 2 ∷ 1 ∷ []

some_ticks_small : 5000 + total some_ticks < 4294967296
unfolding total
some_ticks_small = omega arith

some_ticks_enough : 2 ≤ total some_ticks
unfolding total
some_ticks_enough = omega arith

timer_wait_lem_example :
    (before : List ℕ) × ((after : List ℕ) × (some_ticks ≡ before ++ after)
      × (timer_wait some_ticks 2 5000 ≡ some (5000 + total before, after))
      × (2 ≤ total before)
      × ((i : ℕ) → i < length before → total (take i before) < 2))
timer_wait_lem_example = timer_wait_lem some_ticks 2 5000 some_ticks_small some_ticks_enough

timer_wait-some_ticks : timer_wait some_ticks 2 5000 ≡ some (5003, 1 ∷ [])
unfolding timer_wait wait_from interrupts timer_interrupt
timer_wait-some_ticks = refl
