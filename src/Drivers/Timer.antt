-- ===== src/Drivers/Timer.antt =====
-- The clock (src/drivers/timer.c).
pub mod Waiting
mod Tests
use jiauliyan_os.Base.{
  ℕ, zero, suc, ◌+◌, ◌*◌, ◌/◌, ◌%◌, refl, bit_and, Bool, List, [], ◌∷◌, Option, none, some, true,
  ltb, if◌then◌else◌, Bool-cases, inl, inr,
}
use jiauliyan_os.Base.Words.{add32}
use jiauliyan_os.Drivers.Ports.{PortLog, outportb}

-- `timer_ticks`, an unsigned int.
pub timer_interrupt : ℕ → ℕ
timer_interrupt ticks = add32 ticks 1

-- At 0 the division of the source faults.
pub timer_phase : ℕ → PortLog → PortLog
timer_phase hz p =
    let divisor = 1193180 / hz in
    outportb 0x40 (divisor / 256) (outportb 0x40 (bit_and divisor 0xFF) (outportb 0x43 0x36 p))

-- So many interrupts.
pub interrupts : ℕ → ℕ → ℕ
interrupts zero ticks = ticks
interrupts (suc n) ticks = interrupts n (timer_interrupt ticks)

-- The loop of `timer_wait`: the counter when it ends, and what is left of the list. The list is an input
-- of the model: how many interrupts come between a test of the loop and the next, any number or none.
-- `none`: the loop still waits at the list's end. The build does not optimise, so every test reads the
-- counter anew.
pub wait_from : List ℕ → ℕ → ℕ → Option (ℕ × List ℕ)
wait_from [] eticks ticks = if ltb ticks eticks then none else some (ticks, [])
wait_from (n ∷ between) eticks ticks =
    let rest = wait_from between eticks (interrupts n ticks) in
    if ltb ticks eticks then rest else some (ticks, n ∷ between)

pub timer_wait : List ℕ → ℕ → ℕ → Option (ℕ × List ℕ)
timer_wait between wait ticks = wait_from between (add32 ticks wait) ticks

-- The counter of the clock chip after three writes: a command byte, then the low and the high byte.
pub programmed : PortLog → Option ℕ
programmed (hi ∷ lo ∷ cmd ∷ p) = some (lo.1 + 256 * hi.1)
programmed p = none
