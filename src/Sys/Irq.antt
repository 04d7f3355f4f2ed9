-- ===== src/Sys/Irq.antt =====
-- The device interrupts (src/sys/irq.c): the table of handlers, the interrupt controllers, and the
-- dispatch.
pub mod Laws
use jiauliyan_os.Base.{
  ℕ, ◌-◌, ◌≡◌, List, [], ◌∷◌, Option, none, some, leb, if◌then◌else◌, set, get_elem?, replicate,
}
use jiauliyan_os.Drivers.Ports.{PortLog, outportb}
use jiauliyan_os.Sys.Idt.{IdtEntry, irq_gates}

-- A write of a byte to a port, over whatever state the handlers share.
pub record PortOut (S : Type 0) : Type 0 where
  pub send : ℕ → ℕ → S → S

unfoldable pub no_routines : {S : Type 0} → List (Option (S → S))
no_routines = replicate 16 none

pub irq_install_handler : {S : Type 0} → ℕ → (S → S) → List (Option (S → S)) → List (Option (S → S))
irq_install_handler irq handler routines = set routines irq (some handler)

pub irq_uninstall_handler : {S : Type 0} → ℕ → List (Option (S → S)) → List (Option (S → S))
irq_uninstall_handler irq routines = set routines irq none

-- What the two controllers are told.
pub irq_remap : PortLog → PortLog
irq_remap p = outportb 0xA1 0x0 (
    outportb 0x21 0x0 (
      outportb 0xA1 0x01 (
        outportb 0x21 0x01 (
          outportb 0xA1 0x02 (
            outportb 0x21 0x04 (
              outportb 0xA1 0x28
                (outportb 0x21 0x20 (outportb 0xA0 0x11 (outportb 0x20 0x11 p)))))))))

unfoldable pub irq_install : (ℕ → ℕ) → PortLog × List IdtEntry → PortLog × List IdtEntry
irq_install irq (ports, idt) = (irq_remap ports, irq_gates irq idt)

-- The slot is `int_no - 32`: the stubs pass 32 to 47. An index past the table finds no handler here.
pub irq_handler : {S : Type 0} → PortOut S → ℕ → List (Option (S → S)) → S → S
irq_handler {S} out int_no routines s =
    let handled : S = elim (get_elem? routines (int_no - 32)) [
      | none ↦ s
      | some slot ↦ elim slot [ none ↦ s | some handler ↦ handler s ]
    ] in
    let slave = if leb 40 int_no then out.send 0xA0 0x20 handled else handled in
    out.send 0x20 0x20 slave
