-- ===== src/Sys/Irq/Laws.antt =====
-- The dispatch of src/sys/irq.c.
use jiauliyan_os.Base.{
  ℕ, ◌-◌, ◌+◌, ◌<◌, ◌≡◌, ◌≢◌, Option, some, none, List, arith, leb, if◌then◌else◌, length,
  length-set, get_elem?-set_self, get_elem?-set_ne,
}
use jiauliyan_os.Sys.Irq.{PortOut, irq_install_handler, irq_uninstall_handler, irq_handler}

module _ {S : Type 0} (out : PortOut S) (routines : List (Option (S → S))) (irq : ℕ) (s : S) where
  -- The acknowledgement of interrupt `irq`: at both controllers for the slave's eight, and last, and
  -- for the others only, at the master.
  abbrev pub acknowledged : S → S
  acknowledged s' = out.send 0x20 0x20 (if leb 8 irq then out.send 0xA0 0x20 s' else s')

  -- In a table of 16 slots, a handler that is installed for an interrupt below 16 runs when that
  -- interrupt comes, before it is acknowledged: to both controllers for the last eight, and to the
  -- master alone for the others.
  pub irq_handler-install :
      (handler : S → S)
      → length routines ≡ 16
      → irq < 16
      → irq_handler out (irq + 32) (irq_install_handler irq handler routines) s
        ≡ acknowledged (handler s)
  unfolding irq_handler irq_install_handler
  irq_handler-install handler len h =
      let slot = get_elem?-set_self routines irq (some handler) (omega arith) in
      let at : irq + 32 - 32 ≡ irq = omega arith in rw (at, slot, irq_handler) (ground arith)

  -- To install a handler for one interrupt changes the handling of no other.
  pub irq_handler-install_ne :
      (handler : S → S) (other : ℕ)
      → irq ≢ other
      → irq_handler out (other + 32) (irq_install_handler irq handler routines) s
        ≡ irq_handler out (other + 32) routines s
  unfolding irq_handler irq_install_handler
  irq_handler-install_ne handler other ne =
      let slot = get_elem?-set_ne routines {i = irq} {j = other} (some handler) ne in
      let at : other + 32 - 32 ≡ other = omega arith in rw (at, slot, irq_handler)

  -- In a table of 16 slots, after an uninstall an interrupt below 16 is acknowledged and nothing else
  -- happens.
  pub irq_handler-uninstall :
      length routines ≡ 16
      → irq < 16
      → irq_handler out (irq + 32) (irq_uninstall_handler irq routines) s ≡ acknowledged s
  unfolding irq_handler irq_uninstall_handler
  irq_handler-uninstall len h =
      let slot = get_elem?-set_self routines irq none (omega arith) in
      let at : irq + 32 - 32 ≡ irq = omega arith in rw (at, slot, irq_handler) (ground arith)

pub length-irq_install_handler :
    {S : Type 0} (irq : ℕ) (handler : S → S) (routines : List (Option (S → S)))
    → length (irq_install_handler irq handler routines) ≡ length routines
unfolding irq_install_handler
length-irq_install_handler irq handler routines = length-set routines irq (some handler)
