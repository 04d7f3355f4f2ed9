-- ===== src/Kernel/Boot/Laws.antt =====
-- What `kmain` of src/kernel/kernel.c leaves to the kernel.
use jiauliyan_os.Base.{
  ℕ, ◌<◌, ◌≡◌, refl, ◌∙◌, true, List, Option, some, none, length, get_elem?, arith,
}
use jiauliyan_os.Drivers.Ram.{Ram, memory_init}
use jiauliyan_os.Sys.Gdt.{gdt_install}
use jiauliyan_os.Sys.Idt.{gate, zero_entry}
use jiauliyan_os.Sys.Idt.Laws.{installed, installed_lem, routine}
use jiauliyan_os.Sys.Irq.{PortOut, irq_handler, irq_install, irq_install_handler}
use jiauliyan_os.Sys.Irq.Laws.{
  irq_handler-install, irq_handler-install_ne, length-irq_install_handler,
}
use jiauliyan_os.Kernel.Boot.{
  Kernel, Image, Handlers, starts, install_tables, install_drivers, timer_install, keyboard_install,
  serial_install, kmain,
}

-- The answers to the interrupts of the three devices.
pub record IsReady {S : Type 0} (out : PortOut S) (h : Handlers S) (k : Kernel S) : Type 0 where
  pub timer : (s : S) → irq_handler out 32 k.routines s ≡ out.send 0x20 0x20 (h.timer_interrupt s)
  pub keyboard :
      (s : S) → irq_handler out 33 k.routines s ≡ out.send 0x20 0x20 (h.keyboard_interrupt s)
  pub serial : (s : S) → irq_handler out 36 k.routines s ≡ out.send 0x20 0x20 (h.serial_interrupt s)
  pub enabled : k.interrupts ≡ true

module _ {S : Type 0} (out : PortOut S) (h : Handlers S) (k : Kernel S) where
  -- The table after each of the three installs.
  abbrev one : List (Option (S → S))
  one = irq_install_handler 0 h.timer_interrupt k.routines

  abbrev two : List (Option (S → S))
  two = irq_install_handler 1 h.keyboard_interrupt one

  two_slots : length k.routines ≡ 16 → length two ≡ 16
  two_slots len =
      length-irq_install_handler 1 h.keyboard_interrupt one
      ∙ length-irq_install_handler 0 h.timer_interrupt k.routines
      ∙ len

  one_slots : length k.routines ≡ 16 → length one ≡ 16
  one_slots len = length-irq_install_handler 0 h.timer_interrupt k.routines ∙ len

  drivers-IsReady : length k.routines ≡ 16 → IsReady out h (install_drivers h k)
  unfolding install_drivers timer_install keyboard_install serial_install
  drivers-IsReady len = record {
    timer = λ s.
        irq_handler-install_ne out two 4 s h.serial_interrupt 0 (λ e. absurd (omega arith))
        ∙ irq_handler-install_ne out one 1 s h.keyboard_interrupt 0 (λ e. absurd (omega arith))
        ∙ irq_handler-install out k.routines 0 s h.timer_interrupt len (omega arith);
    keyboard = λ s.
        irq_handler-install_ne out two 4 s h.serial_interrupt 1 (λ e. absurd (omega arith))
        ∙ irq_handler-install out one 1 s h.keyboard_interrupt (one_slots len) (omega arith);
    serial = λ s. irq_handler-install out two 4 s h.serial_interrupt (two_slots len) (omega arith);
    enabled = refl;
  }

-- The tables, the memory and the screen of a kernel that starts.
pub record IsBooted {S : Type 0} (out : PortOut S) (i : Image) (h : Handlers S) (k : Kernel S)
    (ram : Ram) (k' : Kernel S) : Type 0 where
  pub ready : IsReady out h k'
  pub segments : k'.gdt ≡ gdt_install i.gdt_addr k.gdt
  pub gates :
      (v : ℕ)
      → v < 256
      → get_elem? k'.idt.idt v
        ≡ elim (routine i.isr i.irq v) [ none ↦ some zero_entry | some a ↦ some (gate a 0x08 0x8E) ]
  pub memory : k'.ram ≡ ram

-- With the right magic number, 16 slots for handlers and a memory map that is read to its end, `kmain`
-- comes to the start of the kernel. Then the interrupts of the clock, the keyboard and the serial port
-- run their handlers and are acknowledged, every interrupt number has the gate of its routine or none,
-- the segments are those of `gdt_install`, the memory is the one that was found, and interrupts are
-- enabled.
pub kmain_lem :
    {S : Type 0} (out : PortOut S) (fuel : ℕ) (i : Image) (h : Handlers S) (addr len : ℕ)
    (k : Kernel S) (ram : Ram)
    → length k.routines ≡ 16
    → memory_init fuel k.vga.mem addr len k.ram ≡ some ram
    → (k' : Kernel S) × (kmain fuel i h addr len 0x2BADB002 k ≡ starts k')
      × IsBooted out i h k ram k'
unfolding kmain install_tables install_drivers timer_install keyboard_install serial_install
    irq_install installed
kmain_lem out fuel i h addr len k ram slots found =
    let k2 = record (install_tables i k) { ram = ram } in
    (
      install_drivers h k2,
      rw found refl,
      record {
        ready = drivers-IsReady out h k2 slots;
        segments = refl;
        gates = λ v hv. installed_lem i.idt_addr i.isr i.irq k.idt v hv;
        memory = refl;
      },
    )
