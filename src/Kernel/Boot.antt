-- ===== src/Kernel/Boot.antt =====
-- The start of the kernel (`kmain` of src/kernel/kernel.c): the tables, the interrupts and the drivers in the
-- order in which they are installed, up to where the kernel runs. What the interrupt handlers share is a
-- state `S`, and they are parameters, as are the addresses of the tables and of the assembler stubs.
pub mod Laws
mod Tests
use jiauliyan_os.Base.{ℕ, Bool, true, List, Option, some, none, ◌==◌, if◌then◌else◌}
use jiauliyan_os.Drivers.Ports.{PortLog}
use jiauliyan_os.Drivers.Ram.{Ram, memory_init}
use jiauliyan_os.Drivers.Vga.{Vga, vga_init}
use jiauliyan_os.Drivers.Timer.{timer_phase}
use jiauliyan_os.Drivers.Serial.{serial_setup}
use jiauliyan_os.Sys.Gdt.{GdtState, gdt_install}
use jiauliyan_os.Sys.Idt.{IdtState, idt_install, isrs_install}
use jiauliyan_os.Sys.Irq.{irq_install, irq_install_handler}

-- The variables of the components; the port writes are those of `vga`.
pub record Kernel (S : Type 0) : Type 0 where
  pub gdt : GdtState
  pub idt : IdtState
  pub routines : List (Option (S → S))
  pub ram : Ram
  pub vga : Vga
  pub interrupts : Bool

-- What the linker and the assembler files give: the addresses of the two tables and of the stubs.
pub record Image : Type 0 where
  pub gdt_addr : ℕ
  pub idt_addr : ℕ
  pub isr : ℕ → ℕ
  pub irq : ℕ → ℕ

-- The handlers of the three devices.
pub record Handlers (S : Type 0) : Type 0 where
  pub timer_interrupt : S → S
  pub keyboard_interrupt : S → S
  pub serial_interrupt : S → S

-- The boot is refused, the reading of the memory map still runs, or the kernel starts.
pub data Boot (S : Type 0) : Type 0 where
  refused waits : Boot S
  starts : Kernel S → Boot S

-- The first four calls.
install_tables : {S : Type 0} → Image → Kernel S → Kernel S
install_tables i k =
    let s = idt_install i.idt_addr k.idt in
    let r = irq_install i.irq (k.vga.ports, isrs_install i.isr s.idt) in
    record k {
      gdt = gdt_install i.gdt_addr k.gdt;
      idt = record s { idt = r.1 };
      vga = record (k.vga) { ports = r.0 };
    }

pub timer_install : {S : Type 0} → Handlers S → Kernel S → Kernel S
timer_install h k = record k { routines = irq_install_handler 0 h.timer_interrupt k.routines }

pub keyboard_install : {S : Type 0} → Handlers S → Kernel S → Kernel S
keyboard_install h k = record k { routines = irq_install_handler 1 h.keyboard_interrupt k.routines }

pub serial_install : {S : Type 0} → Handlers S → Kernel S → Kernel S
serial_install h k = record k {
  vga = record (k.vga) { ports = serial_setup k.vga.ports };
  routines = irq_install_handler 4 h.serial_interrupt k.routines;
}

-- The calls from `vga_init` to `enable_interrupts`.
install_drivers : {S : Type 0} → Handlers S → Kernel S → Kernel S
install_drivers h k =
    let k1 = timer_install h (record k { vga = vga_init k.vga }) in
    let k2 = record k1 { vga = record (k1.vga) { ports = timer_phase 100 k1.vga.ports } } in
    record (serial_install h (keyboard_install h k2)) { interrupts = true }

-- For a wrong magic number a message goes to `vgaout`, which is not set yet.
pub kmain :
    {S : Type 0} → ℕ → Image → Handlers S → (mmap_addr mmap_length magic : ℕ) → Kernel S → Boot S
kmain fuel i h mmap_addr mmap_length magic k =
    let k' = install_tables i k in
    let run = memory_init fuel k'.vga.mem mmap_addr mmap_length k'.ram in
    if magic == 0x2BADB002
    then elim run [ none ↦ waits | some ram ↦ starts (install_drivers h (record k' { ram = ram })) ]
    else refused
