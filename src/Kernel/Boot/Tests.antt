-- ===== src/Kernel/Boot/Tests.antt =====
-- `kmain` of src/kernel/kernel.c with a memory map of two entries at 256.
use jiauliyan_os.Base.{ℕ, ◌+◌, ◌≡◌, refl, List, [], ◌∷◌, none, some, false, length}
use jiauliyan_os.Memory.{Mem, store32, load32, load64}
use jiauliyan_os.Drivers.Ram.{Ram, no_ram, memory_init, memory_from, pick}
use jiauliyan_os.Drivers.Vga.{vga_statics}
use jiauliyan_os.Sys.Gdt
use jiauliyan_os.Sys.Irq.{PortOut, no_routines}
use jiauliyan_os.Kernel.Boot.{Kernel, Image, Handlers, starts, kmain}
use jiauliyan_os.Kernel.Boot.Laws.{IsBooted, kmain_lem}

-- The second entry is 4 KB at 1 MB.
abbrev boot_memory : Mem
boot_memory = store32 (store32 (store32 (λ x. 0) 256 20) 284 1048576) 292 4096

abbrev boot_ram : Ram
boot_ram = record { ptr = 1048576; size = 4096 }

-- The handlers log their interrupt, and a port write its byte.
abbrev log_out : PortOut (List ℕ)
log_out = record { send = λ port byte s. byte ∷ s }

abbrev log_handlers : Handlers (List ℕ)
log_handlers = record {
  timer_interrupt = λ s. 1000 ∷ s;
  keyboard_interrupt = λ s. 1001 ∷ s;
  serial_interrupt = λ s. 1004 ∷ s;
}

abbrev small_image : Image
small_image = record {
  gdt_addr = 0x104000;
  idt_addr = 0x105000;
  isr = λ n. 0x100100 + n;
  irq = λ n. 0x100200 + n;
}

abbrev off : Kernel (List ℕ)
off = record {
  gdt = record {
    gdt = Gdt.zero_entry ∷ Gdt.zero_entry ∷ Gdt.zero_entry ∷ [];
    gp = record { limit = 0; base = 0 };
    loaded = none;
  };
  idt = record { idt = []; idtp = record { limit = 0; base = 0 }; loaded = none };
  routines = no_routines;
  ram = no_ram;
  vga = vga_statics boot_memory;
  interrupts = false;
}

map_found : memory_init 2 off.vga.mem 256 24 no_ram ≡ some boot_ram
unfolding vga_statics memory_init memory_from pick load32 load64 store32
map_found = refl

no_routines_length : length (off.routines) ≡ 16
unfolding no_routines
no_routines_length = refl

kmain_lem_example :
    (k' : Kernel (List ℕ)) × (kmain 2 small_image log_handlers 256 24 0x2BADB002 off ≡ starts k')
    × IsBooted log_out small_image log_handlers off boot_ram k'
kmain_lem_example =
    kmain_lem log_out 2 small_image log_handlers 256 24 off boot_ram no_routines_length map_found
