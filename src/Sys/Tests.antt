-- ===== src/Sys/Tests.antt =====
-- The theorems on src/sys at concrete tables.
use jiauliyan_os.Base.{ℕ, ◌+◌, ◌*◌, ◌≡◌, refl, List, [], ◌∷◌, none, some, arith, length, get_elem?}
use jiauliyan_os.Sys.Gdt.{GdtState, zero_entry, GdtEntry, descriptor, gdt_install}
use jiauliyan_os.Sys.Gdt.Laws.{
  segment_base, segment_limit, segment_flags, descriptor_fields, IsFlat, gdt_install_lem,
}
use jiauliyan_os.Sys.Idt.{IdtEntry, IdtState}
use jiauliyan_os.Sys.Idt.Laws.{installed, routine, Dispatches, installed-Dispatches}
use jiauliyan_os.Sys.Irq.{PortOut, no_routines}
use jiauliyan_os.Base.{true, get_or}
use jiauliyan_os.Drivers.Vga.{Vga, vga_init, vga_statics}
use jiauliyan_os.Drivers.Vga.Cursor.{IsValid}
use jiauliyan_os.Drivers.Vga.Refine.{Shows}
use jiauliyan_os.Drivers.Vga.Clear.{empty, emit_text, put_text, vga_init-put_text}
use jiauliyan_os.Sys.Faults.{exception_messages, system_halted, fault_handler}
use jiauliyan_os.Sys.Faults.Laws.{fault_handler-Shows}

descriptor_fields_example :
    let e = descriptor 0x12345678 0xABCDE 0x9A 0xCF in
    (segment_base e ≡ 0x12345678)
    × (segment_limit e ≡ 0xABCDE)
    × (segment_flags e ≡ 0xC)
    × (e.access ≡ 0x9A)
descriptor_fields_example =
    descriptor_fields 0x12345678 0xABCDE 0x9A 0xCF (omega arith) (omega arith) (omega arith)

-- The tables before the boot.
abbrev gdt_empty : GdtState
gdt_empty = record {
  gdt = zero_entry ∷ zero_entry ∷ zero_entry ∷ [];
  gp = record { limit = 0; base = 0 };
  loaded = none;
}

abbrev idt_empty : IdtState
idt_empty = record { idt = []; idtp = record { limit = 0; base = 0 }; loaded = none }

-- The stubs of an exception and of a device interrupt stand 16 bytes apart.
abbrev isr_stub : ℕ → ℕ
isr_stub i = 0x100000 + 16 * i

abbrev irq_stub : ℕ → ℕ
irq_stub i = 0x101000 + 16 * i

-- The keyboard's interrupt is number 33.
installed-Dispatches_example :
    (e : IdtEntry) × (get_elem? (installed 0x105000 isr_stub irq_stub idt_empty) 33 ≡ some e)
    × Dispatches (routine isr_stub irq_stub 33) e
installed-Dispatches_example =
    installed-Dispatches 0x105000 isr_stub irq_stub idt_empty 33 (omega arith) (λ i h. omega arith)
      (λ i h. omega arith)

-- Handlers that share a log of numbers; a port write adds the port and the value.
abbrev log_out : PortOut (List ℕ)
log_out = record { send = λ p v s. p ∷ v ∷ s }

abbrev log_key : List ℕ → List ℕ
log_key s = 99 ∷ s

no_routines-length : length (no_routines {S = List ℕ}) ≡ 16
unfolding no_routines
no_routines-length = refl

-- The screen after it has been cleared.
abbrev clear_screen : Vga
clear_screen = put_text [] (vga_init (vga_statics (λ x. 0)))

fault_handler-Shows_example :
    let r = fault_handler 14 clear_screen in
    let told = emit_text (get_or exception_messages 14 []) (emit_text [] (empty 0x0F)) in
    (r.0 ≡ true) × Shows (r.1) (emit_text system_halted told) × IsValid (r.1)
fault_handler-Shows_example =
    fault_handler-Shows 14 clear_screen (emit_text [] (empty 0x0F)) (omega arith)
      (vga_init-put_text [] (λ x. 0) tt).1 (vga_init-put_text [] (λ x. 0) tt).0

gdt_install_lem_example :
    let s' = gdt_install 0x10000 gdt_empty in
    (code flat_data : GdtEntry) × (s'.gdt ≡ descriptor 0 0 0 0 ∷ code ∷ flat_data ∷ [])
    × IsFlat 0x9A code
    × IsFlat 0x92 flat_data
    × (s'.loaded ≡ some (record { limit = 23; base = 0x10000 }))
gdt_install_lem_example = gdt_install_lem 0x10000 gdt_empty refl
