-- ===== src/Sys/Idt.antt =====
-- The interrupt descriptors (src/sys/idt.c), and the gates that src/sys/isrs.c and src/sys/irq.c put
-- in them.
pub mod Laws
use jiauliyan_os.Base.{
  ℕ, zero, suc, ◌+◌, ◌-◌, ◌*◌, ◌/◌, ◌%◌, bit_and, List, Option, some, set, replicate,
}

pub record IdtEntry : Type 0 where
  pub base_lo : ℕ
  pub sel : ℕ
  pub always0 : ℕ
  pub flags : ℕ
  pub base_hi : ℕ

pub record IdtPtr : Type 0 where
  pub limit : ℕ
  pub base : ℕ

-- `idt` and `idtp`, with the pointer that the processor was last told by `idt_load`.
pub record IdtState : Type 0 where
  pub idt : List IdtEntry
  pub idtp : IdtPtr
  pub loaded : Option IdtPtr

abbrev pub zero_entry : IdtEntry
zero_entry = record { base_lo = 0; sel = 0; always0 = 0; flags = 0; base_hi = 0 }

-- The struct that `idt_set_gate` leaves at its index: every field of it is assigned.
unfoldable pub gate : ℕ → ℕ → ℕ → IdtEntry
gate base sel flags = record {
  base_lo = bit_and base 0xFFFF;
  sel = sel % 65536;
  always0 = 0;
  flags = flags % 256;
  base_hi = bit_and (base / 65536) 0xFFFF;
}

-- The index is an `unsigned char`.
unfoldable pub idt_set_gate : ℕ → ℕ → ℕ → ℕ → List IdtEntry → List IdtEntry
idt_set_gate num base sel flags idt = set idt (num % 256) (gate base sel flags)

-- `idt_addr` is the address of the array; an entry is 8 bytes. `memset` clears all 256.
unfoldable pub idt_install : ℕ → IdtState → IdtState
idt_install idt_addr s =
    let idtp : IdtPtr = record { limit = 8 * 256 - 1; base = idt_addr } in
    record { idt = replicate 256 zero_entry; idtp = idtp; loaded = some idtp }

-- `idt_set_gate(first, stub0, 0x08, 0x8E)`, and so on for the next `n - 1` entries: the calls that
-- `isrs_install` and `irq_install` write out. `stub i` is the address of the i-th assembler stub.
unfoldable pub set_gates : ℕ → ℕ → ℕ → (ℕ → ℕ) → List IdtEntry → List IdtEntry
set_gates zero first i stub idt = idt
set_gates (suc n) first i stub idt =
    set_gates n first (i + 1) stub (idt_set_gate (first + i) (stub i) 0x08 0x8E idt)

-- The stubs `isr0` to `isr31`.
unfoldable pub isrs_install : (ℕ → ℕ) → List IdtEntry → List IdtEntry
isrs_install isr idt = set_gates 32 0 0 isr idt

-- The gates of `irq_install`, for the stubs `irq0` to `irq15`.
unfoldable pub irq_gates : (ℕ → ℕ) → List IdtEntry → List IdtEntry
irq_gates irq idt = set_gates 16 32 0 irq idt
