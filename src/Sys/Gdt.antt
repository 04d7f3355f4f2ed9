-- ===== src/Sys/Gdt.antt =====
-- The segment descriptors (src/sys/gdt.c).
pub mod Laws
use jiauliyan_os.Base.{
  ℕ, ◌-◌, ◌*◌, ◌/◌, ◌%◌, bit_and, bit_or, List, [], ◌∷◌, Option, none, some, set,
}

pub record GdtEntry : Type 0 where
  pub limit_low : ℕ
  pub base_low : ℕ
  pub base_middle : ℕ
  pub access : ℕ
  pub granularity : ℕ
  pub base_high : ℕ

pub record GdtPtr : Type 0 where
  pub limit : ℕ
  pub base : ℕ

-- `gdt` and `gp`, with the pointer that the processor was last told by `gdt_flush`.
pub record GdtState : Type 0 where
  pub gdt : List GdtEntry
  pub gp : GdtPtr
  pub loaded : Option GdtPtr

abbrev pub zero_entry : GdtEntry
zero_entry = record {
  limit_low = 0;
  base_low = 0;
  base_middle = 0;
  access = 0;
  granularity = 0;
  base_high = 0;
}

-- The struct that `gdt_set_gate` leaves at its index: every field of it is assigned.
unfoldable pub descriptor : ℕ → ℕ → ℕ → ℕ → GdtEntry
descriptor base limit access gran = record {
  limit_low = bit_and limit 0xFFFF;
  base_low = bit_and base 0xFFFF;
  base_middle = bit_and (base / 65536) 0xFF;
  access = access % 256;
  granularity = bit_or (bit_and gran 0xF0) (bit_and (limit / 65536) 0x0F);
  base_high = bit_and (base / 16777216) 0xFF;
}

unfoldable pub gdt_set_gate : ℕ → ℕ → ℕ → ℕ → ℕ → List GdtEntry → List GdtEntry
gdt_set_gate num base limit access gran gdt = set gdt num (descriptor base limit access gran)

-- `gdt_addr` is the address of the array; an entry is 8 bytes.
unfoldable pub gdt_install : ℕ → GdtState → GdtState
gdt_install gdt_addr s =
    let gp : GdtPtr = record { limit = 8 * 3 - 1; base = gdt_addr } in
    let g0 = gdt_set_gate 0 0 0 0 0 s.gdt in
    let g1 = gdt_set_gate 1 0 0xFFFFFFFF 0x9A 0xCF g0 in
    let g2 = gdt_set_gate 2 0 0xFFFFFFFF 0x92 0xCF g1 in
    record { gdt = g2; gp = gp; loaded = some gp }
