-- ===== src/Sys/Gdt/Laws.antt =====
-- What the processor reads out of a descriptor of src/sys/gdt.c.
use jiauliyan_os.Base.{
  ℕ, ◌+◌, ◌*◌, ◌/◌, ◌%◌, ◌<◌, ◌≡◌, refl, List, [], ◌∷◌, some, arith, length, set,
}
use jiauliyan_os.Base.Bits.{bit_and_15, bit_and_255, bit_and_65535, bit_and_240, bit_or_shift}
use jiauliyan_os.Sys.Gdt.{GdtEntry, GdtState, descriptor, gdt_set_gate, gdt_install}

-- The layout of a segment descriptor: its base, its limit in units, and its flags.
pub segment_base : GdtEntry → ℕ
segment_base e = e.base_low + 65536 * e.base_middle + 16777216 * e.base_high

pub segment_limit : GdtEntry → ℕ
segment_limit e = e.limit_low + 65536 * (e.granularity % 16)

pub segment_flags : GdtEntry → ℕ
segment_flags e = e.granularity / 16

-- The processor reads back from a descriptor what `gdt_set_gate` was given: a 32-bit base whole, a
-- limit by its low 20 bits, the flags by the high nibble of the byte `gran`, the access byte as it is.
pub descriptor_fields :
    (base limit access gran : ℕ)
    → base < 4294967296
    → access < 256
    → gran < 256
    → let e = descriptor base limit access gran in
      (segment_base e ≡ base)
      × (segment_limit e ≡ limit % 1048576)
      × (segment_flags e ≡ gran / 16)
      × (e.access ≡ access)
unfolding descriptor segment_base segment_limit segment_flags
descriptor_fields base limit access gran hb ha hg =
    let fields = bit_or_shift 4 (gran / 16 % 16) (limit / 65536 % 16) (omega arith) in
    ground (
      arith,
      fields,
      bit_and_65535 limit,
      bit_and_65535 base,
      bit_and_255 (base / 65536),
      bit_and_255 (base / 16777216),
      bit_and_240 gran,
      bit_and_15 (limit / 65536),
    )

-- A flat segment: it begins at 0 and its limit, counted in pages of 4 KB, ends at 4 GB.
pub record IsFlat (access : ℕ) (e : GdtEntry) : Type 0 where
  pub base : segment_base e ≡ 0
  pub pages : segment_flags e ≡ 0xC
  pub last : segment_limit e * 4096 + 4095 ≡ 0xFFFFFFFF
  pub kind : e.access ≡ access

abbrev code_segment : GdtEntry
code_segment = descriptor 0 0xFFFFFFFF 0x9A 0xCF

abbrev data_segment : GdtEntry
data_segment = descriptor 0 0xFFFFFFFF 0x92 0xCF

flat : (access : ℕ) → access < 256 → IsFlat access (descriptor 0 0xFFFFFFFF access 0xCF)
flat access h =
    let e = descriptor_fields 0 0xFFFFFFFF access 0xCF (omega arith) h (omega arith) in
    record { base = e.0; pages = e.2; last = omega (arith, e.1); kind = e.3 }

-- Three writes over a table of three entries.
three :
    (g : List GdtEntry) (a b c : GdtEntry)
    → length g ≡ 3
    → set (set (set g 0 a) 1 b) 2 c ≡ a ∷ b ∷ c ∷ []
three [] a b c h = absurd (omega arith)
three (x ∷ []) a b c h = absurd (omega arith)
three (x ∷ y ∷ []) a b c h = absurd (omega arith)
three (x ∷ y ∷ z ∷ []) a b c h = refl
three (x ∷ y ∷ z ∷ w ∷ g) a b c h = absurd (omega arith)

-- After `gdt_install` over a table of three entries the processor has been told of a table of 24 bytes
-- at the array's address, with the null descriptor, a code segment and a data segment. Read by the
-- processor's layout, both begin at 0 and end at 4 GB, in pages of 4 KB, and have their kind.
pub gdt_install_lem :
    (addr : ℕ) (s : GdtState)
    → length s.gdt ≡ 3
    → let s' = gdt_install addr s in
      (code flat_data : GdtEntry) × (s'.gdt ≡ descriptor 0 0 0 0 ∷ code ∷ flat_data ∷ [])
      × IsFlat 0x9A code
      × IsFlat 0x92 flat_data
      × (s'.loaded ≡ some (record { limit = 23; base = addr }))
unfolding gdt_install gdt_set_gate
gdt_install_lem addr s h = (
  code_segment,
  data_segment,
  three s.gdt (descriptor 0 0 0 0) code_segment data_segment h,
  flat 0x9A (omega arith),
  flat 0x92 (omega arith),
  refl,
)
