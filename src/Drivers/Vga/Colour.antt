-- ===== src/Drivers/Vga/Colour.antt =====
-- The colours of src/drivers/vga.c.
use jiauliyan_os.Base.{ℕ, ◌/◌, ◌%◌, ◌<◌, ◌≡◌, arith}
use jiauliyan_os.Base.Bits.{bit_and_15, bit_and_240, bit_or_shift}
use jiauliyan_os.Drivers.Vga.{Vga, vga_setfg, vga_setbg}

-- `vga_setfg` sets the low nibble of the attribute to the colour's, and keeps the high one.
pub vga_setfg_nibbles :
    (fg : ℕ) (s : Vga)
    → s.attrib < 256
    → ((vga_setfg fg s).attrib % 16 ≡ fg % 16) × ((vga_setfg fg s).attrib / 16 ≡ s.attrib / 16)
unfolding vga_setfg
vga_setfg_nibbles fg s h =
    let fields = bit_or_shift 4 (s.attrib / 16 % 16) (fg % 16) (omega arith) in
    rw (bit_and_15, bit_and_240) (omega (arith, fields))

-- `vga_setbg` sets the high nibble to the colour's, and keeps the low one.
pub vga_setbg_nibbles :
    (bg : ℕ) (s : Vga)
    → ((vga_setbg bg s).attrib % 16 ≡ s.attrib % 16) × ((vga_setbg bg s).attrib / 16 ≡ bg % 16)
unfolding vga_setbg
vga_setbg_nibbles bg s =
    let fields = bit_or_shift 4 (bg % 16) (s.attrib % 16) (omega arith) in
    rw (bit_and_15, bit_and_15) (omega (arith, fields))
