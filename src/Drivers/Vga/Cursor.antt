-- ===== src/Drivers/Vga/Cursor.antt =====
-- The cursor of src/drivers/vga.c stays on the screen, and what `vga_putchar` writes stays inside the
-- screen too.
use jiauliyan_os.Base.{
  ℕ, ◌+◌, ◌*◌, ◌/◌, ◌%◌, ◌≤◌, ◌<◌, ◌≡◌, bit_or, ◌&&◌, ◌∷◌, arith, ◌==◌, if◌then◌else◌,
}
use jiauliyan_os.Base.Bits.{bit_or_low}
use jiauliyan_os.Memory.Laws.{store16_frame, load16-store16_self, load16-store16_apart}
use jiauliyan_os.Drivers.Vga.{Vga, move_csr, is_printing, step_cursor, wrap_line, vga_putchar}
use jiauliyan_os.Drivers.Vga.Scroll.{cell, Outside, scroll-cursor, scroll-Outside, vgaptr-scroll}

-- The cursor is on the screen, and the attribute is a byte.
pub record IsValid (s : Vga) : Type 0 where
  pub column : s.csr_x < 80
  pub row : s.csr_y < 25
  pub attribute : s.attrib < 256

-- Before the scroll the cursor may stand one row below the screen.
pub step_wrap_bounds :
    {s : Vga} (c : ℕ)
    → IsValid s
    → ((wrap_line (step_cursor c s)).csr_x < 80)
      × ((wrap_line (step_cursor c s)).csr_y ≤ 25)
      × ((wrap_line (step_cursor c s)).attrib ≡ s.attrib)
      × ((wrap_line (step_cursor c s)).vgaptr ≡ s.vgaptr)
unfolding step_cursor wrap_line
step_wrap_bounds c v = ground arith

-- `vga_putchar` keeps the cursor on the screen.
pub vga_putchar-IsValid : {s : Vga} (c : ℕ) → IsValid s → IsValid (vga_putchar c s)
unfolding vga_putchar move_csr
vga_putchar-IsValid {s} c v =
    ground (arith, step_wrap_bounds c v, scroll-cursor (wrap_line (step_cursor c s)))

-- A step changes the cell under the cursor, if the byte prints, and no other.
pub step_wrap-cell :
    {s : Vga} (c r k : ℕ)
    → IsValid s
    → c < 256
    → k < 80
    → cell (wrap_line (step_cursor c s)) r k ≡ (
        if is_printing c && (r == s.csr_y) && (k == s.csr_x)
        then c + 256 * s.attrib
        else cell s r k)
unfolding step_cursor wrap_line cell
step_wrap-cell {s} c r k v small hk =
    let here = s.vgaptr + 2 * (s.csr_y * 80 + s.csr_x) in
    let there = s.vgaptr + 2 * (r * 80 + k) in
    let word = bit_or c (s.attrib * 256) in
    ground (
      arith,
      bit_or_low 8 s.attrib c,
      load16-store16_self s.mem here word,
      load16-store16_apart s.mem here word there,
    )

step_wrap-Outside :
    {s : Vga} (c x : ℕ) → IsValid s → Outside s x → (wrap_line (step_cursor c s)).mem x ≡ s.mem x
unfolding step_cursor wrap_line
step_wrap-Outside {s} c x v out = ground (
  arith,
  store16_frame s.mem (s.vgaptr + 2 * (s.csr_y * 80 + s.csr_x)) (bit_or c (s.attrib * 256)) x,
)

-- Where the cursor is on the screen, `vga_putchar` changes no byte of memory outside its 4000 bytes.
pub vga_putchar-Outside :
    {s : Vga} (c x : ℕ) → IsValid s → Outside s x → (vga_putchar c s).mem x ≡ s.mem x
unfolding vga_putchar move_csr
vga_putchar-Outside {s} c x v out = ground (
  arith,
  step_wrap-Outside c x v out,
  step_wrap_bounds c v,
  scroll-Outside (wrap_line (step_cursor c s)) x,
)

ports-step_wrap : (s : Vga) (c : ℕ) → (wrap_line (step_cursor c s)).ports ≡ s.ports
unfolding step_cursor wrap_line
ports-step_wrap s c = ground arith

-- Where the cursor is on the screen, `vga_putchar` tells the hardware the cell of the new cursor: the
-- high byte to register 14, then the low byte to register 15.
pub vga_putchar-ports :
    {s : Vga} (c : ℕ)
    → IsValid s
    → let s' = vga_putchar c s in
      let index = s'.csr_y * 80 + s'.csr_x in
      s'.ports ≡ (0x3D5, index % 256) ∷ (0x3D4, 15) ∷ (0x3D5, index / 256) ∷ (0x3D4, 14) ∷ s.ports
unfolding vga_putchar move_csr
vga_putchar-ports {s} c v =
    ground (
      arith,
      step_wrap_bounds c v,
      ports-step_wrap s c,
      scroll-cursor (wrap_line (step_cursor c s)),
    )

pub vgaptr-vga_putchar : (s : Vga) (c : ℕ) → (vga_putchar c s).vgaptr ≡ s.vgaptr
unfolding vga_putchar move_csr step_cursor wrap_line
vgaptr-vga_putchar s c = ground (arith, vgaptr-scroll (wrap_line (step_cursor c s)))
