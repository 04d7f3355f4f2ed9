-- ===== src/Drivers/Vga.antt =====
-- The text screen (src/drivers/vga.c): a cursor over 25 rows of 80 cells in video memory, each a
-- character and an attribute byte.
pub mod Scroll
pub mod Cursor
pub mod Refine
pub mod Colour
pub mod Clear
mod Tests
use jiauliyan_os.Base.{
  ℕ, zero, suc, ◌+◌, ◌-◌, ◌*◌, ◌/◌, ◌%◌, bit_and, bit_or, Bool, true, false, ◌&&◌, not, ltb, leb,
  ◌==◌, if◌then◌else◌, [],
}
use jiauliyan_os.Base.Words.{add32, sub32, mul32}
use jiauliyan_os.Memory.{Mem, store16}
use jiauliyan_os.Libc.Copy.{memcpy, memsetw}
use jiauliyan_os.Drivers.Ports.{PortLog, outportb}

-- The variables of the driver, the memory that `vgaptr` points into, and the port writes. The
-- cursor's coordinates are ints that never fall below 0.
pub record Vga : Type 0 where
  pub vgaptr : ℕ
  pub attrib : ℕ
  pub csr_x : ℕ
  pub csr_y : ℕ
  pub mem : Mem
  pub ports : PortLog

-- a space in the current colours
abbrev pub blank : Vga → ℕ
blank s = bit_or 0x20 (s.attrib * 256)

pub scroll : Vga → Vga
scroll s =
    let temp = s.csr_y - 25 + 1 in
    let rows = sub32 25 temp in
    let up = memcpy s.vgaptr (s.vgaptr + 2 * mul32 temp 80) (mul32 (mul32 rows 80) 2) s.mem in
    if leb 25 s.csr_y
    then record s { mem = memsetw (s.vgaptr + 2 * mul32 rows 80) (blank s) 80 up; csr_y = 25 - 1 }
    else s

-- The index of the cursor's cell goes to registers 14 and 15 of the display.
pub move_csr : Vga → Vga
move_csr s =
    let temp = s.csr_y * 80 + s.csr_x in
    record s {
      ports =
          outportb 0x3D5 temp
            (outportb 0x3D4 15 (outportb 0x3D5 (temp / 256) (outportb 0x3D4 14 s.ports)));
    }

-- The loop of `vga_cls`, with `n` rows left.
pub cls_from : ℕ → ℕ → ℕ → ℕ → Mem → Mem
cls_from zero i vgaptr val m = m
cls_from (suc n) i vgaptr val m =
    cls_from n (i + 1) vgaptr val (memsetw (vgaptr + 2 * (i * 80)) val 80 m)

pub vga_cls : Vga → Vga
vga_cls s =
    move_csr (record s { mem = cls_from 25 0 s.vgaptr (blank s) s.mem; csr_x = 0; csr_y = 0 })

-- No test keeps the cell inside the screen.
unfoldable pub vga_placechar : ℕ → ℕ → ℕ → Vga → Vga
vga_placechar c x y s = record s {
  mem = store16 s.mem (s.vgaptr + 2 * (y * 80 + x)) (bit_or c (s.attrib * 256));
}

unfoldable pub vga_getptr : Vga → ℕ
vga_getptr s = s.vgaptr

-- `c >= ' '`, where a `char` is signed: the bytes from 128 on are negative.
abbrev pub is_printing : ℕ → Bool
is_printing c = leb 0x20 c && ltb c 0x80

-- The five cases of `vga_putchar`, up to the test of the screen's width. `c` is the byte of the `char`.
pub step_cursor : ℕ → Vga → Vga
step_cursor c s =
    if c == 0x08
    then (if not (s.csr_x == 0) then record s { csr_x = s.csr_x - 1 } else s)
    else if c == 0x09
    then record s { csr_x = (s.csr_x + 8) / 8 * 8 }
    else if c == b'\r'
    then record s { csr_x = 0 }
    else if c == b'\n'
    then record s { csr_x = 0; csr_y = s.csr_y + 1 }
    else if is_printing c
    then record s {
      mem = store16 s.mem (s.vgaptr + 2 * (s.csr_y * 80 + s.csr_x)) (bit_or c (s.attrib * 256));
      csr_x = s.csr_x + 1;
    }
    else s

-- a new line at the right edge
pub wrap_line : Vga → Vga
wrap_line s = if leb 80 s.csr_x then record s { csr_x = 0; csr_y = s.csr_y + 1 } else s

pub vga_putchar : ℕ → Vga → Vga
vga_putchar c s = move_csr (scroll (wrap_line (step_cursor c s)))

-- upper nibble is bg, lower nibble is fg
pub vga_setbg : ℕ → Vga → Vga
vga_setbg bg s = record s { attrib = bit_or (bit_and bg 0x0F * 16) (bit_and s.attrib 0x0F) }

pub vga_setfg : ℕ → Vga → Vga
vga_setfg fg s = record s { attrib = bit_or (bit_and s.attrib 0xF0) (bit_and fg 0x0F) }

-- What `vgaout` does with a byte; the result of `put` is the byte.
unfoldable pub vgaout_put : ℕ → Vga → Vga × ℕ
vgaout_put c s = (vga_putchar c s, c)

-- The statics at the start, and `vga_init`.
unfoldable pub vga_statics : Mem → Vga
vga_statics m = record { vgaptr = 0; attrib = 0x0F; csr_x = 0; csr_y = 0; mem = m; ports = [] }

pub vga_init : Vga → Vga
vga_init s = vga_cls (record s { vgaptr = 0xB8000 })
