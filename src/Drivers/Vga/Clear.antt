-- ===== src/Drivers/Vga/Clear.antt =====
-- Clearing the screen, and the start of src/drivers/vga.c.
use jiauliyan_os.Base.{
  ℕ, zero, suc, ◌+◌, ◌*◌, ◌/◌, ◌%◌, ◌<◌, ◌≡◌, refl, List, [], ◌∷◌, ◌&&◌, arith, ltb, leb, ◌==◌,
  if◌then◌else◌, ◌-◌,
}
use jiauliyan_os.Memory.{Mem, load16}
use jiauliyan_os.Libc.Copy.{memsetw}
use jiauliyan_os.Libc.Copy.Laws.{filled_words, memsetw_lem}
use jiauliyan_os.Drivers.Vga.{
  Vga, blank, cls_from, vga_cls, move_csr, vga_statics, vga_init, vga_putchar,
}
use jiauliyan_os.Drivers.Vga.Scroll.{cell, blank-fields}
use jiauliyan_os.Drivers.Vga.Cursor.{IsValid, vga_putchar-IsValid}
use jiauliyan_os.Drivers.Vga.Refine.{Terminal, Shows, emit, vga_putchar_refines}

-- The rows `i`, … `i + n - 1` hold the word `val`.
cls_from_lem :
    (n i vgaptr val : ℕ) (m : Mem) (x : ℕ)
    → cls_from n i vgaptr val m x ≡ (
        if leb (vgaptr + 160 * i) x && ltb x (vgaptr + 160 * (i + n))
        then (if (x - vgaptr) % 2 == 0 then val % 256 else val / 256 % 256)
        else m x)
unfolding cls_from filled_words
cls_from_lem zero i vgaptr val m x = ground arith
cls_from_lem (suc n) i vgaptr val m x =
    let row = memsetw (vgaptr + 2 * (i * 80)) val 80 m in
    ground (
      arith,
      cls_from_lem n (i + 1) vgaptr val row x,
      memsetw_lem (vgaptr + 2 * (i * 80)) val 80 m x,
    )

-- A terminal with nothing on it.
pub empty : ℕ → Terminal
empty colour = record { grid = λ r k. 0x20 + 256 * colour; x = 0; y = 0; colour = colour }

-- `vga_cls` leaves an empty screen in the current colours, with the cursor at the top left.
pub vga_cls-Shows :
    (s : Vga) → s.attrib < 256 → Shows (vga_cls s) (empty s.attrib) × IsValid (vga_cls s)
unfolding vga_cls move_csr empty cell load16
vga_cls-Shows s h = (
  record {
    cells = λ r k hr hk.
        let a = s.vgaptr + 2 * (r * 80 + k) in
        let val = blank s in
        ground (
          arith,
          cls_from_lem 25 0 s.vgaptr val s.mem a,
          cls_from_lem 25 0 s.vgaptr val s.mem (a + 1),
          blank-fields s h,
        );
    column = refl;
    row = refl;
    attribute = refl;
  },
  omega arith,
)

-- The bytes of a text go to the screen in turn, as `vgaout` is fed by the stream routines.
unfoldable pub put_text : List ℕ → Vga → Vga
put_text [] s = s
put_text (c ∷ cs) s = put_text cs (vga_putchar c s)

pub emit_text : List ℕ → Terminal → Terminal
emit_text [] t = t
emit_text (c ∷ cs) t = emit_text cs (emit c t)

abbrev pub AllBytes : List ℕ → Type 0
AllBytes [] = Unit
AllBytes (c ∷ cs) = (c < 256) × AllBytes cs

pub put_text_refines :
    (cs : List ℕ) {s : Vga} {t : Terminal}
    → AllBytes cs
    → IsValid s
    → Shows s t
    → Shows (put_text cs s) (emit_text cs t) × IsValid (put_text cs s)
unfolding put_text emit_text
put_text_refines [] small v sh = (sh, v)
put_text_refines (c ∷ cs) (b, small) v sh =
    put_text_refines cs small (vga_putchar-IsValid c v) (vga_putchar_refines c v sh b)

-- From any memory, after `vga_init` and the bytes of a text, each below 256, the screen shows what the
-- empty terminal is after that text, and the cursor is on the screen.
pub vga_init-put_text :
    (cs : List ℕ) (m : Mem)
    → AllBytes cs
    → let s = put_text cs (vga_init (vga_statics m)) in
      Shows s (emit_text cs (empty 0x0F)) × IsValid s
unfolding vga_init vga_statics
vga_init-put_text cs m small =
    let s = record (vga_statics m) { vgaptr = 0xB8000 } in
    let start = vga_cls-Shows s (omega arith) in put_text_refines cs small start.1 start.0
