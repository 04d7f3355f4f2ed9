-- ===== src/Drivers/Vga/Tests.antt =====
-- Runs of src/drivers/vga.c, and its theorems at a screen.
use jiauliyan_os.Base.{◌≡◌, refl, [], ◌∷◌, arith, inr}
use jiauliyan_os.Memory.{load16}
use jiauliyan_os.Drivers.Vga.{Vga, vga_putchar, vga_statics, vga_init}
use jiauliyan_os.Drivers.Vga.Scroll.{cell}
use jiauliyan_os.Drivers.Vga.Cursor.{IsValid, vga_putchar-IsValid, vga_putchar-Outside}
use jiauliyan_os.Drivers.Vga.Refine.{Terminal, Shows, emit, vga_putchar_refines}
use jiauliyan_os.Drivers.Vga.Clear.{empty, put_text, emit_text, vga_init-put_text}

-- The cursor in the last cell: the next character makes the text move up.
abbrev corner : Vga
corner = record {
  vgaptr = 0xB8000;
  attrib = 0x1E;
  csr_x = 79;
  csr_y = 24;
  mem = λ a. 0;
  ports = [];
}

abbrev corner_terminal : Terminal
corner_terminal = record { grid = λ r k. 0; x = 79; y = 24; colour = 0x1E }

corner-IsValid : IsValid corner
corner-IsValid = omega arith

corner-Shows : Shows corner corner_terminal
unfolding cell load16
corner-Shows = record { cells = λ r k hr hk. refl; column = refl; row = refl; attribute = refl }

vga_putchar-IsValid_example : IsValid (vga_putchar b'A' corner)
vga_putchar-IsValid_example = vga_putchar-IsValid b'A' corner-IsValid

vga_putchar-Outside_example : (vga_putchar b'A' corner).mem 0xB8FA0 ≡ 0
vga_putchar-Outside_example = vga_putchar-Outside b'A' 0xB8FA0 corner-IsValid (inr (omega arith))

vga_putchar_refines_example : Shows (vga_putchar b'A' corner) (emit b'A' corner_terminal)
vga_putchar_refines_example = vga_putchar_refines b'A' corner-IsValid corner-Shows (omega arith)

vga_init-put_text_example :
    let s = put_text (b'H' ∷ b'i' ∷ b'\n' ∷ []) (vga_init (vga_statics (λ a. 0))) in
    Shows s (emit_text (b'H' ∷ b'i' ∷ b'\n' ∷ []) (empty 0x0F)) × IsValid s
vga_init-put_text_example = vga_init-put_text (b'H' ∷ b'i' ∷ b'\n' ∷ []) (λ a. 0) (omega arith)
