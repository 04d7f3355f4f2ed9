-- ===== src/Kernel/Handlers.antt =====
-- The handlers of src/kernel/kernel.c, which show the bytes of an input buffer.
use jiauliyan_os.Base.{ℕ, zero, suc, ◌+◌}
use jiauliyan_os.Drivers.Vga.{Vga, vga_putchar, vga_setfg}

-- The loop at the byte at `p`, with `n` left.
show_from : ℕ → ℕ → Vga → Vga
show_from zero p s = s
show_from (suc n) p s = show_from n (p + 1) (vga_putchar (s.mem p) s)

-- In light red.
pub kernel_serial_handler : ℕ → ℕ → Vga → Vga
kernel_serial_handler buf size s = show_from size buf (vga_setfg 12 s)

-- In light green.
pub kernel_keyboard_handler : ℕ → ℕ → Vga → Vga
kernel_keyboard_handler buf size s = show_from size buf (vga_setfg 10 s)
