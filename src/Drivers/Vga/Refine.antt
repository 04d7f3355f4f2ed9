-- ===== src/Drivers/Vga/Refine.antt =====
-- The screen of src/drivers/vga.c as a terminal: a grid of words with a cursor, which knows nothing
-- of addresses, copies or a row below the last.
use jiauliyan_os.Base.{ℕ, ◌+◌, ◌-◌, ◌*◌, ◌%◌, ◌<◌, ◌≡◌, ◌&&◌, ◌||◌, arith, leb, ◌==◌, if◌then◌else◌}
use jiauliyan_os.Drivers.Vga.{Vga, move_csr, is_printing, step_cursor, wrap_line, vga_putchar}
use jiauliyan_os.Drivers.Vga.Scroll.{cell, scroll-cell, scroll_idle, scroll-cursor}
use jiauliyan_os.Drivers.Vga.Cursor.{IsValid, step_wrap_bounds, step_wrap-cell}

pub record Terminal : Type 0 where
  pub grid : ℕ → ℕ → ℕ
  pub x : ℕ
  pub y : ℕ
  pub colour : ℕ

-- To the start of the next row; below the last row the text moves up.
pub new_line : Terminal → Terminal
new_line t =
    if t.y == 24
    then record t {
      grid = λ r k. if r == 24 then 0x20 + 256 * t.colour else t.grid (r + 1) k;
      x = 0;
    }
    else record t { x = 0; y = t.y + 1 }

-- The character `c` at the cursor, which moves on.
pub type : ℕ → Terminal → Terminal
type c t =
    let t' = record t {
      grid = λ r k. if (r == t.y) && (k == t.x) then c + 256 * t.colour else t.grid r k;
      x = t.x + 1;
    } in
    if t.x == 79 then new_line t' else t'

-- the next column that 8 divides, or the next row
pub tab : Terminal → Terminal
tab t = if leb 72 t.x then new_line t else record t { x = t.x + (8 - t.x % 8) }

pub emit : ℕ → Terminal → Terminal
emit c t =
    if c == 0x08
    then record t { x = t.x - 1 }
    else if c == 0x09
    then tab t
    else if c == b'\r'
    then record t { x = 0 }
    else if c == b'\n'
    then new_line t
    else if is_printing c
    then type c t
    else t

-- The screen shows the terminal.
pub record Shows (s : Vga) (t : Terminal) : Type 0 where
  pub cells : (r k : ℕ) → r < 25 → k < 80 → cell s r k ≡ t.grid r k
  pub column : s.csr_x ≡ t.x
  pub row : s.csr_y ≡ t.y
  pub attribute : s.attrib ≡ t.colour

-- Where a byte puts the cursor, before the scroll.
step_wrap-cursor :
    {s : Vga} (c : ℕ)
    → IsValid s
    → let s' = wrap_line (step_cursor c s) in
      let x = s.csr_x in
      let y = s.csr_y in
      (s'.csr_x ≡ (
        if c == 0x08
        then x - 1
        else if c == 0x09
        then (if leb 72 x then 0 else x + (8 - x % 8))
        else if (c == b'\r') || (c == b'\n')
        then 0
        else if is_printing c
        then (if x == 79 then 0 else x + 1)
        else x))
      × (s'.csr_y ≡ (
          if ((c == 0x09) && leb 72 x) || (c == b'\n') || (is_printing c && (x == 79))
          then y + 1
          else y))
unfolding step_cursor wrap_line
step_wrap-cursor c v = ground arith

module _ {s : Vga} {t : Terminal} (c : ℕ) (v : IsValid s) (sh : Shows s t) (small : c < 256) where
  putchar-cell : (r k : ℕ) → r < 25 → k < 80 → cell (vga_putchar c s) r k ≡ (emit c t).grid r k
  unfolding vga_putchar move_csr cell emit type tab new_line
  putchar-cell r k hr hk =
      let s' = wrap_line (step_cursor c s) in
      let above = step_wrap-cell c (r + 1) k v small hk in
      ground (
        arith,
        step_wrap_bounds c v,
        step_wrap-cursor c v,
        scroll-cell s' r k,
        scroll_idle s',
        step_wrap-cell c r k v small hk,
        above,
        sh.cells r k,
        sh.cells (r + 1) k,
      )

  putchar-cursor :
      ((vga_putchar c s).csr_x ≡ (emit c t).x)
      × ((vga_putchar c s).csr_y ≡ (emit c t).y)
      × ((vga_putchar c s).attrib ≡ (emit c t).colour)
  unfolding vga_putchar move_csr emit type tab new_line
  putchar-cursor =
      let s' = wrap_line (step_cursor c s) in
      ground (arith, step_wrap_bounds c v, step_wrap-cursor c v, scroll-cursor s')

  -- Where the cursor is on the screen and the screen shows a terminal, the screen after `vga_putchar`
  -- shows what that terminal is after the byte: the character in its cell, the cursor moved by
  -- backspace, tab, newline, carriage return or a character, and the rows moved up when the cursor
  -- passes the last one.
  pub vga_putchar_refines : Shows (vga_putchar c s) (emit c t)
  vga_putchar_refines = record {
    cells = putchar-cell;
    column = putchar-cursor.0;
    row = putchar-cursor.1;
    attribute = putchar-cursor.2;
  }
