-- ===== src/Kernel/Lua.antt =====
-- The functions that Lua scripts call (src/kernel/lua_kernel.c). The stack of the Lua interpreter, which is
-- another project's code, is the argument and the result: what a function reads from the stack are its
-- arguments, and what it pushes is its result.
pub mod Laws
pub mod Colours
mod Tests
use jiauliyan_os.Base.{
  ℕ, zero, suc, ◌+◌, ◌-◌, ◌*◌, ◌/◌, ◌%◌, bit_and, Bool, List, [], ◌∷◌, ◌++◌, Option, none, some,
  ◌>>=◌, leb, ◌==◌, if◌then◌else◌, length, take, get_or,
}
use jiauliyan_os.Base.Int.{ℤ, pos, negsuc}
use jiauliyan_os.Memory.{load16}
use jiauliyan_os.Libc.Number.{isspace}
use jiauliyan_os.Drivers.Ports.{PortLog}
use jiauliyan_os.Drivers.Vga.{Vga, vga_setfg, vga_setbg, vga_placechar, vga_getptr}
use jiauliyan_os.Drivers.Serial.{Serial, serialin_get, serialin_avail, serialout_put}

-- The loop that moves `front`: the bytes that are left.
trim_front : List ℕ → List ℕ
trim_front [] = []
trim_front (c ∷ text) = let rest = trim_front text in if isspace c then rest else c ∷ text

-- The loop that moves `end`: the size that is left.
trim_end : ℕ → List ℕ → ℕ
trim_end zero text = zero
trim_end (suc size) text =
    let rest = trim_end size text in if isspace (get_or text size 0) then rest else suc size

pub lua_trim : List ℕ → List ℕ
lua_trim text = let rest = trim_front text in take (trim_end (length rest) rest) rest

-- `none`: the chip is still busy at the end of its answers.
pub lua_serial_send : List ℕ → PortLog → List ℕ → Option (PortLog × List ℕ)
lua_serial_send [] p inputs = some (p, inputs)
lua_serial_send (c ∷ text) p inputs = do
  (sent, p', inputs') ← serialout_put c p inputs
  lua_serial_send text p' inputs'

-- An EOF is stored as the byte 255.
pub receive_from : ℕ → Serial → List ℕ × Serial
receive_from zero s = ([], s)
receive_from (suc n) s =
    let r = serialin_get s in
    let rest = receive_from n (r.1) in (elim (r.0) [ none ↦ 255 | some c ↦ c ] ∷ rest.0, rest.1)

pub lua_serial_receive_all : Serial → List ℕ × Serial
lua_serial_receive_all s = receive_from (serialin_avail s) s

-- The cells of the screen.
abbrev pub cell_count : ℕ
cell_count = 25 * 80

-- What a field of the cells `i` to `i + n - 1` holds.
pub cells_from : (ℕ → ℕ) → ℕ → ℕ → Vga → List ℕ
cells_from field i zero s = []
cells_from field i (suc n) s =
    field (load16 s.mem (vga_getptr s + 2 * i)) ∷ cells_from field (suc i) n s

-- The bytes up to the first NUL.
until_nul : List ℕ → List ℕ
until_nul [] = []
until_nul (c ∷ text) = let rest = until_nul text in if c == 0 then [] else c ∷ rest

-- The three fields of the table.
pub record ScreenData : Type 0 where
  pub chars : List ℕ
  pub bg : List ℕ
  pub fg : List ℕ

-- The characters are pushed as a string although no NUL ends them: `behind` is what stands behind the
-- buffer.
pub lua_vga_getdata : List ℕ → Vga → ScreenData
lua_vga_getdata behind s = record {
  chars = until_nul (cells_from (λ w. bit_and w 0xFF) 0 cell_count s ++ behind);
  bg = cells_from (λ w. bit_and (w / 4096) 0x0F) 0 cell_count s;
  fg = cells_from (λ w. bit_and (w / 256) 0x0F) 0 cell_count s;
}

pub lua_vga_setfg : ℤ → Vga → Vga
lua_vga_setfg (pos color) s = if leb color 15 then vga_setfg color s else s
lua_vga_setfg (negsuc n) s = s

pub lua_vga_setbg : ℤ → Vga → Vga
lua_vga_setbg (pos color) s = if leb color 15 then vga_setbg color s else s
lua_vga_setbg (negsuc n) s = s

-- The first byte of the string, which is the NUL of an empty one, at a place that is not negative.
pub lua_vga_placechar : List ℕ → (x y : ℕ) → Vga → Vga
lua_vga_placechar str x y s = vga_placechar (get_or str 0 0) x y s
