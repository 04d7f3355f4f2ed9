-- ===== src/Kernel/Lua/Tests.antt =====
-- The functions of src/kernel/lua_kernel.c on concrete arguments.
use jiauliyan_os.Base.{ℕ, ◌+◌, ◌*◌, ◌≡◌, refl, List, [], ◌∷◌, some, none, arith, get_elem?, true}
use jiauliyan_os.Base.Int.{pos}
use jiauliyan_os.Drivers.Vga.{Vga, vga_statics}
use jiauliyan_os.Drivers.Serial.{Serial}
use jiauliyan_os.Drivers.Serial.Laws.{pending}
use jiauliyan_os.Kernel.Lua.{
  trim_front, trim_end, lua_trim, lua_serial_receive_all, lua_vga_getdata, lua_vga_setfg,
  lua_vga_setbg, lua_vga_placechar,
}
use jiauliyan_os.Kernel.Lua.Laws.{IsTrimmed, lua_trim-IsTrimmed, lua_serial_receive_all_lem}
use jiauliyan_os.Kernel.Lua.Colours.{lua_vga_getdata-lua_vga_placechar}

-- " a b\n"
abbrev spaced : List ℕ
spaced = 32 ∷ 97 ∷ 32 ∷ 98 ∷ 10 ∷ []

trim_spaced : lua_trim spaced ≡ 97 ∷ 32 ∷ 98 ∷ []
unfolding lua_trim trim_front trim_end
trim_spaced = refl

lua_trim-IsTrimmed_example : IsTrimmed spaced (lua_trim spaced)
lua_trim-IsTrimmed_example = lua_trim-IsTrimmed spaced

-- Three bytes wait at 4096.
abbrev waiting : Serial
waiting = record {
  serial_buf = 4096;
  serial_buf_len = 3;
  serial_handler = none;
  interrupts = true;
  vga = vga_statics (λ x. x);
}

lua_serial_receive_all_lem_example :
    ((lua_serial_receive_all waiting).0 ≡ pending waiting)
    × (pending (lua_serial_receive_all waiting).1 ≡ [])
lua_serial_receive_all_lem_example = lua_serial_receive_all_lem waiting

abbrev empty_screen : Vga
empty_screen = vga_statics (λ x. 0)

-- 'A' in yellow on blue at the cell 3, 2.
lua_vga_getdata-lua_vga_placechar_example :
    let d = lua_vga_getdata [] (
      lua_vga_placechar
        (65 ∷ [])
        3
        2
        (lua_vga_setfg (pos 14) (lua_vga_setbg (pos 1) empty_screen))) in
    (get_elem? d.bg (2 * 80 + 3) ≡ some 1) × (get_elem? d.fg (2 * 80 + 3) ≡ some 14)
lua_vga_getdata-lua_vga_placechar_example =
    lua_vga_getdata-lua_vga_placechar (65 ∷ []) 3 2 1 14 [] empty_screen (omega arith) (omega arith)
      (omega arith) (omega arith) (omega arith)
