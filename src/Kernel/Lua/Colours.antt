-- ===== src/Kernel/Lua/Colours.antt =====
-- The screen as a script sees it through src/kernel/lua_kernel.c.
use jiauliyan_os.Base.{
  ℕ, zero, suc, ◌+◌, ◌*◌, ◌/◌, ◌<◌, ◌≡◌, bit_and, bit_or, refl, ◌∙◌, ap, true, List, some, leb,
  get_or, get_elem?, arith,
}
use jiauliyan_os.Base.Int.{pos}
use jiauliyan_os.Base.Bits.{bit_and_15, bit_or_low}
use jiauliyan_os.Memory.{load16}
use jiauliyan_os.Memory.Laws.{load16-store16_self}
use jiauliyan_os.Drivers.Vga.{Vga, vga_setbg, vga_placechar, vga_getptr}
use jiauliyan_os.Drivers.Vga.Colour.{vga_setfg_nibbles, vga_setbg_nibbles}
use jiauliyan_os.Kernel.Lua.{
  cells_from, cell_count, lua_vga_getdata, lua_vga_setfg, lua_vga_setbg, lua_vga_placechar,
}

get_elem?-cells_from :
    (field : ℕ → ℕ) (i n j : ℕ) (s : Vga)
    → j < n
    → get_elem? (cells_from field i n s) j
      ≡ some (field (load16 s.mem (vga_getptr s + 2 * (i + j))))
unfolding cells_from
get_elem?-cells_from field i zero j s h = absurd (omega arith)
get_elem?-cells_from field i (suc n) zero s h = let e : i + 0 ≡ i = omega arith in rw e refl
get_elem?-cells_from field i (suc n) (suc j) s h =
    let e : i + suc j ≡ suc i + j = omega arith in
    rw e (get_elem?-cells_from field (suc i) n j s (omega arith))

-- The attribute after both colours are set.
lua_attrib :
    (b f : ℕ) (s : Vga)
    → b < 16
    → f < 16
    → (lua_vga_setfg (pos f) (lua_vga_setbg (pos b) s)).attrib ≡ b * 16 + f
unfolding lua_vga_setfg lua_vga_setbg
lua_attrib b f s hb hf =
    let eb : leb b 15 ≡ true = ground arith in
    let ef : leb f 15 ≡ true = ground arith in
    let s1 = vga_setbg b s in
    let (low, high) = vga_setbg_nibbles b s in
    let (low', high') = vga_setfg_nibbles f s1 (omega arith) in rw (eb, ef) (omega arith)

placed :
    (str : List ℕ) (x y : ℕ) (s : Vga)
    → get_or str 0 0 < 256
    → s.attrib < 256
    → load16 (lua_vga_placechar str x y s).mem (s.vgaptr + 2 * (y * 80 + x))
      ≡ get_or str 0 0 + s.attrib * 256
unfolding lua_vga_placechar vga_placechar
placed str x y s hc ha =
    let c = get_or str 0 0 in
    load16-store16_self s.mem (s.vgaptr + 2 * (y * 80 + x)) (bit_or c (s.attrib * 256))
    ∙ omega (arith, bit_or_low 8 s.attrib c (omega arith))

same_place :
    (str : List ℕ) (x y : ℕ) (s : Vga) (i : ℕ)
    → load16
        (lua_vga_placechar str x y s).mem
        (vga_getptr (lua_vga_placechar str x y s) + 2 * (0 + i))
      ≡ load16 (lua_vga_placechar str x y s).mem (s.vgaptr + 2 * i)
unfolding lua_vga_placechar vga_placechar vga_getptr
same_place str x y s i = let e : 0 + i ≡ i = omega arith in rw e refl

-- The two colours of a cell.
colours :
    (w c a b f : ℕ)
    → w ≡ c + a * 256
    → c < 256
    → a ≡ b * 16 + f
    → b < 16
    → f < 16
    → (bit_and (w / 4096) 0x0F ≡ b) × (bit_and (w / 256) 0x0F ≡ f)
colours w c a b f e hc e' hb hf =
    (bit_and_15 (w / 4096) ∙ omega arith, bit_and_15 (w / 256) ∙ omega arith)

shown :
    (str : List ℕ) (x y b f : ℕ) (behind : List ℕ) (s : Vga)
    → x < 80
    → y < 25
    → b < 16
    → f < 16
    → get_or str 0 0 < 256
    → s.attrib ≡ b * 16 + f
    → let d = lua_vga_getdata behind (lua_vga_placechar str x y s) in
      (get_elem? d.bg (y * 80 + x) ≡ some b) × (get_elem? d.fg (y * 80 + x) ≡ some f)
unfolding lua_vga_getdata
shown str x y b f behind s hx hy hb hf hc e =
    let s' = lua_vga_placechar str x y s in
    let i = y * 80 + x in
    let inside : i < cell_count = omega arith in
    let w = load16 s'.mem (vga_getptr s' + 2 * (0 + i)) in
    let (bg, fg) =
      colours w (get_or str 0 0) s.attrib b f
        (same_place str x y s i ∙ placed str x y s hc (omega arith)) hc e hb hf in
    (
      get_elem?-cells_from (λ w. bit_and (w / 4096) 0x0F) 0 cell_count i s' inside ∙ ap some bg,
      get_elem?-cells_from (λ w. bit_and (w / 256) 0x0F) 0 cell_count i s' inside ∙ ap some fg,
    )

-- After a script has set the two colours, each from 0 to 15, and placed a character of one byte on the
-- screen, `getdata` gives these colours for its cell.
pub lua_vga_getdata-lua_vga_placechar :
    (str : List ℕ) (x y b f : ℕ) (behind : List ℕ) (s : Vga)
    → x < 80
    → y < 25
    → b < 16
    → f < 16
    → get_or str 0 0 < 256
    → let d =
        lua_vga_getdata behind
          (lua_vga_placechar str x y (lua_vga_setfg (pos f) (lua_vga_setbg (pos b) s))) in
      (get_elem? d.bg (y * 80 + x) ≡ some b) × (get_elem? d.fg (y * 80 + x) ≡ some f)
lua_vga_getdata-lua_vga_placechar str x y b f behind s hx hy hb hf hc =
    shown str x y b f behind (lua_vga_setfg (pos f) (lua_vga_setbg (pos b) s)) hx hy hb hf hc
      (lua_attrib b f s hb hf)
