-- ===== src/Drivers/Vga/Scroll.antt =====
-- `scroll` of src/drivers/vga.c, cell by cell.
use jiauliyan_os.Base.{ℕ, ◌+◌, ◌*◌, ◌/◌, ◌%◌, ◌≤◌, ◌<◌, ◌≡◌, ◌⊎◌, arith, ltb, leb, if◌then◌else◌}
use jiauliyan_os.Base.Bits.{bit_or_low}
use jiauliyan_os.Memory.{load16}
use jiauliyan_os.Libc.Copy.{memcpy}
use jiauliyan_os.Libc.Copy.Laws.{moved, filled_words, memcpy_lem, memsetw_lem}
use jiauliyan_os.Drivers.Vga.{Vga, blank, scroll}

-- The word in row `r` and column `c` of the screen.
unfoldable pub cell : Vga → ℕ → ℕ → ℕ
cell s r c = load16 s.mem (s.vgaptr + 2 * (r * 80 + c))

-- A byte outside the screen's 4000.
abbrev pub Outside : Vga → ℕ → Type 0
Outside s x = (x < s.vgaptr) ⊎ (s.vgaptr + 4000 ≤ x)

-- The memory after `scroll`, when the cursor stands one row below the screen.
scroll-mem :
    (s : Vga) (x : ℕ)
    → s.csr_y ≡ 25
    → (scroll s).mem x
      ≡ filled_words (s.vgaptr + 3840) (blank s) 80 (moved s.vgaptr (s.vgaptr + 160) 3840 s.mem) x
unfolding scroll filled_words
scroll-mem s x e =
    let up = memcpy s.vgaptr (s.vgaptr + 160) 3840 s.mem in
    let words = memsetw_lem (s.vgaptr + 3840) (blank s) 80 up x (omega arith) in
    rw e (
      unfold filled_words in
      ground (arith, words, memcpy_lem s.vgaptr (s.vgaptr + 160) 3840 s.mem x))

pub blank-fields :
    (s : Vga) → s.attrib < 256 → (blank s % 256 ≡ 0x20) × (blank s / 256 % 256 ≡ s.attrib)
blank-fields s h = omega (arith, bit_or_low 8 s.attrib 0x20 (omega arith))

pub vgaptr-scroll : (s : Vga) → (scroll s).vgaptr ≡ s.vgaptr
unfolding scroll
vgaptr-scroll s = ground arith

-- `scroll` moves each row up by one and leaves a blank row at the bottom.
pub scroll-cell :
    (s : Vga) (r c : ℕ)
    → s.csr_y ≡ 25
    → s.attrib < 256
    → r < 25
    → c < 80
    → cell (scroll s) r c ≡ (if ltb r 24 then cell s (r + 1) c else 0x20 + 256 * s.attrib)
unfolding cell filled_words moved load16
scroll-cell s r c e h hr hc =
    let a = s.vgaptr + 2 * (r * 80 + c) in
    ground (arith, vgaptr-scroll s, scroll-mem s a e, scroll-mem s (a + 1) e, blank-fields s h)

-- Above the last row `scroll` does nothing.
pub scroll_idle : (s : Vga) → s.csr_y < 25 → scroll s ≡ s
unfolding scroll
scroll_idle s h = ground arith

-- What `scroll` leaves of the other variables.
pub scroll-cursor :
    (s : Vga)
    → ((scroll s).csr_x ≡ s.csr_x)
      × ((scroll s).csr_y ≡ (if leb 25 s.csr_y then 24 else s.csr_y))
      × ((scroll s).attrib ≡ s.attrib)
      × ((scroll s).ports ≡ s.ports)
unfolding scroll
scroll-cursor s = ground arith

-- `scroll` writes inside the screen only.
pub scroll-Outside : (s : Vga) (x : ℕ) → s.csr_y ≤ 25 → Outside s x → (scroll s).mem x ≡ s.mem x
unfolding filled_words moved
scroll-Outside s x h out = ground (arith, scroll_idle s, scroll-mem s x)
