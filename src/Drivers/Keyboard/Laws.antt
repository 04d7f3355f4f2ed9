-- ===== src/Drivers/Keyboard/Laws.antt =====
-- What each step of src/drivers/keyboard.c does to the characters that wait.
use jiauliyan_os.Base.{
  ℕ, suc, ◌+◌, ◌≤◌, ◌<◌, ◌≡◌, refl, ◌∙◌, ◌⊎◌, none, List, [], ◌∷◌, ◌++◌, arith, length,
}
use jiauliyan_os.Drivers.Vga.{vga_putchar}
use jiauliyan_os.Drivers.Vga.Cursor
use jiauliyan_os.Drivers.Vga.Cursor.{vga_putchar-IsValid, vga_putchar-Outside, vgaptr-vga_putchar}
use jiauliyan_os.Drivers.Buffer.{length-bytes_at, bytes_at, bytes_at_congr, bytes_at-write}
use jiauliyan_os.Drivers.Keyboard.{Keyboard, keyboard_flush, store_key, show}

-- The characters that wait, oldest first.
unfoldable pub pending : Keyboard → List ℕ
pending k = bytes_at k.vga.mem k.keyboard_buf k.keyboard_buf_len

-- The buffer is apart from the screen, the screen's cursor is on it, at most 4096 characters wait,
-- and no handler is set (the kernel sets none).
pub record IsReady (k : Keyboard) : Type 0 where
  pub screen : Cursor.IsValid k.vga
  pub apart : (k.keyboard_buf + 4096 ≤ k.vga.vgaptr) ⊎ (k.vga.vgaptr + 4000 ≤ k.keyboard_buf)
  pub room : k.keyboard_buf_len ≤ 4096
  pub quiet : k.keyboard_handler ≡ none

-- Showing a character leaves the buffer alone.
pub pending-show : {k : Keyboard} (c : ℕ) → IsReady k → pending (show c k) ≡ pending k
unfolding pending show
pending-show {k} c r =
    bytes_at_congr (vga_putchar c k.vga).mem k.vga.mem k.keyboard_buf k.keyboard_buf
      k.keyboard_buf_len (λ i h. vga_putchar-Outside c (k.keyboard_buf + i) r.screen (omega arith))

pub show-IsReady : {k : Keyboard} (c : ℕ) → IsReady k → IsReady (show c k)
unfolding show
show-IsReady {k} c r = record {
  screen = vga_putchar-IsValid c r.screen;
  apart = rw vgaptr-vga_putchar (r.apart);
  room = r.room;
  quiet = r.quiet;
}

pub pending-store_key : (k : Keyboard) (c : ℕ) → pending (store_key c k) ≡ pending k ++ c ∷ []
unfolding pending store_key
pending-store_key k c =
    let next : k.keyboard_buf_len + 1 ≡ suc k.keyboard_buf_len = omega arith in
    rw next (bytes_at-write k.vga.mem k.keyboard_buf k.keyboard_buf_len c)

pub store_key-IsReady :
    {k : Keyboard} (c : ℕ) → IsReady k → k.keyboard_buf_len < 4096 → IsReady (store_key c k)
unfolding store_key
store_key-IsReady c r h = ground arith

pub length-pending : (k : Keyboard) → length (pending k) ≡ k.keyboard_buf_len
unfolding pending
length-pending k = length-bytes_at k.vga.mem k.keyboard_buf k.keyboard_buf_len

pub pending-flush : (k : Keyboard) → 0 < k.keyboard_buf_len → pending (keyboard_flush k) ≡ []
unfolding pending keyboard_flush bytes_at
pending-flush k h = ground arith

pub fields-show :
    (k : Keyboard) (c : ℕ)
    → ((show c k).shift_pressed ≡ k.shift_pressed)
      × ((show c k).capslock ≡ k.capslock)
      × ((show c k).keyboard_buf_len ≡ k.keyboard_buf_len)
unfolding show
fields-show k c = (refl, refl, refl)

pub fields-store_key :
    (k : Keyboard) (c : ℕ)
    → ((store_key c k).shift_pressed ≡ k.shift_pressed)
      × ((store_key c k).capslock ≡ k.capslock)
      × ((store_key c k).keyboard_buf_len ≡ k.keyboard_buf_len + 1)
unfolding store_key
fields-store_key k c = (refl, refl, refl)

pub fields-flush :
    (k : Keyboard)
    → ((keyboard_flush k).shift_pressed ≡ k.shift_pressed)
      × ((keyboard_flush k).capslock ≡ k.capslock)
unfolding keyboard_flush
fields-flush k = ground arith

module _ {k : Keyboard} (c : ℕ) (r : IsReady k) (h : k.keyboard_buf_len < 4096) where
  -- A character that is stored and shown is one more in the queue.
  pub pending-press : pending (show c (store_key c k)) ≡ pending k ++ c ∷ []
  pending-press = pending-show c (store_key-IsReady c r h) ∙ pending-store_key k c

  -- So is the backspace, which is shown by three.
  pub pending-backspace :
      pending (show 0x08 (show b' ' (show 0x08 (store_key 0x08 k)))) ≡ pending k ++ 0x08 ∷ []
  pending-backspace =
      let r₀ = store_key-IsReady 0x08 r h in
      let r₁ = show-IsReady 0x08 r₀ in
      let r₂ = show-IsReady b' ' r₁ in
      pending-show 0x08 r₂ ∙ pending-show b' ' r₁ ∙ pending-show 0x08 r₀ ∙ pending-store_key k 0x08
