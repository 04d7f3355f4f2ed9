-- ===== src/Drivers/Keyboard.antt =====
-- The keyboard (src/drivers/keyboard.c): scan codes come by interrupt, are translated by a table of
-- two layouts, go into a buffer of 4096 bytes and onto the screen.
pub mod Layout
pub mod Laws
pub mod Events
pub mod Queue
mod Tests
use jiauliyan_os.Base.{
  ℕ, zero, suc, ◌+◌, ◌-◌, ◌*◌, ◌%◌, bit_and, Bool, true, false, ◌||◌, not, List, Option, none, some,
  ltb, leb, ◌==◌, if◌then◌else◌, get_or,
}
use jiauliyan_os.Base.Int.{ℤ, pos, negsuc, ◌+ℤ◌, ltb_ℤ}
use jiauliyan_os.Memory.{Mem, write}
use jiauliyan_os.Libc.Copy.{memcpy}
use jiauliyan_os.Drivers.Vga.{Vga, vga_putchar}
use jiauliyan_os.Drivers.Keyboard.Layout.{kbdus}

-- 1024 * 4
abbrev pub keyboard_buf_size : ℕ
keyboard_buf_size = 4096

-- The variables of the driver. `keyboard_buf` is the address of the array, which lies in the screen's
-- memory state like all other memory. A handler gets the buffer's address and length; `none` is the
-- null pointer. `interrupts` is the processor's flag.
pub record Keyboard : Type 0 where
  pub shift_pressed : ℤ
  pub capslock : Bool
  pub keyboard_buf : ℕ
  pub keyboard_buf_len : ℕ
  pub keyboard_handler : Option (ℕ → ℕ → Vga → Vga)
  pub interrupts : Bool
  pub vga : Vga

pub keyboard_set_handler : Option (ℕ → ℕ → Vga → Vga) → Keyboard → Keyboard
keyboard_set_handler callback k = record k { keyboard_handler = callback }

-- `keyboard_handler(keyboard_buf, keyboard_buf_len)`, if there is a handler.
call_handler : Keyboard → Vga
call_handler k = elim k.keyboard_handler [
  | none ↦ k.vga
  | some handler ↦ handler k.keyboard_buf k.keyboard_buf_len k.vga
]

-- The interrupts that are disabled during the call are enabled after it.
pub keyboard_flush : Keyboard → Keyboard
keyboard_flush k =
    if ltb 0 k.keyboard_buf_len
    then record k { vga = call_handler k; keyboard_buf_len = 0; interrupts = true }
    else k

-- `keyboard_buf[keyboard_buf_len++] = c`; no test keeps the index inside the array.
pub store_key : ℕ → Keyboard → Keyboard
store_key c k = record k {
  vga = record (k.vga) { mem = write k.vga.mem (k.keyboard_buf + k.keyboard_buf_len) c };
  keyboard_buf_len = k.keyboard_buf_len + 1;
}

pub show : ℕ → Keyboard → Keyboard
show c k = record k { vga = vga_putchar c k.vga }

-- The character of a key: the second layout stands 90 entries behind the first.
pub key_char : ℕ → Keyboard → ℕ
key_char scancode k =
    get_or kbdus (scancode + (if ltb_ℤ (pos 0) k.shift_pressed then 1 else 0) * 90) 0

abbrev pub is_shift : ℕ → Bool
is_shift key = (key == 42) || (key == 54)

-- A key is released: the top bit of the scan code is set.
pub released : ℕ → Keyboard → Keyboard
released scancode k =
    if is_shift (bit_and scancode 0x7F)
    then record k { shift_pressed = k.shift_pressed +ℤ negsuc 0 }
    else k

-- A key is pressed.
pub pressed : ℕ → Keyboard → Keyboard
pressed scancode k =
    if is_shift scancode
    then record k { shift_pressed = k.shift_pressed +ℤ pos 1 }
    else if scancode == 58
    then record k {
      capslock = not k.capslock;
      shift_pressed = k.shift_pressed +ℤ (if not k.capslock then pos 1 else negsuc 0);
    }
    else if scancode == 14
    then show 0x08 (show b' ' (show 0x08 (store_key 0x08 k)))
    else (let c = key_char scancode k in
        let k' = show c (store_key c k) in
        if k'.keyboard_buf_len == keyboard_buf_size then keyboard_flush k' else k')

-- `scancode` is what `inportb(0x60)` gives.
pub keyboard_interrupt : ℕ → Keyboard → Keyboard
keyboard_interrupt scancode k =
    if not (bit_and scancode 0x80 == 0) then released scancode k else pressed scancode k

-- `none`: the loop still waits for a key. Otherwise the character and the state after it.
pub keyboardin_get : Keyboard → Option (ℕ × Keyboard)
keyboardin_get k =
    let len = k.keyboard_buf_len - 1 in
    if k.keyboard_buf_len == 0
    then none
    else some (
      k.vga.mem k.keyboard_buf,
      record k {
        vga = record (k.vga) { mem = memcpy k.keyboard_buf (k.keyboard_buf + 1) len k.vga.mem };
        keyboard_buf_len = len;
      },
    )

pub keyboardin_avail : Keyboard → ℕ
keyboardin_avail k = k.keyboard_buf_len
