-- ===== src/Drivers/Keyboard/Tests.antt =====
-- Runs of src/drivers/keyboard.c, and its theorems at a keyboard with two characters.
use jiauliyan_os.Base.{◌%◌, ◌≡◌, refl, inr, true, false, [], none, arith}
use jiauliyan_os.Base.Int.{pos}
use jiauliyan_os.Drivers.Keyboard.{Keyboard, key_char, keyboard_interrupt, keyboardin_get}
use jiauliyan_os.Drivers.Keyboard.Layout.{kbdus}
use jiauliyan_os.Drivers.Keyboard.Laws.{IsReady}
use jiauliyan_os.Drivers.Keyboard.Events.{keys, key_event, keyboard_interrupt_refines}
use jiauliyan_os.Drivers.Keyboard.Queue.{
  Got, IsCharacter, keyboardin_get-Got, keyboard_interrupt-IsReady, backspace_overflows,
}

-- Shift is held, and two characters wait.
abbrev shifted : Keyboard
shifted = record {
  shift_pressed = pos 1;
  capslock = false;
  keyboard_buf = 0x200000;
  keyboard_buf_len = 2;
  keyboard_handler = none;
  interrupts = true;
  vga = record {
    vgaptr = 0xB8000;
    attrib = 0x0F;
    csr_x = 79;
    csr_y = 24;
    mem = λ x. x % 256;
    ports = [];
  };
}

-- One short of a full buffer.
abbrev nearly_full : Keyboard
nearly_full = record shifted { keyboard_buf_len = 4095 }

-- The key of scan code 30 is 'A' with shift.
shifted_a : key_char 30 shifted ≡ b'A'
unfolding key_char kbdus
shifted_a = refl

shifted-IsReady : IsReady shifted
shifted-IsReady = record {
  screen = omega arith;
  apart = inr (omega arith);
  room = omega arith;
  quiet = refl;
}

a-IsCharacter : IsCharacter 30
a-IsCharacter = (omega arith, refl, omega arith, omega arith)

keyboard_interrupt_refines_example :
    keys (keyboard_interrupt 30 shifted) ≡ key_event 30 (keys shifted)
keyboard_interrupt_refines_example =
    keyboard_interrupt_refines 30 shifted-IsReady (omega arith) (omega arith)

keyboardin_get-Got_example : Got shifted (keyboardin_get shifted)
keyboardin_get-Got_example = keyboardin_get-Got shifted

keyboard_interrupt-IsReady_example : IsReady (keyboard_interrupt 30 shifted)
keyboard_interrupt-IsReady_example = keyboard_interrupt-IsReady 30 shifted-IsReady (omega arith)

backspace_overflows_example :
    (keyboard_interrupt 30 (keyboard_interrupt 14 nearly_full)).keyboard_buf_len ≡ 4097
backspace_overflows_example = backspace_overflows 30 nearly_full a-IsCharacter (omega arith)
