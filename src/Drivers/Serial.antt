-- ===== src/Drivers/Serial.antt =====
-- The serial port (src/drivers/serial.c): bytes come by interrupt into a buffer of 128 KB, and go out
-- one by one. What `inportb` reads from the chip is an input of the model, a list of bytes in order;
-- a loop that waits for the chip runs along it, and `none` means that it still waits at its end.
pub mod Laws
mod Tests
use jiauliyan_os.Base.{
  ℕ, ◌+◌, ◌-◌, ◌%◌, bit_and, Bool, true, not, List, [], ◌∷◌, Option, none, some, ltb, ◌==◌,
  if◌then◌else◌,
}
use jiauliyan_os.Memory.{write}
use jiauliyan_os.Libc.Copy.{memcpy}
use jiauliyan_os.Drivers.Ports.{PortLog, outportb}
use jiauliyan_os.Drivers.Vga.{Vga}

-- COM1, and 1024 * 128
abbrev pub port : ℕ
port = 0x3f8

abbrev pub serial_buf_size : ℕ
serial_buf_size = 131072

-- The variables of the driver; `serial_buf` is the address of the array. A handler gets the buffer's
-- address and length, and may write to the screen.
pub record Serial : Type 0 where
  pub serial_buf : ℕ
  pub serial_buf_len : ℕ
  pub serial_handler : Option (ℕ → ℕ → Vga → Vga)
  pub interrupts : Bool
  pub vga : Vga

-- The two flags of the status port, `serial_received` and `serial_transit_empty`.
abbrev pub serial_received : ℕ → ℕ
serial_received status = bit_and status 1

abbrev pub serial_transit_empty : ℕ → ℕ
serial_transit_empty status = bit_and status 0x20

-- The byte, and what the chip has not been asked yet.
pub serial_get : List ℕ → Option (ℕ × List ℕ)
serial_get [] = none
serial_get (status ∷ []) = none
serial_get (status ∷ byte ∷ r) = elim (serial_received status == 0) [
  | true ↦ serial_get (byte ∷ r)
  | _ ↦ some (byte, r)
]

-- The port writes, and what the chip has not been asked yet.
pub serial_put : ℕ → PortLog → List ℕ → Option (PortLog × List ℕ)
serial_put a p [] = none
serial_put a p (status ∷ r) = elim (serial_transit_empty status == 0) [
  | true ↦ serial_put a p r
  | _ ↦ some (outportb port a p, r)
]

pub serial_set_handler : Option (ℕ → ℕ → Vga → Vga) → Serial → Serial
serial_set_handler callback s = record s { serial_handler = callback }

call_handler : Serial → Vga
call_handler s = elim s.serial_handler [
  | none ↦ s.vga
  | some handler ↦ handler s.serial_buf s.serial_buf_len s.vga
]

-- The interrupts that are disabled during the call are enabled after it.
pub serial_flush : Serial → Serial
serial_flush s =
    if ltb 0 s.serial_buf_len
    then record s { vga = call_handler s; serial_buf_len = 0; interrupts = true }
    else s

-- `serial_buf[serial_buf_len++] = byte`
pub store_byte : ℕ → Serial → Serial
store_byte byte s = record s {
  vga = record (s.vga) { mem = write s.vga.mem (s.serial_buf + s.serial_buf_len) byte };
  serial_buf_len = s.serial_buf_len + 1;
}

-- A byte that has come: it is stored, and a full buffer is flushed.
pub receive : ℕ → Serial → Serial
receive byte s =
    let s' = store_byte byte s in
    if s'.serial_buf_len == serial_buf_size then serial_flush s' else s'

pub serial_interrupt : List ℕ → Serial → Option (Serial × List ℕ)
serial_interrupt [] s = none
serial_interrupt (status ∷ r) s =
    if not (serial_received status == 0)
    then elim (serial_get r) [ none ↦ none | some (byte, r') ↦ some (receive byte s, r') ]
    else some (s, r)

-- `none` is EOF: unlike the keyboard's, this read does not wait.
pub serialin_get : Serial → Option ℕ × Serial
serialin_get s =
    let len = s.serial_buf_len - 1 in
    if s.serial_buf_len == 0 then (none, s) else (
      some (s.vga.mem s.serial_buf),
      record s {
        vga = record (s.vga) { mem = memcpy s.serial_buf (s.serial_buf + 1) len s.vga.mem };
        serial_buf_len = len;
      },
    )

unfoldable pub serialin_avail : Serial → ℕ
serialin_avail s = s.serial_buf_len

-- The result of `put` is the byte.
pub serialout_put : ℕ → PortLog → List ℕ → Option (ℕ × PortLog × List ℕ)
serialout_put c p inputs = elim (serial_put c p inputs) [
  | none ↦ none
  | some (p', r) ↦ some (c, p', r)
]

-- What `serial_install` tells the chip.
pub serial_setup : PortLog → PortLog
serial_setup p = outportb (port + 4) 0x0B (
    outportb (port + 2) 0xC7 (
      outportb (port + 3) 0x03 (
        outportb (port + 1) 0x00
          (outportb (port + 0) 0x03 (outportb (port + 3) 0x80 (outportb (port + 1) 0x01 p))))))
