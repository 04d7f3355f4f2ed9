-- ===== src/Drivers/Serial/Tests.antt =====
-- The theorems on src/drivers/serial.c at a port with two bytes.
use jiauliyan_os.Base.{
  ◌/◌, ◌%◌, ◌<◌, ◌==◌, if◌then◌else◌, length, ◌≡◌, refl, true, [], ◌∷◌, ◌++◌, none, some, arith,
}
use jiauliyan_os.Drivers.Serial.{Serial, serialin_get, serial_interrupt, serial_put}
use jiauliyan_os.Drivers.Serial.Laws.{
  Got, pending, serial_put_lem, serialin_get-Got, serial_interrupt-pending,
}

abbrev two_bytes : Serial
two_bytes = record {
  serial_buf = 0x200000;
  serial_buf_len = 2;
  serial_handler = none;
  interrupts = true;
  vga = record {
    vgaptr = 0xB8000;
    attrib = 0x0F;
    csr_x = 0;
    csr_y = 0;
    mem = λ x. x % 256;
    ports = [];
  };
}

serialin_get-Got_example : Got two_bytes (serialin_get two_bytes)
serialin_get-Got_example = serialin_get-Got two_bytes

serial_interrupt-pending_example :
    (s' : Serial) × (serial_interrupt (1 ∷ 0x61 ∷ b'A' ∷ []) two_bytes ≡ some (s', []))
    × (pending s'
        ≡ (if length (pending two_bytes) == 131071 then [] else pending two_bytes ++ b'A' ∷ []))
    × (s'.serial_buf_len < 131072)
serial_interrupt-pending_example =
    serial_interrupt-pending two_bytes 1 0x61 b'A' [] refl refl (omega arith)

-- The chip is busy once, then ready.
ready_status : 0x60 / 32 % 2 ≡ 1
ready_status = omega arith

serial_put_lem_example :
    serial_put b'A' [] ((0 ∷ []) ++ 0x60 ∷ 0 ∷ []) ≡ some ((0x3F8, b'A') ∷ [], 0 ∷ [])
serial_put_lem_example =
    serial_put_lem b'A' [] (0 ∷ []) 0x60 (0 ∷ []) (refl, tt) ready_status (omega arith)
