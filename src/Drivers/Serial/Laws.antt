-- ===== src/Drivers/Serial/Laws.antt =====
-- The serial port of src/drivers/serial.c as a queue of bytes.
use jiauliyan_os.Base.{
  ℕ, suc, ◌+◌, ◌-◌, ◌/◌, ◌%◌, ◌<◌, bit_and, refl, ◌≡◌, ap, ◌∙◌, inl, inr, true, false, Bool-cases,
  Option, none, some, List, [], ◌∷◌, ◌++◌, length, arith, ltb, ◌==◌, if◌then◌else◌,
}
use jiauliyan_os.Base.Bits.{bit_and_1, bit_and_32}
use jiauliyan_os.Drivers.Ports.{PortLog}
use jiauliyan_os.Drivers.Buffer.{length-bytes_at, bytes_at, bytes_at-write, bytes_at-memcpy}
use jiauliyan_os.Drivers.Serial.{
  Serial, serial_buf_size, serial_get, serial_put, serial_flush, store_byte, receive,
  serial_interrupt, serialin_get,
}

-- The bytes that wait, oldest first.
unfoldable pub pending : Serial → List ℕ
pending s = bytes_at s.vga.mem s.serial_buf s.serial_buf_len

-- The bytes that wait at the serial port are one more after a receive; at the end of the buffer it is
-- flushed and none waits.
pub pending-receive :
    (byte : ℕ) (s : Serial)
    → pending (receive byte s)
      ≡ (if s.serial_buf_len + 1 == serial_buf_size then [] else pending s ++ byte ∷ [])
unfolding receive store_byte serial_flush pending bytes_at
pending-receive byte s =
    let n = s.serial_buf_len in
    let some_wait : ltb 0 (n + 1) ≡ true = ground arith in
    let next : n + 1 ≡ suc n = omega arith in
    elim (Bool-cases (n + 1 == serial_buf_size)) [
      | inl full ↦ rw (full, some_wait)
      | inr more ↦ rw more (rw next (bytes_at-write s.vga.mem s.serial_buf n byte))
    ]

-- A receive buffer that is not full is not full after a byte.
pub receive_room :
    (byte : ℕ) (s : Serial)
    → s.serial_buf_len < serial_buf_size
    → (receive byte s).serial_buf_len < serial_buf_size
unfolding receive store_byte serial_flush
receive_room byte s h =
    let n = s.serial_buf_len in
    let some_wait : ltb 0 (n + 1) ≡ true = ground arith in
    elim (Bool-cases (n + 1 == serial_buf_size)) [
      | inl full ↦ rw (full, some_wait) (omega arith)
      | inr more ↦ rw more (ground arith)
    ]

-- What `serialin_get` does: EOF where no byte waits, and otherwise the oldest, with the others left in
-- their order.
abbrev pub Got : Serial → Option ℕ × Serial → Type 0
Got s (none, s') = (pending s ≡ []) × (pending s' ≡ [])
Got s (some c, s') = pending s ≡ c ∷ pending s'

-- `serialin_get` gives EOF where no byte waits, and otherwise the oldest one, and leaves the others,
-- in their order.
pub serialin_get-Got : (s : Serial) → Got s (serialin_get s)
unfolding serialin_get pending bytes_at
serialin_get-Got s =
    let m = s.vga.mem in
    let a = s.serial_buf in
    let n = s.serial_buf_len in
    elim (Bool-cases (n == 0)) [
      | inl e ↦
          let none_left : n ≡ 0 = ground arith in
          rw e (ap (bytes_at m a) none_left, ap (bytes_at m a) none_left)
      | inr e ↦
          let some_left : n ≡ suc (n - 1) = ground arith in
          rw e (ap (bytes_at m a) some_left ∙ bytes_at-memcpy m a (n - 1))
    ]

-- Status bytes in which bit 5, the chip's mark that it can take a byte, is not set.
abbrev pub AllBusy : List ℕ → Type 0
AllBusy [] = Unit
AllBusy (status ∷ r) = (status / 32 % 2 ≡ 0) × AllBusy r

-- While bit 5 of what the chip's status port gives is not set, `serial_put` waits; once it is set, it
-- sends its byte, below 256, to the data port 0x3F8, once, and asks the status no more.
pub serial_put_lem :
    (a : ℕ) (p : PortLog) (busy : List ℕ) (ready : ℕ) (r : List ℕ)
    → AllBusy busy
    → ready / 32 % 2 ≡ 1
    → a < 256
    → serial_put a p (busy ++ ready ∷ r) ≡ some ((0x3F8, a) ∷ p, r)
unfolding serial_put
serial_put_lem a p [] ready r all h byte =
    let e : (bit_and ready 0x20 == 0) ≡ false = ground (arith, bit_and_32 ready) in
    let same : a % 256 ≡ a = omega arith in rw (e, serial_put, same) refl
serial_put_lem a p (status ∷ busy) ready r (b, all) h byte =
    let e : (bit_and status 0x20 == 0) ≡ true = ground (arith, bit_and_32 status) in
    rw (e, serial_put) (serial_put_lem a p busy ready r all h byte)

-- An interrupt with a byte: the status says so twice, to the interrupt and to `serial_get`.
serial_interrupt_lem :
    (s : Serial) (first second byte : ℕ) (r : List ℕ)
    → first % 2 ≡ 1
    → second % 2 ≡ 1
    → serial_interrupt (first ∷ second ∷ byte ∷ r) s ≡ some (receive byte s, r)
unfolding serial_interrupt serial_get
serial_interrupt_lem s first second byte r h₁ h₂ =
    let e₁ : (bit_and first 1 == 0) ≡ false = ground (arith, bit_and_1 first) in
    let e₂ : (bit_and second 1 == 0) ≡ false = ground (arith, bit_and_1 second) in rw (e₁, e₂)

-- Where the buffer is not full, an interrupt for which bit 0 of the status says twice that a byte has
-- come puts that byte behind those that wait, or throws all of them away if it is the one that fills
-- the buffer; three bytes are read from the chip, and the buffer is not full after it.
pub serial_interrupt-pending :
    (s : Serial) (first second byte : ℕ) (r : List ℕ)
    → first % 2 ≡ 1
    → second % 2 ≡ 1
    → s.serial_buf_len < 131072
    → (s' : Serial) × (serial_interrupt (first ∷ second ∷ byte ∷ r) s ≡ some (s', r))
      × (pending s' ≡ (if length (pending s) == 131071 then [] else pending s ++ byte ∷ []))
      × (s'.serial_buf_len < 131072)
unfolding pending
serial_interrupt-pending s first second byte r h₁ h₂ room =
    let count = length-bytes_at s.vga.mem s.serial_buf s.serial_buf_len in
    (
      receive byte s,
      serial_interrupt_lem s first second byte r h₁ h₂,
      rw count (pending-receive byte s ∙ same_test s.serial_buf_len (pending s) byte),
      receive_room byte s room,
    )
  where
    same_test :
        (n : ℕ) (p : List ℕ) (c : ℕ)
        → (if n + 1 == 131072 then [] else p ++ c ∷ []) ≡ (if n == 131071 then [] else p ++ c ∷ [])
    same_test n p c = ground arith
