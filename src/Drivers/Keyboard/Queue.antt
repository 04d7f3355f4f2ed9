-- ===== src/Drivers/Keyboard/Queue.antt =====
-- Reading from the keyboard of src/drivers/keyboard.c, and how full its buffer can get.
use jiauliyan_os.Base.{
  ℕ, suc, ◌+◌, ◌-◌, ◌≤◌, ◌<◌, ◌≡◌, ◌≢◌, refl, ap, ◌∙◌, inl, inr, true, false, Bool-cases, Option,
  none, some, [], ◌∷◌, arith, ltb, ◌==◌, if◌then◌else◌, bit_and,
}
use jiauliyan_os.Base.Bits.{bit_and_128}
use jiauliyan_os.Drivers.Vga.{Vga}
use jiauliyan_os.Drivers.Buffer.{bytes_at, bytes_at-memcpy}
use jiauliyan_os.Drivers.Keyboard.{
  Keyboard, call_handler, keyboard_buf_size, keyboard_flush, store_key, show, key_char, is_shift,
  released, pressed, keyboard_interrupt, keyboardin_get,
}
use jiauliyan_os.Drivers.Keyboard.Laws.{pending, IsReady, show-IsReady, store_key-IsReady}

-- What `keyboardin_get` does: it waits while no character is there, and otherwise gives the oldest
-- one and leaves the others in their order.
abbrev pub Got : Keyboard → Option (ℕ × Keyboard) → Type 0
Got k none = pending k ≡ []
Got k (some (c, k')) = pending k ≡ c ∷ pending k'

-- `keyboardin_get` waits only while no character is there; otherwise it gives the oldest one and
-- leaves the others, in their order.
pub keyboardin_get-Got : (k : Keyboard) → Got k (keyboardin_get k)
unfolding keyboardin_get pending bytes_at
keyboardin_get-Got k =
    let m = k.vga.mem in
    let a = k.keyboard_buf in
    let n = k.keyboard_buf_len in
    elim (Bool-cases (n == 0)) [
      | inl e ↦ let none_left : n ≡ 0 = ground arith in rw e (ap (bytes_at m a) none_left)
      | inr e ↦
          let some_left : n ≡ suc (n - 1) = ground arith in
          rw e (ap (bytes_at m a) some_left ∙ bytes_at-memcpy m a (n - 1))
    ]

-- A key that stores a character other than the backspace.
abbrev pub IsCharacter : ℕ → Type 0
IsCharacter sc = (sc < 128) × (is_shift sc ≡ false) × (sc ≢ 58) × (sc ≢ 14)

call_handler_quiet : (k : Keyboard) → k.keyboard_handler ≡ none → call_handler k ≡ k.vga
unfolding call_handler
call_handler_quiet k e =
    ap {B = Vga}
      (λ o. elim o [
        | none ↦ k.vga
        | some handler ↦ handler k.keyboard_buf k.keyboard_buf_len k.vga
      ])
      e

-- A flush keeps the driver ready, when no handler is set.
flush-IsReady : {k : Keyboard} → IsReady k → IsReady (keyboard_flush k)
unfolding keyboard_flush
flush-IsReady {k} r = elim (Bool-cases (ltb 0 k.keyboard_buf_len)) [
  | inl e ↦
      rw (e, call_handler_quiet k r.quiet)
        (record { screen = r.screen; apart = r.apart; room = omega arith; quiet = r.quiet })
  | inr e ↦ rw e r
]

press-IsReady :
    {k : Keyboard} (c : ℕ)
    → IsReady k
    → k.keyboard_buf_len < 4096
    → IsReady (show c (store_key c k))
press-IsReady c r h = show-IsReady c (store_key-IsReady c r h)

pressed-IsReady :
    {k : Keyboard} (scancode : ℕ)
    → IsReady k
    → k.keyboard_buf_len < 4096
    → IsReady (pressed scancode k)
unfolding pressed
pressed-IsReady {k} scancode r h =
    let c = key_char scancode k in
    let k' = show c (store_key c k) in
    elim (Bool-cases (is_shift scancode)) [
      | inl e ↦ rw e (record { screen = r.screen; apart = r.apart; room = r.room; quiet = r.quiet })
      | inr e ↦ rw e (elim (Bool-cases (scancode == 58)) [
        | inl f ↦
            rw f (record { screen = r.screen; apart = r.apart; room = r.room; quiet = r.quiet })
        | inr f ↦ rw f (elim (Bool-cases (scancode == 14)) [
          | inl g ↦ rw g (show-IsReady 0x08 (show-IsReady b' ' (press-IsReady 0x08 r h)))
          | inr g ↦ rw g (elim (Bool-cases (k'.keyboard_buf_len == keyboard_buf_size)) [
            | inl full ↦ rw full (flush-IsReady (press-IsReady c r h))
            | inr more ↦ rw more (press-IsReady c r h)
          ])
        ])
      ])
    ]

-- Every interrupt keeps the driver ready, if it was, and the buffer had room for one character when it
-- came.
pub keyboard_interrupt-IsReady :
    {k : Keyboard} (scancode : ℕ)
    → IsReady k
    → k.keyboard_buf_len < 4096
    → IsReady (keyboard_interrupt scancode k)
unfolding keyboard_interrupt released
keyboard_interrupt-IsReady {k} scancode r h = elim (Bool-cases (bit_and scancode 0x80 == 0)) [
  | inl down ↦ rw down (pressed-IsReady scancode r h)
  | inr up ↦ rw up (elim (Bool-cases (is_shift (bit_and scancode 0x7F))) [
    | inl e ↦ rw e (record { screen = r.screen; apart = r.apart; room = r.room; quiet = r.quiet })
    | inr e ↦ rw e r
  ])
]

-- The test for a full buffer stands in the branch of the ordinary characters only.
len-character :
    (sc : ℕ) (k : Keyboard)
    → IsCharacter sc
    → (keyboard_interrupt sc k).keyboard_buf_len
      ≡ (if k.keyboard_buf_len + 1 == 4096 then 0 else k.keyboard_buf_len + 1)
unfolding keyboard_interrupt pressed keyboard_flush show store_key
len-character sc k (small, e, f, g) =
    let down : (bit_and sc 0x80 == 0) ≡ true = ground (arith, bit_and_128 sc) in
    let not_lock : (sc == 58) ≡ false = ground arith in
    let not_back : (sc == 14) ≡ false = ground arith in
    let some_wait : ltb 0 (k.keyboard_buf_len + 1) ≡ true = ground arith in
    rw (down, e, not_lock, not_back)
      (elim (Bool-cases (k.keyboard_buf_len + 1 == 4096)) [
        | inl full ↦ rw (full, some_wait)
        | inr more ↦ rw more
      ])

len-backspace : (k : Keyboard) → (keyboard_interrupt 14 k).keyboard_buf_len ≡ k.keyboard_buf_len + 1
unfolding keyboard_interrupt pressed show store_key
len-backspace k = refl

-- While the buffer is not full, the press of a character key other than backspace leaves room for the
-- next: a full buffer is emptied at once.
pub character_leaves_room :
    (sc : ℕ) (k : Keyboard)
    → IsCharacter sc
    → k.keyboard_buf_len < 4096
    → (keyboard_interrupt sc k).keyboard_buf_len < 4096
character_leaves_room sc k is h = ground (arith, len-character sc k is)

-- From 4095 characters on, a backspace and a character key after it are both stored without a flush,
-- in a buffer of 4096 bytes.
pub backspace_overflows :
    (sc : ℕ) (k : Keyboard)
    → IsCharacter sc
    → 4095 ≤ k.keyboard_buf_len
    → (keyboard_interrupt sc (keyboard_interrupt 14 k)).keyboard_buf_len ≡ k.keyboard_buf_len + 2
backspace_overflows sc k is h =
    ground (arith, len-character sc (keyboard_interrupt 14 k) is, len-backspace k)
