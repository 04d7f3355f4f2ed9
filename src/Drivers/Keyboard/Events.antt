-- ===== src/Drivers/Keyboard/Events.antt =====
-- The keyboard of src/drivers/keyboard.c as an abstract one: a shift count, a lock and a queue.
use jiauliyan_os.Base.{
  ℕ, ◌+◌, ◌%◌, ◌<◌, ◌≡◌, refl, ◌∙◌, inl, inr, Bool, ◌||◌, not, Bool-cases, List, [], ◌∷◌, ◌++◌,
  arith, leb, ◌==◌, if◌then◌else◌, length, length-append, get_or, bit_and,
}
use jiauliyan_os.Base.Int.{ℤ, pos, negsuc, ◌+ℤ◌, ltb_ℤ}
use jiauliyan_os.Base.Bits.{bit_and_127, bit_and_128}
use jiauliyan_os.Drivers.Keyboard.Layout.{kbdus}
use jiauliyan_os.Drivers.Keyboard.{
  Keyboard, keyboard_buf_size, keyboard_flush, store_key, show, key_char, is_shift, released,
  pressed, keyboard_interrupt,
}
use jiauliyan_os.Drivers.Keyboard.Laws.{
  pending, IsReady, length-pending, pending-flush, fields-show, fields-store_key, fields-flush,
  pending-press, pending-backspace,
}

-- The abstract keyboard: the shift count, the lock, and the queue.
pub record Keys : Type 0 where
  pub shift : ℤ
  pub lock : Bool
  pub queue : List ℕ

-- What a scan code means to it. A queue that reaches 4096 characters is thrown away.
pub key_event : ℕ → Keys → Keys
key_event scancode a =
    let c = get_or kbdus (scancode + (if ltb_ℤ (pos 0) a.shift then 90 else 0)) 0 in
    let queue = a.queue ++ c ∷ [] in
    let key = scancode % 128 in
    let up = leb 128 (scancode % 256) in
    if (key == 42) || (key == 54)
    then record a { shift = a.shift +ℤ (if up then negsuc 0 else pos 1) }
    else if up
    then a
    else if key == 58
    then record a { lock = not a.lock; shift = a.shift +ℤ (if not a.lock then pos 1 else negsuc 0) }
    else if key == 14
    then record a { queue = a.queue ++ 0x08 ∷ [] }
    else record a { queue = if length queue == 4096 then [] else queue }

pub keys : Keyboard → Keys
keys k = record { shift = k.shift_pressed; lock = k.capslock; queue = pending k }

module _ {k : Keyboard} (scancode : ℕ) (r : IsReady k) (h : k.keyboard_buf_len < 4096) where
  abbrev down_event : Keys → Keys
  down_event a =
      let c = key_char scancode k in
      let queue = a.queue ++ c ∷ [] in
      if is_shift scancode
      then record a { shift = a.shift +ℤ pos 1 }
      else if scancode == 58
      then record a {
        lock = not a.lock;
        shift = a.shift +ℤ (if not a.lock then pos 1 else negsuc 0);
      }
      else if scancode == 14
      then record a { queue = a.queue ++ 0x08 ∷ [] }
      else record a { queue = if length queue == 4096 then [] else queue }

  -- The character keys: the queue is full, or it is not.
  keys-press :
      let c = key_char scancode k in
      let k' = show c (store_key c k) in
      let queue = pending k ++ c ∷ [] in
      keys (if k'.keyboard_buf_len == keyboard_buf_size then keyboard_flush k' else k') ≡ record {
        shift = k.shift_pressed;
        lock = k.capslock;
        queue = if length queue == 4096 then [] else queue;
      }
  unfolding keys
  keys-press =
      let c = key_char scancode k in
      let s = store_key c k in
      let k' = show c s in
      let count : length (pending k ++ c ∷ []) ≡ k.keyboard_buf_len + 1 =
        omega (arith, length-append (pending k) (c ∷ []), length-pending k) in
      let len : k'.keyboard_buf_len ≡ k.keyboard_buf_len + 1 =
        (fields-show s c).2 ∙ (fields-store_key k c).2 in
      rw (count, len)
        (elim (Bool-cases (k.keyboard_buf_len + 1 == 4096)) [
          | inl full ↦ rw full (
              ground
                (arith, fields-flush k', pending-flush k', fields-show s c, fields-store_key k c))
          | inr more ↦
              rw more (ground (arith, pending-press c r h, fields-show s c, fields-store_key k c))
        ])

  keys-backspace :
      keys (show 0x08 (show b' ' (show 0x08 (store_key 0x08 k))))
      ≡ record { shift = k.shift_pressed; lock = k.capslock; queue = pending k ++ 0x08 ∷ [] }
  unfolding keys
  keys-backspace =
      let b = store_key 0x08 k in
      ground (
        arith,
        pending-backspace 0x08 r h,
        fields-store_key k 0x08,
        fields-show b 0x08,
        fields-show (show 0x08 b) b' ',
        fields-show (show b' ' (show 0x08 b)) 0x08,
      )

  keys-pressed : keys (pressed scancode k) ≡ down_event (keys k)
  unfolding pressed keys pending
  keys-pressed = elim (Bool-cases (is_shift scancode)) [
    | inl e ↦ rw e refl
    | inr e ↦ rw e (elim (Bool-cases (scancode == 58)) [
      | inl f ↦ rw f refl
      | inr f ↦ rw f (elim (Bool-cases (scancode == 14)) [
        | inl g ↦ rw g keys-backspace
        | inr g ↦ rw g keys-press
      ])
    ])
  ]

keys-released :
    (scancode : ℕ) (k : Keyboard)
    → keys (released scancode k) ≡ (
        if is_shift (bit_and scancode 0x7F)
        then record (keys k) { shift = k.shift_pressed +ℤ negsuc 0 }
        else keys k)
unfolding released keys pending
keys-released scancode k = elim (Bool-cases (is_shift (bit_and scancode 0x7F))) [
  | inl e ↦ rw e refl
  | inr e ↦ rw e refl
]

-- Where the driver is ready and its buffer has room for a character, a scan code below 256 does to it
-- what `key_event` does to the abstract keyboard: a press of a key puts its character behind those
-- that wait, in the layout of the shift count, a shift or lock key changes the count, a release of
-- another key does nothing, and a queue of 4096 characters is thrown away unless its last one is a
-- backspace.
pub keyboard_interrupt_refines :
    {k : Keyboard} (scancode : ℕ)
    → IsReady k
    → k.keyboard_buf_len < 4096
    → scancode < 256
    → keys (keyboard_interrupt scancode k) ≡ key_event scancode (keys k)
unfolding keyboard_interrupt pressed released keys key_event key_char
keyboard_interrupt_refines {k} scancode r h small = elim (Bool-cases (bit_and scancode 0x80 == 0)) [
  | inl down ↦ rw down (keys-pressed scancode r h ∙ ground (arith, bit_and_128 scancode))
  | inr up ↦
      rw up (keys-released scancode k ∙ ground (arith, bit_and_127 scancode, bit_and_128 scancode))
]
