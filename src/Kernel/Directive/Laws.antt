-- ===== src/Kernel/Directive/Laws.antt =====
-- What `stream_vformat` of src/kernel/stream.c prints.
use jiauliyan_os.Base.{
  ℕ, zero, suc, ◌+◌, ◌%◌, ◌≤◌, ◌<◌, ◌≡◌, ◌≢◌, refl, ◌∙◌, true, false, List, [], ◌∷◌, ◌++◌, Option,
  some, ◌==◌, leb, length, arith,
}
use jiauliyan_os.Memory.{Mem}
use jiauliyan_os.Kernel.Stream.{
  StreamOps, stream_putchar, put_text, Bytestream, Outside, bytestream_put, bytestream_create,
  bytestream_ops,
}
use jiauliyan_os.Kernel.Directive.{format_from, text_at}
use jiauliyan_os.Kernel.Directive.Read.{Arg}

-- The bytes of a C string.
abbrev pub AllText : List ℕ → Type 0
AllText [] = Unit
AllText (c ∷ text) = (0 < c) × (c < 256) × AllText text

-- No directive stands in the text.
abbrev pub AllPlain : List ℕ → Type 0
AllPlain [] = Unit
AllPlain (c ∷ text) = (c ≢ 37) × AllPlain text

module _ {S D : Type 0} (ops : StreamOps S) (putdouble : D → ℕ → ℕ → Bytestream → Option Bytestream)
    (outside : Outside) (heap : ℕ → Mem) where
  pub plain_lem :
      (text fmt : List ℕ) (args : List (Arg D)) (s : S)
      → AllPlain text
      → format_from ops putdouble outside heap (text ++ fmt) zero args s
        ≡ format_from ops putdouble outside heap fmt zero args (put_text ops text s)
  unfolding format_from put_text stream_putchar
  plain_lem [] fmt args s plain = refl
  plain_lem (c ∷ text) fmt args s (h, plain) =
      let no : (c == 37) ≡ false = ground arith in
      rw (no, format_from) (plain_lem text fmt args (ops.put (c % 256) s).1 plain)

module _ (outside : Outside) where
  kept_below :
      (text : List ℕ) (bs : Bytestream) (y : ℕ)
      → bs.pos + length text ≤ bs.capacity
      → y < bs.pos
      → (put_text (bytestream_ops outside) text bs).buf y ≡ bs.buf y
  unfolding put_text stream_putchar bytestream_ops bytestream_put
  kept_below [] bs y room h = refl
  kept_below (c ∷ text) bs y room h =
      let inside : leb bs.capacity bs.pos ≡ false = ground arith in
      kept_below text (stream_putchar (bytestream_ops outside) c bs).1 y (ground arith)
        (omega arith)
      ∙ rw inside (ground arith)

  text_at-put_text :
      (text : List ℕ) (bs : Bytestream) (n : ℕ)
      → bs.pos + length text ≤ bs.capacity
      → AllText text
      → ((y : ℕ) → bs.pos ≤ y → bs.buf y ≡ 0)
      → length text < n
      → text_at n (put_text (bytestream_ops outside) text bs).buf bs.pos ≡ some text
  unfolding text_at put_text stream_putchar bytestream_ops bytestream_put
  text_at-put_text text bs zero room good clean enough = absurd (omega arith)
  text_at-put_text [] bs (suc n) room good clean enough =
      let end = clean bs.pos (omega arith) in
      let stop : (bs.buf bs.pos == 0) ≡ true = ground arith in rw stop refl
  text_at-put_text (c ∷ text) bs (suc n) room (some_byte, byte, good) clean enough =
      let next = (stream_putchar (bytestream_ops outside) c bs).1 in
      let first : (put_text (bytestream_ops outside) text next).buf bs.pos ≡ c =
        kept_below text next bs.pos (ground arith) (omega arith) ∙ ground arith in
      let on : (c == 0) ≡ false = ground arith in
      let rest =
        text_at-put_text text next n (ground arith) good
          (λ y h. ground (arith, clean y (omega arith))) (omega arith) in
      rw (first, on, rest) refl

  capacity_grows :
      (text : List ℕ) (bs : Bytestream)
      → bs.capacity ≤ (put_text (bytestream_ops outside) text bs).capacity
  unfolding put_text stream_putchar bytestream_ops bytestream_put
  capacity_grows [] bs = omega arith
  capacity_grows (c ∷ text) bs =
      let rest = capacity_grows text (stream_putchar (bytestream_ops outside) c bs).1 in
      ground (arith, rest)

  -- A text that fits the buffer, printed to a new byte stream, is read back from it.
  pub text_at-printed :
      (text : List ℕ) (heap : Mem)
      → AllText text
      → ((y : ℕ) → heap y ≡ 0)
      → length text < 1024
      → let bs = put_text (bytestream_ops outside) text (bytestream_create heap 1024) in
        text_at bs.capacity bs.buf 0 ≡ some text
  unfolding bytestream_create
  text_at-printed text heap good clean short =
      let new = bytestream_create heap 1024 in
      let grows = capacity_grows text new in
      text_at-put_text text new (put_text (bytestream_ops outside) text new).capacity (omega arith)
        good (λ y h. clean y) (omega arith)
