-- ===== src/Kernel/Stream.antt =====
-- Streams (src/kernel/stream.c): the operations that a device or a file offers, what is written
-- through them, and the stream over a buffer in memory. EOF is `none`.
pub mod Laws
mod Tests
use jiauliyan_os.Base.{
  ℕ, zero, suc, ◌+◌, ◌%◌, ◌≡◌, Bool, List, [], ◌∷◌, Option, none, some, ltb, leb, if◌then◌else◌,
  length,
}
use jiauliyan_os.Memory.{Mem, write}

-- The function pointers of a `stream_s`, over the state of its data.
pub record StreamOps (S : Type 0) : Type 0 where
  pub get : S → Option ℕ × S
  pub put : ℕ → S → Option ℕ × S
  pub avail : S → ℕ
  pub seek : ℕ → S → S

pub stream_no_get : {S : Type 0} → S → Option ℕ × S
stream_no_get s = (none, s)

pub stream_no_put : {S : Type 0} → ℕ → S → Option ℕ × S
stream_no_put c s = (none, s)

pub stream_no_avail : {S : Type 0} → S → ℕ
stream_no_avail s = 0

-- It returns -1 and moves nothing.
pub stream_no_seek : {S : Type 0} → ℕ → S → S
stream_no_seek pos s = s

-- The loop of `stream_write` from the byte at `p` on, after `i` bytes: it ends at the first EOF.
write_from : {S : Type 0} → StreamOps S → Mem → ℕ → ℕ → ℕ → S → ℕ × S
write_from ops m p zero i s = (i, s)
write_from ops m p (suc n) i s =
    let r = ops.put (m p) s in
    elim r.0 [ none ↦ (i, r.1) | some b ↦ write_from ops m (p + 1) n (i + 1) r.1 ]

pub stream_write : {S : Type 0} → StreamOps S → Mem → ℕ → ℕ → S → ℕ × S
stream_write ops m ptr size s = write_from ops m ptr size 0 s

-- What `put` answers is dropped: the result is 1 in any case.
unfoldable pub stream_putchar : {S : Type 0} → StreamOps S → ℕ → S → ℕ × S
stream_putchar ops c s = (1, (ops.put (c % 256) s).1)

-- The result is the length of the text.
unfoldable pub put_text : {S : Type 0} → StreamOps S → List ℕ → S → S
put_text ops [] s = s
put_text ops (c ∷ text) s = put_text ops text (stream_putchar ops c s).1

unfoldable pub stream_putstring : {S : Type 0} → StreamOps S → List ℕ → S → ℕ × S
stream_putstring ops text s = (length text, put_text ops text s)

-- A byte stream. `buf` gives the bytes from the pointer to the buffer on, by their index.
pub record Bytestream : Type 0 where
  pub buf : Mem
  pub size : ℕ
  pub capacity : ℕ
  pub pos : ℕ

-- What the byte streams do not settle themselves. `realloc` gives the bytes from the pointer on that
-- the function of that name returns, by the new capacity and the bytes at the old pointer: any
-- function, so that a new block without the old bytes and the null pointer are among them. `avail` is
-- what stands in the pointer that `bytestream_create` does not set, as `malloc` gave it.
pub record Outside : Type 0 where
  pub avail : Bytestream → ℕ
  pub realloc : ℕ → Mem → Mem

pub bytestream_get : Bytestream → Option ℕ × Bytestream
bytestream_get s =
    if leb s.size s.pos then (none, s) else (some (s.buf s.pos), record s { pos = s.pos + 1 })

unfoldable pub bytestream_put : (ℕ → Mem → Mem) → ℕ → Bytestream → Option ℕ × Bytestream
bytestream_put realloc c s = (
  some c,
  record {
    buf = write (if leb s.capacity s.pos then realloc (s.capacity + 1024) s.buf else s.buf) s.pos c;
    size = if ltb s.size (s.pos + 1) then s.pos + 1 else s.size;
    capacity = if leb s.capacity s.pos then s.capacity + 1024 else s.capacity;
    pos = s.pos + 1;
  },
)

-- The origin is not looked at.
pub bytestream_seek : ℕ → Bytestream → Bytestream
bytestream_seek pos s = record s { pos = pos }

unfoldable pub bytestream_create : Mem → ℕ → Bytestream
bytestream_create buf capacity = record { buf = buf; size = 0; capacity = capacity; pos = 0 }

unfoldable pub bytestream_ops : Outside → StreamOps Bytestream
bytestream_ops outside = record {
  get = bytestream_get;
  put = bytestream_put outside.realloc;
  avail = outside.avail;
  seek = bytestream_seek;
}
