-- ===== src/Kernel/Stream/Laws.antt =====
-- The byte stream of src/kernel/stream.c as a list of bytes and a place in it.
use jiauliyan_os.Base.{
  ℕ, zero, suc, ◌+◌, ◌≤◌, ◌<◌, ◌≡◌, refl, ap, ap₂, Bool-cases, inl, inr, true, false, ◌∙◌, List, [],
  ◌∷◌, ◌++◌, none, some, arith, ltb, leb, if◌then◌else◌, length, set, get_elem?,
}
use jiauliyan_os.Memory.{Mem, write}
use jiauliyan_os.Drivers.Buffer.{bytes_at, length-bytes_at, bytes_at_congr, bytes_at-write}
use jiauliyan_os.Kernel.Stream.{Bytestream, bytestream_get, bytestream_put}

-- What a file of bytes is after the byte `c` is put at the index `i`, at most its length.
unfoldable pub put_at : ℕ → ℕ → List ℕ → List ℕ
put_at i c bs = if ltb i (length bs) then set bs i c else bs ++ c ∷ []

pub get_elem?-bytes_at :
    (m : Mem) (a n i : ℕ)
    → get_elem? (bytes_at m a n) i ≡ (if leb n i then none else some (m (a + i)))
unfolding bytes_at
get_elem?-bytes_at m a zero i = ground arith
get_elem?-bytes_at m a (suc n) zero = let start : a + 0 ≡ a = omega arith in rw start (ground arith)
get_elem?-bytes_at m a (suc n) (suc i) = ground (arith, get_elem?-bytes_at m (a + 1) n i)

bytes_at-write_inside :
    (m : Mem) (a n i c x : ℕ)
    → x ≡ a + i
    → i < n
    → bytes_at (write m x c) a n ≡ set (bytes_at m a n) i c
unfolding bytes_at
bytes_at-write_inside m a (suc n) zero c x e h =
    let m' = write m x c in
    let first : m' a ≡ c = ground arith in
    ap₂ ◌∷◌ first (bytes_at_congr m' m (a + 1) (a + 1) n (λ j hj. ground arith))
bytes_at-write_inside m a (suc n) (suc i) c x e h =
    let first : write m x c a ≡ m a = ground arith in
    ap₂ ◌∷◌ first (bytes_at-write_inside m (a + 1) n i c x (omega arith) (omega arith))
bytes_at-write_inside m a zero i c x e h = absurd (omega arith)

-- The bytes of a stream.
unfoldable pub contents : Bytestream → List ℕ
contents s = bytes_at s.buf 0 s.size

-- The place is at most at the end, and the bytes fit the buffer.
pub record IsSound (s : Bytestream) : Type 0 where
  pub place : s.pos ≤ s.size
  pub fits : s.size ≤ s.capacity

put_lem :
    (buf : Mem) (size pos c : ℕ)
    → pos ≤ size
    → bytes_at (write buf pos c) 0 (if ltb size (pos + 1) then pos + 1 else size)
      ≡ put_at pos c (bytes_at buf 0 size)
unfolding put_at
put_lem buf size pos c h = rw (length-bytes_at buf 0 size) (elim (Bool-cases (ltb pos size)) [
  | inl inside ↦
      let same : ltb size (pos + 1) ≡ false = ground arith in
      rw (inside, same) (bytes_at-write_inside buf 0 size pos c pos (omega arith) (ground arith))
  | inr at_end ↦
      let more : ltb size (pos + 1) ≡ true = ground arith in
      let e : pos ≡ size = ground arith in
      let place : pos ≡ 0 + size = omega (arith, e) in
      let next : pos + 1 ≡ suc size = omega (arith, e) in
      rw (at_end, more, next)
        (ap (λ x. bytes_at (write buf x c) 0 (suc size)) place ∙ bytes_at-write buf 0 size c)
])

-- Where the place of a byte stream is not behind its end and its bytes fit the buffer, which is not
-- full at the place, a put replaces the byte at the place, or adds one at the end, moves on by one,
-- keeps both conditions, and the buffer has the size it had.
pub bytestream_put_lem :
    (realloc : ℕ → Mem → Mem) {s : Bytestream} (c : ℕ)
    → IsSound s
    → s.pos < s.capacity
    → let r = bytestream_put realloc c s in
      (r.0 ≡ some c)
      × (contents (r.1) ≡ put_at s.pos c (contents s))
      × ((r.1).pos ≡ s.pos + 1)
      × IsSound (r.1)
      × ((r.1).capacity ≡ s.capacity)
unfolding bytestream_put contents
bytestream_put_lem realloc {s} c sound room =
    let inside : leb s.capacity s.pos ≡ false = ground arith in
    rw inside (
      refl,
      put_lem s.buf s.size s.pos c sound.place,
      refl,
      record {
        place = ground (arith, sound.place);
        fits = ground (arith, sound.place, sound.fits);
      },
      refl,
    )

-- A get gives the byte of the stream at its place and moves on by one, or gives EOF behind the last
-- byte and stays; the bytes stay the same.
pub bytestream_get_lem :
    (s : Bytestream)
    → let r = bytestream_get s in
      (r.0 ≡ get_elem? (contents s) s.pos)
      × (contents (r.1) ≡ contents s)
      × ((r.1).pos ≡ (if ltb s.pos (length (contents s)) then s.pos + 1 else s.pos))
unfolding bytestream_get contents
bytestream_get_lem s =
    rw (get_elem?-bytes_at s.buf 0 s.size s.pos, length-bytes_at s.buf 0 s.size)
      (elim (Bool-cases (leb s.size s.pos)) [
        | inl over ↦ rw over (refl, refl, ground arith)
        | inr more ↦ rw more (ap (λ x. some (s.buf x)) (omega arith), refl, ground arith)
      ])

-- A put at the end adds a byte.
pub append_lem :
    (buf : Mem) (size pos c : ℕ)
    → pos ≡ size
    → bytes_at (write buf pos c) 0 (if ltb size (pos + 1) then pos + 1 else size)
      ≡ bytes_at buf 0 size ++ c ∷ []
append_lem buf size pos c e =
    let place : pos ≡ 0 + size = omega (arith, e) in
    let grow : ltb size (pos + 1) ≡ true = ground (arith, e) in
    let next : pos + 1 ≡ suc size = omega (arith, e) in
    rw (grow, next)
      (ap (λ x. bytes_at (write buf x c) 0 (suc size)) place ∙ bytes_at-write buf 0 size c)
