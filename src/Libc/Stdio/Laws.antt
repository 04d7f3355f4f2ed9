-- ===== src/Libc/Stdio/Laws.antt =====
-- What reaches a file through the functions of src/libc/stdio.c.
use jiauliyan_os.Base.{
  ℕ, ◌+◌, ◌≤◌, ◌<◌, ◌≡◌, refl, ap, ◌∙◌, Bool-cases, inl, inr, true, List, [], ◌∷◌, ◌++◌, none, some,
  arith, leb, ◌==◌, if◌then◌else◌, length, get_elem?,
}
use jiauliyan_os.Base.Int
use jiauliyan_os.Base.Int.{ℤ, ◌+ℤ◌, int_laws}
use jiauliyan_os.Memory.{Mem}
use jiauliyan_os.Drivers.Buffer.{length-bytes_at, bytes_at}
use jiauliyan_os.Kernel.Stream.{StreamOps}
use jiauliyan_os.Kernel.Stream.Laws.{append_lem, get_elem?-bytes_at}
use jiauliyan_os.Libc.Stdio.{
  FileEntry, FileStream, FileOutside, set_entry, put_byte, file_entry_get, file_entry_put, file_ops,
  File, fgetc, ungetc,
}

-- A stream over a sequence of bytes with a place in it. Bytes are put at its end as long as there are
-- fewer than it has room for.
pub record ByteFile {S : Type 0} (ops : StreamOps S) : Type 0 where
  pub contents : S → List ℕ
  pub place : S → ℕ
  pub room : S → ℕ
  pub put_end :
      (s : S) (c : ℕ)
      → place s ≡ length (contents s)
      → length (contents s) < room s
      → contents ((ops.put c s).1) ≡ contents s ++ c ∷ []
  pub put_room :
      (s : S) (c : ℕ)
      → place s ≡ length (contents s)
      → length (contents s) < room s
      → room ((ops.put c s).1) ≡ room s
  pub put_place : (s : S) (c : ℕ) → place ((ops.put c s).1) ≡ place s + 1
  pub get_byte : (s : S) → (ops.get s).0 ≡ get_elem? (contents s) (place s)
  pub get_contents : (s : S) → contents ((ops.get s).1) ≡ contents s
  pub get_place : (s : S) → place s < length (contents s) → place ((ops.get s).1) ≡ place s + 1
  pub get_stay : (s : S) → length (contents s) ≤ place s → place ((ops.get s).1) ≡ place s

-- The stream of a file is one over the bytes of its entry.
unfoldable pub file_bytes : FileStream → List ℕ
file_bytes f = let e = f.root.entry f.entry in bytes_at e.bytes 0 e.size

-- The number of bytes that an entry holds before its buffer is moved with bytes in it: the first buffer
-- of an empty file has 1024.
unfoldable pub entry_room : FileEntry → ℕ
entry_room e = if e.max == 0 then (if e.size == 0 then 1024 else 0) else e.max

unfoldable pub file_room : FileStream → ℕ
file_room f = entry_room (f.root.entry f.entry)

put_byte_end :
    (realloc : ℕ → Mem → Mem) (e : FileEntry) (pos c : ℕ)
    → pos ≡ e.size
    → e.size < entry_room e
    → let e' = put_byte realloc pos c e in
      (bytes_at e'.bytes 0 e'.size ≡ bytes_at e.bytes 0 e.size ++ c ∷ [])
      × (entry_room e' ≡ entry_room e)
unfolding put_byte entry_room bytes_at
put_byte_end realloc e pos c at_end h = elim (Bool-cases (leb e.max pos)) [
  | inl full ↦
      let empty : e.size ≡ 0 = ground arith in
      let no_buffer : e.max ≡ 0 = ground arith in
      let start : pos ≡ 0 = ground arith in
      let new = realloc (e.max + 1024) e.bytes in
      rw (full, empty, no_buffer, start) (append_lem (realloc 1024 e.bytes) 0 0 c refl, refl)
  | inr more ↦ rw more (append_lem e.bytes e.size pos c at_end, ground arith)
]

pub file_put_lem :
    (realloc : ℕ → Mem → Mem) (f : FileStream) (c : ℕ)
    → f.pos ≡ length (file_bytes f)
    → length (file_bytes f) < file_room f
    → let f' = (file_entry_put realloc c f).1 in
      (file_bytes f' ≡ file_bytes f ++ c ∷ []) × (file_room f' ≡ file_room f)
unfolding file_bytes file_room file_entry_put set_entry
file_put_lem realloc f c e h =
    let x = f.root.entry f.entry in
    let size = length-bytes_at x.bytes 0 x.size in
    let here : (f.entry == f.entry) ≡ true = ground arith in
    rw here (put_byte_end realloc x f.pos c (e ∙ size) (rw size at h))

pub file_get_lem :
    (f : FileStream)
    → let r = file_entry_get f in
      (r.0 ≡ get_elem? (file_bytes f) f.pos)
      × (file_bytes (r.1) ≡ file_bytes f)
      × (f.pos < length (file_bytes f) → (r.1).pos ≡ f.pos + 1)
      × (length (file_bytes f) ≤ f.pos → (r.1).pos ≡ f.pos)
unfolding file_bytes file_entry_get
file_get_lem f =
    let x = f.root.entry f.entry in
    rw (get_elem?-bytes_at x.bytes 0 x.size f.pos, length-bytes_at x.bytes 0 x.size)
      (elim (Bool-cases (leb x.size f.pos)) [
        | inl over ↦ rw over (refl, refl, λ h. absurd (ground arith), λ h. refl)
        | inr more ↦
            rw more (
              ap (λ i. some (x.bytes i)) (omega arith),
              refl,
              λ h. refl,
              λ h. absurd (ground arith),
            )
      ])

unfoldable pub file-ByteFile : (outside : FileOutside) → ByteFile (file_ops outside)
unfolding file_ops file_entry_put
file-ByteFile outside = record {
  contents = file_bytes;
  place = λ f. f.pos;
  room = file_room;
  put_end = λ f c e h. (file_put_lem outside.realloc f c e h).0;
  put_room = λ f c e h. (file_put_lem outside.realloc f c e h).1;
  put_place = λ f c. refl;
  get_byte = λ f. (file_get_lem f).0;
  get_contents = λ f. (file_get_lem f).1;
  get_place = λ f h. (file_get_lem f).2 h;
  get_stay = λ f h. (file_get_lem f).3 h;
}

back_and_on : (z : ℤ) → (z +ℤ Int.negsuc 0) +ℤ Int.pos 1 ≡ z
back_and_on z = grind int_laws

ungetc_free :
    (c : ℕ) (f : File)
    → f.hold ≡ none
    → ungetc (some c) f ≡ (some c, record f { pos = f.pos +ℤ Int.negsuc 0; hold = some c })
unfolding ungetc
ungetc_free c f free = rw (free, ungetc) refl

fgetc_held :
    {S : Type 0} (ops : StreamOps S) (c : ℕ) (g : File) (s : S)
    → g.opened ≡ true
    → g.hold ≡ some c
    → fgetc ops (g, s) ≡ (some c, (record g { pos = g.pos +ℤ Int.pos 1; hold = none }, s))
unfolding fgetc
fgetc_held ops c g s is_open held = simp (is_open, held) refl

-- A byte that `ungetc` takes, on an open FILE that holds none, is what the next `fgetc` gives, and it
-- leaves the position, the end mark and the stream as they were.
pub fgetc-ungetc :
    {S : Type 0} (ops : StreamOps S) (c : ℕ) (f : File) (s : S)
    → f.opened ≡ true
    → f.hold ≡ none
    → let u = ungetc (some c) f in
      let r = fgetc ops (u.1, s) in
      (u.0 ≡ some c)
      × (r.0 ≡ some c)
      × (((r.1).0).pos ≡ f.pos)
      × (((r.1).0).eof ≡ f.eof)
      × (((r.1).0).hold ≡ none)
      × ((r.1).1 ≡ s)
fgetc-ungetc ops c f s is_open free =
    let g : File = record f { pos = f.pos +ℤ Int.negsuc 0; hold = some c } in
    rw (ungetc_free c f free, fgetc_held ops c g s is_open refl)
      (refl, refl, back_and_on f.pos, refl, refl, refl)
