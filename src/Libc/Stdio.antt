-- ===== src/Libc/Stdio.antt =====
-- Files (src/libc/stdio.c): the table of files in memory, the stream over one of them, and what a
-- FILE does with any stream. EOF is `none`.
pub mod Laws
pub mod Writing
pub mod Reading
pub mod RoundTrip
pub mod Opening
pub mod Creating
pub mod Lines
mod Tests
use jiauliyan_os.Base.{
  ℕ, zero, suc, ◌+◌, ◌*◌, ◌%◌, ◌-◌, ◌≡◌, Bool, true, false, not, ◌&&◌, List, [], ◌∷◌, Option, none,
  some, ltb, leb, ◌==◌, if◌then◌else◌, length, take,
}
use jiauliyan_os.Base.Int
use jiauliyan_os.Base.Int.{ℤ, ◌+ℤ◌}
use jiauliyan_os.Memory.{Mem, write}
use jiauliyan_os.Libc.Compare.{strlen, strcmp}
use jiauliyan_os.Libc.Search.{is_zero}
use jiauliyan_os.Kernel.Stream.{StreamOps, stream_putchar, stream_putstring}

-- A file. `bytes` gives the bytes from the pointer `data` on, by their index. `name` is the string in the
-- array of 256 bytes.
pub record FileEntry : Type 0 where
  pub name : List ℕ
  pub bytes : Mem
  pub size : ℕ
  pub max : ℕ

-- `root[256]`: which of the pointers are not null, and what they point to.
pub record Root : Type 0 where
  pub used : ℕ → Bool
  pub entry : ℕ → FileEntry

-- The data of a file's stream: the pointer to its entry, as the index of it, and the place, with the
-- table that all of them share.
pub record FileStream : Type 0 where
  pub root : Root
  pub entry : ℕ
  pub pos : ℕ

-- What the streams of files do not settle themselves. `realloc` gives the bytes from the pointer on that
-- the function of that name returns, by the new capacity and the bytes at the old pointer: any
-- function, so that a new block without the old bytes and the null pointer are among them. `avail` is
-- what stands in the pointer that `fopen` does not set, as `malloc` gave it.
pub record FileOutside : Type 0 where
  pub avail : FileStream → ℕ
  pub realloc : ℕ → Mem → Mem

pub set_entry : ℕ → FileEntry → Root → Root
set_entry i e root = record root { entry = λ j. if j == i then e else root.entry j }

pub file_entry_get : FileStream → Option ℕ × FileStream
file_entry_get f =
    let e = f.root.entry f.entry in
    if leb e.size f.pos then (none, f) else (some (e.bytes f.pos), record f { pos = f.pos + 1 })

pub file_entry_avail : FileStream → ℕ
file_entry_avail f = (f.root.entry f.entry).size - f.pos

-- The entry after a byte is put at an index.
pub put_byte : (ℕ → Mem → Mem) → ℕ → ℕ → FileEntry → FileEntry
put_byte realloc pos c e = record e {
  bytes = write (if leb e.max pos then realloc (e.max + 1024) e.bytes else e.bytes) pos c;
  size = if ltb e.size (pos + 1) then pos + 1 else e.size;
  max = if leb e.max pos then e.max + 1024 else e.max;
}

pub file_entry_put : (ℕ → Mem → Mem) → ℕ → FileStream → Option ℕ × FileStream
file_entry_put realloc c f = (
  some c,
  record f {
    root = set_entry f.entry (put_byte realloc f.pos c (f.root.entry f.entry)) f.root;
    pos = f.pos + 1;
  },
)

unfoldable pub file_entry_seek : ℕ → FileStream → FileStream
file_entry_seek pos f = record f { pos = pos }

pub file_ops : FileOutside → StreamOps FileStream
file_ops outside = record {
  get = file_entry_get;
  put = file_entry_put outside.realloc;
  avail = outside.avail;
  seek = file_entry_seek;
}

-- A FILE. `opened`: its stream is not null. `hold` is the byte of `ungetc`.
pub record File : Type 0 where
  pub opened : Bool
  pub pos : ℤ
  pub eof : Bool
  pub hold : Option ℕ

unfoldable pub create_file : File
create_file = record { opened = true; pos = Int.pos 0; eof = false; hold = none }

pub clearerr : File → File
clearerr f = record f { eof = false }

-- The result is EOF if the file was closed before.
unfoldable pub fclose : File → Bool × File
fclose f = (f.opened, record f { opened = false })

pub feof : File → Bool
feof f = f.eof

pub ftell : File → ℤ
ftell f = f.pos

pub fgetpos : File → Option ℤ
fgetpos f = if f.opened then some f.pos else none

-- The first file from the index `i` on, with `n` more in the table, of which `strcmp` says that the
-- name is the same.
pub find_file : ℕ → ℕ → List ℕ → Root → Option ℕ
find_file zero i filename root = none
find_file (suc n) i filename root =
    let rest = find_file n (i + 1) filename root in
    if root.used i && is_zero (strcmp (root.entry i).name filename) then some i else rest

pub find_free : ℕ → ℕ → Root → Option ℕ
find_free zero i root = none
find_free (suc n) i root =
    let rest = find_free n (i + 1) root in if root.used i then rest else some i

-- A new file, empty. A name of 256 bytes or more is cut without a NUL; then the string in the array
-- goes on with what stands behind it, which this leaves out. `data` is null, and `at_null` gives the
-- bytes from there on.
pub new_entry : List ℕ → Mem → FileEntry
new_entry filename at_null = record { name = take 256 filename; bytes = at_null; size = 0; max = 0 }

pub add_entry : ℕ → List ℕ → Mem → Root → Root
add_entry i filename at_null root = record {
  used = λ j. if j == i then true else root.used j;
  entry = λ j. if j == i then new_entry filename at_null else root.entry j;
}

-- "ERROR: Exceeded max of 256 files!"
abbrev pub exceeded : List ℕ
exceeded =
    b'E' ∷ b'R' ∷ b'R' ∷ b'O' ∷ b'R' ∷ b':' ∷ b' ' ∷ b'E' ∷ b'x' ∷ b'c' ∷ b'e' ∷ b'e' ∷ b'd' ∷ b'e'
    ∷ b'd' ∷ b' ' ∷ b'm' ∷ b'a' ∷ b'x' ∷ b' ' ∷ b'o' ∷ b'f' ∷ b' ' ∷ b'2' ∷ b'5' ∷ b'6' ∷ b' '
    ∷ b'f' ∷ b'i' ∷ b'l' ∷ b'e' ∷ b's' ∷ b'!' ∷ []

-- What `fopen` gets from `malloc`: whether there is memory for a new entry of the table, and for the
-- three structs of an open file. `at_null` gives the bytes from address 0 on.
pub record Given : Type 0 where
  pub entry : Bool
  pub structs : Bool
  pub at_null : Mem

-- The FILE and its stream, or null, the table, and the text that is put on stdout. `none`: `malloc` gave
-- null, and the program writes through it. After a file is created the name is looked for again, by a
-- second call; no more than 256 files can be created on the way.
pub fopen_from :
    ℕ → List ℕ → List ℕ → Given → Root → Option (Option (File × FileStream) × Root × List ℕ)
fopen_from zero filename mode given root = none
fopen_from (suc fuel) filename mode given root = elim (find_file 256 0 filename root) [
  | some i ↦
      if given.structs
      then some (some (create_file, record { root = root; entry = i; pos = 0 }), root, [])
      else none
  | none ↦ elim (is_zero (strcmp mode (b'r' ∷ []))) [
    | true ↦ some (none, root, [])
    | _ ↦ elim (find_free 256 0 root) [
      | none ↦ some (none, root, exceeded)
      | some i ↦ elim given.entry [
        | true ↦ fopen_from fuel filename mode given (add_entry i filename given.at_null root)
        | _ ↦ none
      ]
    ]
  ]
]

pub fopen : List ℕ → List ℕ → Given → Root → Option (Option (File × FileStream) × Root × List ℕ)
fopen filename mode given root = fopen_from 257 filename mode given root

-- What a FILE does with its stream, of any kind.
module _ {S : Type 0} (ops : StreamOps S) where
  pub fgetc : File × S → Option ℕ × (File × S)
  fgetc (f, s) =
      let f' = record f { pos = f.pos +ℤ Int.pos 1 } in
      let r = ops.get s in
      if not f.opened then (none, (f, s)) else elim f.hold [
        | some c ↦ (some c, (record f' { hold = none }, s))
        | none ↦ (r.0, (elim r.0 [ none ↦ record f' { eof = true } | some c ↦ f' ], r.1))
      ]

  -- The result of `stream_putchar`, not the byte.
  pub fputc : ℕ → File × S → Option ℕ × (File × S)
  fputc c (f, s) =
      let r = stream_putchar ops (c % 256) s in
      if not f.opened
      then (none, (f, s))
      else (some (r.0), (record f { pos = f.pos +ℤ Int.pos 1 }, r.1))

  pub fputs : List ℕ → File × S → Option ℕ × (File × S)
  fputs text (f, s) =
      let r = stream_putstring ops text s in
      if not f.opened
      then (none, (f, s))
      else (some (r.0), (record f { pos = f.pos +ℤ Int.pos (strlen text + 1) }, r.1))

  -- The inner loop of `fwrite` at the byte at `p`, with `n` bytes left; `b` is the variable of the source,
  -- and `none` ends both loops.
  write_item : ℕ → ℕ → Option ℕ → Mem → File × S → Option ℕ × (File × S)
  write_item p zero b m fs = (b, fs)
  write_item p (suc n) b m fs =
      let r = fputc (m p) fs in
      elim (r.0) [ none ↦ (none, r.1) | some c ↦ write_item (p + 1) n (some c) m (r.1) ]

  write_items : (p size n i : ℕ) → Option ℕ → Mem → File × S → ℕ × (File × S)
  write_items p size zero i b m fs = (i, fs)
  write_items p size (suc n) i b m fs =
      let r = write_item p size b m fs in
      elim (r.0) [
        | none ↦ (i, r.1)
        | some c ↦ write_items (p + size) size n (i + 1) (some c) m (r.1)
      ]

  -- `b` starts as whatever the stack holds, which the loops read only where `size` is 0.
  pub fwrite : Option ℕ → (ptr size nmemb : ℕ) → Mem → File × S → ℕ × (File × S)
  fwrite b ptr size nmemb m fs = write_items ptr size nmemb 0 b m fs

  -- The same loops of `fread`, which store what they read. The caller's memory is apart from what the
  -- stream keeps.
  read_item : ℕ → ℕ → Option ℕ → Mem × (File × S) → Option ℕ × (Mem × (File × S))
  read_item p zero b mfs = (b, mfs)
  read_item p (suc n) b (m, fs) =
      let r = fgetc fs in
      elim (r.0) [
        | none ↦ (none, (m, r.1))
        | some c ↦ read_item (p + 1) n (some c) (write m p c, r.1)
      ]

  read_items : (p size n i : ℕ) → Option ℕ → Mem × (File × S) → ℕ × (Mem × (File × S))
  read_items p size zero i b mfs = (i, mfs)
  read_items p size (suc n) i b mfs =
      let r = read_item p size b mfs in
      elim (r.0) [ none ↦ (i, r.1) | some c ↦ read_items (p + size) size n (i + 1) (some c) (r.1) ]

  pub fread : Option ℕ → (ptr size nmemb : ℕ) → Mem × (File × S) → ℕ × (Mem × (File × S))
  fread b ptr size nmemb mfs = read_items ptr size nmemb 0 b mfs

  -- The loop of `fgets` with `n` rounds left; it ends behind a newline.
  pub line_from : ℕ → File × S → List ℕ × (File × S)
  line_from zero fs = ([], fs)
  line_from (suc n) fs =
      let r = fgetc fs in
      elim (r.0) [
        | none ↦ ([], r.1)
        | some c ↦ elim (c == b'\n') [
          | true ↦ (c ∷ [], r.1)
          | _ ↦ let rest = line_from n (r.1) in (c ∷ rest.0, rest.1)
        ]
      ]

  -- The bytes that are stored in front of the NUL: as many as `n`, so that the NUL may stand at `str[n]`.
  pub fgets : ℕ → File × S → Option (List ℕ) × (File × S)
  fgets n (f, s) =
      let r = line_from n (record f { pos = f.pos +ℤ Int.pos 1 }, s) in
      if not f.opened then (none, (f, s)) else (some (r.0), r.1)

-- One byte can be held.
pub ungetc : Option ℕ → File → Option ℕ × File
ungetc none f = (none, f)
ungetc (some c) f = elim f.hold [
  | none ↦ (some c, record f { pos = f.pos +ℤ Int.negsuc 0; hold = some c })
  | _ ↦ (none, f)
]
