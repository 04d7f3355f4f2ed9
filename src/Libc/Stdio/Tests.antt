-- ===== src/Libc/Stdio/Tests.antt =====
-- The theorems on src/libc/stdio.c at a table of two empty files.
use jiauliyan_os.Base.{◌%◌, ◌≡◌, refl, true, false, [], ◌∷◌, none, some, ltb}
use jiauliyan_os.Base.Int
use jiauliyan_os.Memory.{Mem}
use jiauliyan_os.Drivers.Buffer.{bytes_at}
use jiauliyan_os.Libc.Stdio.{FileEntry, Root, FileStream, FileOutside, File, file_ops}
use jiauliyan_os.Libc.Stdio.Laws.{file_bytes}
use jiauliyan_os.Base.{get_or}
use jiauliyan_os.Libc.Stdio.{fgets, Given}
use jiauliyan_os.Libc.Stdio.Laws.{file-ByteFile}
use jiauliyan_os.Libc.Stdio.Lines.{first_line, left, ReadOn, fgets_lem}

abbrev empty_file : FileEntry
empty_file = record { name = b'a' ∷ []; bytes = λ x. 0; size = 0; max = 0 }

abbrev two_files : Root
two_files = record { used = λ i. ltb i 2; entry = λ i. empty_file }

abbrev second : FileStream
second = record { root = two_files; entry = 1; pos = 0 }

abbrev fresh_file : File
fresh_file = record { opened = true; pos = Int.pos 0; eof = false; hold = none }

abbrev no_outside : FileOutside
no_outside = record { avail = λ s. 0; realloc = λ n m x. 7 }

abbrev counting : Mem
counting = λ x. x % 256

-- A file of two lines.
abbrev two_lines : FileStream
two_lines = record {
  root = record {
    used = λ i. ltb i 1;
    entry = λ i. record {
      name = b'a' ∷ [];
      bytes = λ x. get_or (b'x' ∷ b'y' ∷ b'\n' ∷ b'z' ∷ []) x 0;
      size = 4;
      max = 1024;
    };
  };
  entry = 0;
  pos = 0;
}

first_line-two_lines :
    first_line 10 (left (file_ops no_outside) (file-ByteFile no_outside) two_lines)
    ≡ b'x' ∷ b'y' ∷ b'\n' ∷ []
unfolding first_line file-ByteFile file_bytes bytes_at
first_line-two_lines = refl

fgets_lem_example :
    let ops = file_ops no_outside in
    let file = file-ByteFile no_outside in
    let r = fgets ops 10 (fresh_file, two_lines) in
    let line = first_line 10 (left ops file two_lines) in
    (r.0 ≡ some line) × ReadOn ops file (fresh_file, two_lines) line (r.1)
fgets_lem_example =
    fgets_lem (file_ops no_outside) (file-ByteFile no_outside) 10 (fresh_file, two_lines)
      (refl, refl)

abbrev plenty : Given
plenty = record { entry = true; structs = true; at_null = λ x. 5 }
