-- ===== src/Kernel/Files.antt =====
-- The files that the kernel has from its start (`load_file_data` of src/kernel/kernel.c).
use jiauliyan_os.Base.{ℕ, List, [], ◌∷◌, Option, some, ◌>>=◌}
use jiauliyan_os.Memory.{Mem}
use jiauliyan_os.Libc.Stdio.{Root, FileOutside, Given, File, file_ops, fopen, fwrite, fclose}

-- The closed FILE and the table. `none`: `fopen` gave null, which `fwrite` reads through, or wrote
-- through a null itself. `given` is what `malloc` gave, and `b` what the stack of `fwrite` holds. Where
-- `fopen` gives a FILE it prints nothing.
pub load_file_data :
    FileOutside
    → Option ℕ
    → (name : List ℕ) → (start data_size : ℕ) → Mem
    → Given
    → Root
    → Option (File × Root)
load_file_data outside b name start data_size m given root = do
  (file, root', printed) ← fopen name (b'w' ∷ []) given root
  w ← file
  let r = fwrite (file_ops outside) b start 1 data_size m w in
      some ((fclose ((r.1).0)).1, ((r.1).1).root)

-- "os.lua" and "dkjson.lua"
abbrev pub os_lua : List ℕ
os_lua = b'o' ∷ b's' ∷ b'.' ∷ b'l' ∷ b'u' ∷ b'a' ∷ []

abbrev pub dkjson_lua : List ℕ
dkjson_lua = b'd' ∷ b'k' ∷ b'j' ∷ b's' ∷ b'o' ∷ b'n' ∷ b'.' ∷ b'l' ∷ b'u' ∷ b'a' ∷ []

-- A script in the kernel's image, which the linker gives the symbols of its start and its size.
pub record Script : Type 0 where
  pub start : ℕ
  pub size : ℕ

-- The two calls in `kernel_start`; `given` and `given'` are what `malloc` gave for the two files.
pub load_scripts :
    FileOutside
    → Option ℕ
    → (os dkjson : Script) → Mem
    → (given given' : Given) → Root
    → Option Root
load_scripts outside b os dkjson m given given' root = do
  (f, root') ← load_file_data outside b os_lua os.start os.size m given root
  (f', root'') ← load_file_data outside b dkjson_lua dkjson.start dkjson.size m given' root'
  some root''
