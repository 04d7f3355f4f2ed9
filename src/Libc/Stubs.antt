-- ===== src/Libc/Stubs.antt =====
-- The functions of src/libc/stdio.c and src/libc/etc.c that only warn, which is to print a message on stdout,
-- and those beside them. A null pointer is 0.
mod Tests
use jiauliyan_os.Base.{ℕ, zero, suc, List, [], ◌∷◌, Option, none, some, ◌>>=◌, ◌==◌, if◌then◌else◌}
use jiauliyan_os.Base.Int.{ℤ, pos, negsuc}
use jiauliyan_os.Memory.{Mem}
use jiauliyan_os.Libc.Compare.{strcmp}
use jiauliyan_os.Libc.Search.{is_zero}
use jiauliyan_os.Libc.Errors.{strerror}
use jiauliyan_os.Kernel.Stream.{StreamOps, Bytestream, Outside}
use jiauliyan_os.Kernel.Directive.Read.{Arg, word, string}
use jiauliyan_os.Libc.Stdio.{File, create_file, fputs}
use jiauliyan_os.Libc.Printf.{fprintf, printf}

-- The two FILEs that `stdio_init` makes; `stderr` is the one of `stdout`.
pub record Standard : Type 0 where
  pub stdout : File
  pub stdin : File

pub stdio_init : Standard
stdio_init = record { stdout = create_file; stdin = create_file }

pub fflush : File → ℤ
fflush file = negsuc 0

-- ".a?.lua;?.lua"
abbrev pub lua_path : List ℕ
lua_path =
    b'.' ∷ b'a' ∷ b'?' ∷ b'.' ∷ b'l' ∷ b'u' ∷ b'a' ∷ b';' ∷ b'?' ∷ b'.' ∷ b'l' ∷ b'u' ∷ b'a' ∷ []

pub getenv : List ℕ → List ℕ
getenv name =
    if is_zero (strcmp name (b'L' ∷ b'U' ∷ b'A' ∷ b'_' ∷ b'P' ∷ b'A' ∷ b'T' ∷ b'H' ∷ []))
    then lua_path
    else []

-- `ops` is the stream of stdout.
module _ {S : Type 0} (ops : StreamOps S) where
  -- WARN
  pub warn : List ℕ → File × S → File × S
  warn text out = (fputs ops text out).1

  pub freopen : File × S → ℕ × (File × S)
  freopen out = (
    0,
    warn
        (b'f' ∷ b'r' ∷ b'e' ∷ b'o' ∷ b'p' ∷ b'e' ∷ b'n' ∷ b'(' ∷ b')' ∷ b' ' ∷ b'c' ∷ b'a' ∷ b'l'
          ∷ b'l' ∷ b'e' ∷ b'd' ∷ 0x0A ∷ [])
        out,
  )

  pub remove : File × S → ℤ × (File × S)
  remove out = (
    negsuc 0,
    warn
        (b'r' ∷ b'e' ∷ b'm' ∷ b'o' ∷ b'v' ∷ b'e' ∷ b'(' ∷ b')' ∷ b' ' ∷ b'c' ∷ b'a' ∷ b'l' ∷ b'l'
          ∷ b'e' ∷ b'd' ∷ 0x0A ∷ [])
        out,
  )

  pub rename : File × S → ℤ × (File × S)
  rename out = (
    negsuc 0,
    warn
        (b'r' ∷ b'e' ∷ b'n' ∷ b'a' ∷ b'm' ∷ b'e' ∷ b'(' ∷ b')' ∷ b' ' ∷ b'c' ∷ b'a' ∷ b'l' ∷ b'l'
          ∷ b'e' ∷ b'd' ∷ 0x0A ∷ [])
        out,
  )

  pub rewind : File × S → File × S
  rewind out =
      warn
        (b'r' ∷ b'e' ∷ b'w' ∷ b'i' ∷ b'n' ∷ b'd' ∷ b'(' ∷ b')' ∷ b' ' ∷ b'c' ∷ b'a' ∷ b'l' ∷ b'l'
          ∷ b'e' ∷ b'd' ∷ 0x0A ∷ [])
        out

  pub setbuf : File × S → File × S
  setbuf out =
      warn
        (b's' ∷ b'e' ∷ b't' ∷ b'b' ∷ b'u' ∷ b'f' ∷ b'(' ∷ b')' ∷ b' ' ∷ b'c' ∷ b'a' ∷ b'l' ∷ b'l'
          ∷ b'e' ∷ b'd' ∷ 0x0A ∷ [])
        out

  pub setvbuf : File × S → ℤ × (File × S)
  setvbuf out = (
    negsuc 0,
    warn
        (b's' ∷ b'e' ∷ b't' ∷ b'v' ∷ b'b' ∷ b'u' ∷ b'f' ∷ b'(' ∷ b')' ∷ b' ' ∷ b'c' ∷ b'a' ∷ b'l'
          ∷ b'l' ∷ b'e' ∷ b'd' ∷ 0x0A ∷ [])
        out,
  )

  pub tmpfile : File × S → ℕ × (File × S)
  tmpfile out = (
    0,
    warn
        (b't' ∷ b'm' ∷ b'p' ∷ b'f' ∷ b'i' ∷ b'l' ∷ b'e' ∷ b'(' ∷ b')' ∷ b' ' ∷ b'c' ∷ b'a' ∷ b'l'
          ∷ b'l' ∷ b'e' ∷ b'd' ∷ 0x0A ∷ [])
        out,
  )

  pub tmpnam : File × S → ℕ × (File × S)
  tmpnam out = (
    0,
    warn
        (b't' ∷ b'm' ∷ b'p' ∷ b'n' ∷ b'a' ∷ b'm' ∷ b'(' ∷ b')' ∷ b' ' ∷ b'c' ∷ b'a' ∷ b'l' ∷ b'l'
          ∷ b'e' ∷ b'd' ∷ 0x0A ∷ [])
        out,
  )

  pub fscanf : File × S → ℤ × (File × S)
  fscanf out = (
    negsuc 0,
    warn
        (b'f' ∷ b's' ∷ b'c' ∷ b'a' ∷ b'n' ∷ b'f' ∷ b'(' ∷ b')' ∷ b' ' ∷ b'c' ∷ b'a' ∷ b'l' ∷ b'l'
          ∷ b'e' ∷ b'd' ∷ 0x0A ∷ [])
        out,
  )

  pub scanf : File × S → ℤ × (File × S)
  scanf out = (
    negsuc 0,
    warn
        (b's' ∷ b'c' ∷ b'a' ∷ b'n' ∷ b'f' ∷ b'(' ∷ b')' ∷ b' ' ∷ b'c' ∷ b'a' ∷ b'l' ∷ b'l' ∷ b'e'
          ∷ b'd' ∷ 0x0A ∷ [])
        out,
  )

  pub sscanf : File × S → ℤ × (File × S)
  sscanf out = (
    negsuc 0,
    warn
        (b's' ∷ b's' ∷ b'c' ∷ b'a' ∷ b'n' ∷ b'f' ∷ b'(' ∷ b')' ∷ b' ' ∷ b'c' ∷ b'a' ∷ b'l' ∷ b'l'
          ∷ b'e' ∷ b'd' ∷ 0x0A ∷ [])
        out,
  )

  pub signal : File × S → ℕ × (File × S)
  signal out = (
    0,
    warn
        (b's' ∷ b'i' ∷ b'g' ∷ b'n' ∷ b'a' ∷ b'l' ∷ b'(' ∷ b')' ∷ b' ' ∷ b'c' ∷ b'a' ∷ b'l' ∷ b'l'
          ∷ b'e' ∷ b'd' ∷ b'.' ∷ 0x0A ∷ [])
        out,
  )

  pub system : File × S → ℤ × (File × S)
  system out = (
    pos 1,
    warn
        (b's' ∷ b'y' ∷ b's' ∷ b't' ∷ b'e' ∷ b'm' ∷ b'(' ∷ b')' ∷ b' ' ∷ b'c' ∷ b'a' ∷ b'l' ∷ b'l'
          ∷ b'e' ∷ b'd' ∷ b'.' ∷ 0x0A ∷ [])
        out,
  )

  pub gmtime : File × S → ℕ × (File × S)
  gmtime out = (
    0,
    warn
        (b'g' ∷ b'm' ∷ b't' ∷ b'i' ∷ b'm' ∷ b'e' ∷ b'(' ∷ b')' ∷ b' ' ∷ b'c' ∷ b'a' ∷ b'l' ∷ b'l'
          ∷ b'e' ∷ b'd' ∷ b'.' ∷ 0x0A ∷ [])
        out,
  )

  pub localtime : File × S → ℕ × (File × S)
  localtime out = (
    0,
    warn
        (b'l' ∷ b'o' ∷ b'c' ∷ b'a' ∷ b'l' ∷ b't' ∷ b'i' ∷ b'm' ∷ b'e' ∷ b'(' ∷ b')' ∷ b' ' ∷ b'c'
          ∷ b'a' ∷ b'l' ∷ b'l' ∷ b'e' ∷ b'd' ∷ b'.' ∷ 0x0A ∷ [])
        out,
  )

  pub clock : File × S → ℕ × (File × S)
  clock out = (
    0,
    warn
        (b'c' ∷ b'l' ∷ b'o' ∷ b'c' ∷ b'k' ∷ b'(' ∷ b')' ∷ b' ' ∷ b'c' ∷ b'a' ∷ b'l' ∷ b'l' ∷ b'e'
          ∷ b'd' ∷ b'.' ∷ 0x0A ∷ [])
        out,
  )

  pub time : File × S → ℕ × (File × S)
  time out = (
    0,
    warn
        (b't' ∷ b'i' ∷ b'm' ∷ b'e' ∷ b'(' ∷ b')' ∷ b' ' ∷ b'c' ∷ b'a' ∷ b'l' ∷ b'l' ∷ b'e' ∷ b'd'
          ∷ b'.' ∷ 0x0A ∷ [])
        out,
  )

  pub localeconv : File × S → ℕ × (File × S)
  localeconv out = (
    0,
    warn
        (b'l' ∷ b'o' ∷ b'c' ∷ b'a' ∷ b'l' ∷ b'e' ∷ b'c' ∷ b'o' ∷ b'n' ∷ b'v' ∷ b'(' ∷ b')' ∷ b' '
          ∷ b'c' ∷ b'a' ∷ b'l' ∷ b'l' ∷ b'e' ∷ b'd' ∷ b'.' ∷ 0x0A ∷ [])
        out,
  )

  -- It gives the pointer back.
  pub setlocale : ℕ → File × S → ℕ × (File × S)
  setlocale locale out = (
    locale,
    warn
        (b's' ∷ b'e' ∷ b't' ∷ b'l' ∷ b'o' ∷ b'c' ∷ b'a' ∷ b'l' ∷ b'e' ∷ b'(' ∷ b')' ∷ b' ' ∷ b'c'
          ∷ b'a' ∷ b'l' ∷ b'l' ∷ b'e' ∷ b'd' ∷ b'.' ∷ 0x0A ∷ [])
        out,
  )

  pub mktime : File × S → ℕ × (File × S)
  mktime out = (
    0,
    warn
        (b'm' ∷ b'k' ∷ b't' ∷ b'i' ∷ b'm' ∷ b'e' ∷ b'(' ∷ b')' ∷ b' ' ∷ b'c' ∷ b'a' ∷ b'l' ∷ b'l'
          ∷ b'e' ∷ b'd' ∷ b'.' ∷ 0x0A ∷ [])
        out,
  )

  pub strftime : File × S → ℕ × (File × S)
  strftime out = (
    0,
    warn
        (b's' ∷ b't' ∷ b'r' ∷ b'f' ∷ b't' ∷ b'i' ∷ b'm' ∷ b'e' ∷ b'(' ∷ b')' ∷ b' ' ∷ b'c' ∷ b'a'
          ∷ b'l' ∷ b'l' ∷ b'e' ∷ b'd' ∷ b'.' ∷ 0x0A ∷ [])
        out,
  )

  -- It warns, seeks all the same, and gives -1. The file is another one than stdout. `none`: it is closed.
  pub fseek :
      {T : Type 0} → StreamOps T → ℕ → File × T → File × S → Option (ℤ × (File × T) × (File × S))
  fseek file_ops offset (f, s) out =
      if f.opened
      then some (
        negsuc 0,
        (f, file_ops.seek offset s),
        warn
            (b'f' ∷ b's' ∷ b'e' ∷ b'e' ∷ b'k' ∷ b'(' ∷ b')' ∷ b' ' ∷ b'c' ∷ b'a' ∷ b'l' ∷ b'l'
              ∷ b'e' ∷ b'd' ∷ 0x0A ∷ [])
            out,
      )
      else none

module _ {D S : Type 0} (putdouble : D → ℕ → ℕ → Bytestream → Option Bytestream) (outside : Outside)
    (heap : ℕ → Mem) (ops : StreamOps S) where
  -- "%s: %s\n", or "%s\n" for a null; to stderr, which is stdout.
  pub perror : Option (List ℕ) → (errno : ℤ) → File × S → Option (Option (File × S))
  perror none errno out = do
    (ret, out') ←
        fprintf putdouble outside heap ops (some out) (b'%' ∷ b's' ∷ 0x0A ∷ [])
          (string (some (strerror errno)) ∷ [])
    some out'
  perror (some s) errno out = do
    (ret, out') ←
        fprintf putdouble outside heap ops (some out)
          (b'%' ∷ b's' ∷ b':' ∷ b' ' ∷ b'%' ∷ b's' ∷ 0x0A ∷ [])
          (string (some s) ∷ string (some (strerror errno)) ∷ [])
    some out'

  -- What stdout is when the endless loop begins.
  pub exit : (exit_code : ℤ) → File × S → Option (Option (File × S))
  exit exit_code out = do
    (ret, out') ←
        printf putdouble outside heap ops
          (warn ops
            (b'e' ∷ b'x' ∷ b'i' ∷ b't' ∷ b'(' ∷ b')' ∷ b' ' ∷ b'c' ∷ b'a' ∷ b'l' ∷ b'l' ∷ b'e'
              ∷ b'd' ∷ b'.' ∷ 0x0A ∷ [])
            out)
          (0x0A ∷ b'[' ∷ b'E' ∷ b'X' ∷ b'I' ∷ b'T' ∷ b']' ∷ b' ' ∷ b'%' ∷ b's' ∷ [])
          (string (some (strerror exit_code)) ∷ [])
    some out'
