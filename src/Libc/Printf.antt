-- ===== src/Libc/Printf.antt =====
-- Formatted output to files (src/libc/stdio.c). What `stream_vformat` has for parameters, the
-- printing of a double and the buffers that `malloc` gives, is a parameter here too.
use jiauliyan_os.Base.{ℕ, List, Option, none, some, ◌>>=◌, if◌then◌else◌}
use jiauliyan_os.Base.Int.{ℤ, pos, negsuc}
use jiauliyan_os.Memory.{Mem}
use jiauliyan_os.Kernel.Stream.{StreamOps, Bytestream, Outside}
use jiauliyan_os.Kernel.Directive.Read.{Arg}
use jiauliyan_os.Kernel.Directive.{stream_vformat}
use jiauliyan_os.Libc.Stdio.{File}

module _ {D : Type 0} (putdouble : D → ℕ → ℕ → Bytestream → Option Bytestream) (outside : Outside)
    (heap : ℕ → Mem) where
  -- The result and the file, which may be null. `none`: the format is undefined, or the file is closed, so that
  -- its stream is null.
  pub vfprintf :
      {S : Type 0}
      → StreamOps S
      → Option (File × S)
      → List ℕ
      → List (Arg D)
      → Option (ℤ × Option (File × S))
  vfprintf ops none format args = some (negsuc 0, none)
  vfprintf ops (some (f, s)) format args =
      if f.opened
      then (do
        (ret, s') ← stream_vformat ops putdouble outside heap format args s
        some (pos ret, some (f, s')))
      else none

  -- The arguments of the call as a list.
  pub fprintf :
      {S : Type 0}
      → StreamOps S
      → Option (File × S)
      → List ℕ
      → List (Arg D)
      → Option (ℤ × Option (File × S))
  fprintf ops file format args = vfprintf ops file format args

  -- To the FILE `out`, which is stdout.
  pub vprintf :
      {S : Type 0} → StreamOps S → File × S → List ℕ → List (Arg D) → Option (ℤ × Option (File × S))
  vprintf ops out format args = vfprintf ops (some out) format args

  pub printf :
      {S : Type 0} → StreamOps S → File × S → List ℕ → List (Arg D) → Option (ℤ × Option (File × S))
  printf ops out format args = vfprintf ops (some out) format args
