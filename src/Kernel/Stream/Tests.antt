-- ===== src/Kernel/Stream/Tests.antt =====
-- The theorems on src/kernel/stream.c at a stream of two bytes.
use jiauliyan_os.Base.{◌+◌, arith}
use jiauliyan_os.Kernel.Stream.{Bytestream}
use jiauliyan_os.Kernel.Stream.Laws.{IsSound}

-- The place is at the end of a full buffer.
abbrev two_bytes : Bytestream
two_bytes = record { buf = λ x. x + 65; size = 2; capacity = 2; pos = 2 }

two_bytes-IsSound : IsSound two_bytes
two_bytes-IsSound = record { place = omega arith; fits = omega arith }
