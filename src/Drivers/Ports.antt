-- ===== src/Drivers/Ports.antt =====
-- Port output, `outportb` of src/sys/ports.c: its one instruction hands a byte to a device. The model
-- keeps what was sent, newest first.
use jiauliyan_os.Base.{ℕ, ◌%◌, List, ◌∷◌}

-- Each write is a port and a byte.
abbrev pub PortLog : Type 0
PortLog = List (ℕ × ℕ)

abbrev pub outportb : ℕ → ℕ → PortLog → PortLog
outportb port byte log = (port % 65536, byte % 256) ∷ log
