-- ===== src/Libc/Stdio/Creating.antt =====
-- The files that `fopen` of src/libc/stdio.c makes.
use jiauliyan_os.Base.{◌≡◌, true}
use jiauliyan_os.Base.Int
use jiauliyan_os.Libc.Stdio.{Given}

-- `malloc` gives memory for everything.
pub record IsEnough (given : Given) : Type 0 where
  pub entry : given.entry ≡ true
  pub structs : given.structs ≡ true
