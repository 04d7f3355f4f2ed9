-- ===== src/Libc/Stubs/Tests.antt =====
-- The messages of src/libc/stdio.c and src/libc/etc.c over a stream that keeps its text.
use jiauliyan_os.Base.{ℕ, ◌≡◌, refl, List, [], ◌∷◌, ◌++◌, none, some}
use jiauliyan_os.Base.Int
use jiauliyan_os.Libc.Compare.{strcmp}
use jiauliyan_os.Libc.Search.{is_zero}
use jiauliyan_os.Kernel.Stream.{StreamOps}
use jiauliyan_os.Libc.Stubs.{getenv, lua_path}

-- The text so far.
abbrev kept_text : StreamOps (List ℕ)
kept_text = record {
  get = λ s. (none, s);
  put = λ c s. (some c, s ++ c ∷ []);
  avail = λ s. 0;
  seek = λ n s. s;
}

-- `strcmp` takes a longer name for the same.
getenv_longer :
    getenv (b'L' ∷ b'U' ∷ b'A' ∷ b'_' ∷ b'P' ∷ b'A' ∷ b'T' ∷ b'H' ∷ b'X' ∷ []) ≡ lua_path
unfolding getenv strcmp is_zero
getenv_longer = refl

getenv_other : getenv (b'P' ∷ []) ≡ []
unfolding getenv strcmp is_zero Int.◌-ℤ◌
getenv_other = refl
