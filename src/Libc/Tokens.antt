-- ===== src/Libc/Tokens.antt =====
-- The tokens of a string in memory (strtok_r and strtok of src/libc/string.c). The delimiters are a list of
-- bytes without the NUL, and the null pointer is 0.
mod Tests
pub mod Laws
use jiauliyan_os.Base.{
  ℕ, zero, suc, ◌+◌, Bool, true, false, List, [], ◌∷◌, Option, none, some, ◌>>=◌, ◌==◌,
  if◌then◌else◌,
}
use jiauliyan_os.Memory.{Mem, write}
use jiauliyan_os.Libc.Search.{has}

-- The loop of `cont`: where the first byte stands that is no delimiter. `none`: it still runs.
skip_delims : ℕ → List ℕ → Mem → ℕ → Option ℕ
skip_delims zero delim m s = none
skip_delims (suc fuel) delim m s =
    let rest = skip_delims fuel delim m (s + 1) in if has delim (m s) then rest else some s

-- The scan of a token from `s` on: what `*last` gets, and the memory with a NUL at the delimiter.
scan_token : ℕ → List ℕ → Mem → ℕ → Option (ℕ × Mem)
scan_token zero delim m s = none
scan_token (suc fuel) delim m s =
    let rest = scan_token fuel delim m (s + 1) in
    if m s == 0 then some (0, m) else if has delim (m s) then some (s + 1, write m s 0) else rest

-- The token at `tok`, what `*last` gets, and the memory.
token : ℕ → ℕ → List ℕ → Mem → Option (ℕ × ℕ × Mem)
token fuel tok delim m = do (last, m') ← scan_token fuel delim m (tok + 1); some (tok, last, m')

-- The token, `*last` and the memory; a null `s` goes on behind the token before.
pub strtok_r : ℕ → ℕ → List ℕ → ℕ → Mem → Option (ℕ × ℕ × Mem)
strtok_r fuel s delim last m =
    let from = if s == 0 then last else s in
    let run : Option (ℕ × ℕ × Mem) = do
      tok ← skip_delims fuel delim m from
      if m tok == 0 then some (0, 0, m) else token fuel tok delim m
    in if from == 0 then some (0, last, m) else run

-- `last` is the static variable.
pub strtok : ℕ → ℕ → List ℕ → ℕ → Mem → Option (ℕ × ℕ × Mem)
strtok fuel s delim last m = strtok_r fuel s delim last m
