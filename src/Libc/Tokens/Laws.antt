-- ===== src/Libc/Tokens/Laws.antt =====
-- What `strtok_r` of src/libc/string.c finds.
use jiauliyan_os.Base.{
  ℕ, zero, suc, ◌+◌, ◌<◌, ◌≡◌, ◌≢◌, refl, true, false, List, [], ◌∷◌, some, ◌==◌, length, arith,
}
use jiauliyan_os.Memory.{Mem, write}
use jiauliyan_os.Libc.Search.{has}
use jiauliyan_os.Libc.Tokens.{skip_delims, scan_token, token, strtok_r}

-- The memory holds the bytes from an address on.
abbrev pub Holds : Mem → ℕ → List ℕ → Type 0
Holds m a [] = Unit
Holds m a (c ∷ text) = (m a ≡ c) × Holds m (a + 1) text

abbrev pub AllDelims : List ℕ → List ℕ → Type 0
AllDelims delim [] = Unit
AllDelims delim (c ∷ text) = (has delim c ≡ true) × AllDelims delim text

-- The bytes of a token.
abbrev pub NoDelims : List ℕ → List ℕ → Type 0
NoDelims delim [] = Unit
NoDelims delim (c ∷ text) = (has delim c ≡ false) × ((c ≢ 0) × NoDelims delim text)

skip_delims_lem :
    (pre : List ℕ) (fuel a : ℕ) (delim : List ℕ) (m : Mem)
    → Holds m a pre
    → AllDelims delim pre
    → has delim (m (a + length pre)) ≡ false
    → length pre < fuel
    → skip_delims fuel delim m a ≡ some (a + length pre)
unfolding skip_delims
skip_delims_lem pre zero a delim m h all stop enough = absurd (omega arith)
skip_delims_lem [] (suc fuel) a delim m h all stop enough =
    let e : a + 0 ≡ a = omega arith in
    let here : has delim (m a) ≡ false = rw e at stop in rw (here, e) refl
skip_delims_lem (c ∷ pre) (suc fuel) a delim m (e, h) (d, all) stop enough =
    let step : a + suc (length pre) ≡ a + 1 + length pre = omega arith in
    rw (e, d, step) (skip_delims_lem pre fuel (a + 1) delim m h all (rw step at stop) (omega arith))

scan_token_lem :
    (text : List ℕ) (fuel a : ℕ) (delim : List ℕ) (m : Mem)
    → Holds m a text
    → NoDelims delim text
    → has delim (m (a + length text)) ≡ true
    → m (a + length text) ≢ 0
    → length text < fuel
    → scan_token fuel delim m a ≡ some (a + length text + 1, write m (a + length text) 0)
unfolding scan_token
scan_token_lem text zero a delim m h none_in stop there enough = absurd (omega arith)
scan_token_lem [] (suc fuel) a delim m h none_in stop there enough =
    let e : a + 0 ≡ a = omega arith in
    let there' : m a ≢ 0 = rw e at there in
    let more : (m a == 0) ≡ false = ground arith in
    let here : has delim (m a) ≡ true = rw e at stop in rw (more, here, e) refl
scan_token_lem (c ∷ text) (suc fuel) a delim m (e, h) (d, (some_byte, none_in)) stop there enough =
    let step : a + suc (length text) ≡ a + 1 + length text = omega arith in
    let more : (c == 0) ≡ false = ground arith in
    rw (e, more, d, step)
      (scan_token_lem text fuel (a + 1) delim m h none_in (rw step at stop) (rw step at there)
        (omega arith))

-- From an address above 0 where delimiters stand, then at least one byte and no delimiter, and then a
-- delimiter, `strtok_r` gives the address of the first byte behind the delimiters, writes a NUL over
-- the delimiter behind the token and nothing else, and remembers the address behind it; rounds for all
-- the bytes are enough.
pub strtok_r_lem :
    (fuel s : ℕ) (delim pre : List ℕ) (c : ℕ) (text : List ℕ) (last : ℕ) (m : Mem)
    → 0 < s
    → Holds m s pre
    → AllDelims delim pre
    → Holds m (s + length pre) (c ∷ text)
    → NoDelims delim (c ∷ text)
    → let end = s + length pre + 1 + length text in
      has delim (m end) ≡ true
      → m end ≢ 0
      → length pre + length text < fuel
      → strtok_r fuel s delim last m ≡ some (s + length pre, end + 1, write m end 0)
unfolding strtok_r token
strtok_r_lem fuel s delim pre c text last m some_place h all (e, held) (d, (some_byte, none_in))
      stop there enough =
    let start : (s == 0) ≡ false = ground arith in
    let tok = s + length pre in
    let first : has delim (m tok) ≡ false = rw e d in
    let more : (m tok == 0) ≡ false = ground arith in
    rw
      (
        start,
        skip_delims_lem pre fuel s delim m h all first (omega arith),
        more,
        scan_token_lem text fuel (tok + 1) delim m held none_in stop there (omega arith),
      )
      (rw start refl)
