-- ===== src/Kernel/Format/Text.antt =====
-- The formatting of integers into a new string, of src/kernel/stream.c, which the printing of doubles uses.
-- A string is its bytes without the NUL; whether `malloc` gave memory for it is a parameter of each call.
pub mod Laws
mod Tests
use jiauliyan_os.Base.{
  ℕ, zero, suc, ◌+◌, ◌/◌, ◌%◌, Bool, List, [], ◌∷◌, ◌++◌, Option, none, some, ◌==◌, if◌then◌else◌,
  get_or,
}
use jiauliyan_os.Base.Words.{sub32}
use jiauliyan_os.Kernel.Format.{
  has_flag, flag_sign, flag_alt, flag_upper, flag_octal, flag_hex, digits_of, base_of, is_negative,
}

-- `free` of a string leaves nothing to say about it.
pub strdup : Bool → List ℕ → Option (List ℕ)
strdup there string = if there then some string else none

-- The texts in front of the first null, up to `n` of them, in one.
pub joined : ℕ → List (Option (List ℕ)) → List ℕ
joined zero strings = []
joined (suc n) [] = []
joined (suc n) (none ∷ strings) = []
joined (suc n) (some text ∷ strings) = text ++ joined n strings

abbrev pub enomem : ℕ
enomem = 4

-- The string and errno. The arguments are read up to a null, 16 at most.
pub strvcat : Bool → List (Option (List ℕ)) → ℕ → Option (List ℕ) × ℕ
strvcat there strings errno = if there then (some (joined 16 strings), errno) else (none, enomem)

-- The loop that fills the buffer from its end, with `n` places left; `text` is what it holds by now.
pub fill : List ℕ → (base n value : ℕ) → List ℕ → List ℕ
fill digits base zero value text = text
fill digits base (suc n) value text =
    let rest = fill digits base n (value / base) (get_or digits (value % base) 0 ∷ text) in
    if value == 0 then text else rest

-- The digits with the sign that the flags ask for.
pub with_sign : ℕ → List ℕ → List ℕ
with_sign flags text = if has_flag flags flag_sign then 43 ∷ text else text

-- The prefix comes in front of the sign.
pub with_prefix : Bool → ℕ → List ℕ → ℕ → Option (List ℕ) × ℕ
with_prefix there flags text errno =
    let hex = if has_flag flags flag_upper then 48 ∷ 88 ∷ [] else 48 ∷ 120 ∷ [] in
    let plain : Option (List ℕ) × ℕ = (strdup there text, errno) in
    let alt =
      if has_flag flags flag_octal
      then strvcat there (some (48 ∷ []) ∷ some text ∷ none ∷ []) errno
      else if has_flag flags flag_hex
      then strvcat there (some hex ∷ some text ∷ none ∷ []) errno
      else plain in
    if has_flag flags flag_alt then alt else plain

pub format_uint : Bool → (value flags errno : ℕ) → Option (List ℕ) × ℕ
format_uint there value flags errno =
    if value == 0
    then (strdup there (48 ∷ []), errno)
    else with_prefix there flags
        (with_sign flags (fill (digits_of flags) (base_of flags) 15 value [])) errno

-- A null from `format_uint` is where the arguments of `strvcat` end.
pub format_int : Bool → Bool → (value flags errno : ℕ) → Option (List ℕ) × ℕ
format_int there there' value flags errno =
    let temp = format_uint there (sub32 0 value) flags errno in
    if is_negative value
    then strvcat there' (some (45 ∷ []) ∷ temp.0 ∷ none ∷ []) (temp.1)
    else format_uint there value flags errno
