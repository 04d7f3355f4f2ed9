-- ===== src/Libc/Errors.antt =====
-- `strerror` of src/libc/string.c.
use jiauliyan_os.Base.{ℕ, List, [], ◌∷◌, leb, if◌then◌else◌, get_or}
use jiauliyan_os.Base.Int.{ℤ, pos, negsuc}

abbrev no_error : List ℕ
no_error = b'N' ∷ b'o' ∷ b' ' ∷ b'e' ∷ b'r' ∷ b'r' ∷ b'o' ∷ b'r' ∷ []

pub error_strs : List (List ℕ)
error_strs =
    no_error
    ∷ (b'P' ∷ b'a' ∷ b'r' ∷ b'a' ∷ b'm' ∷ b'e' ∷ b't' ∷ b'e' ∷ b'r' ∷ b' ' ∷ b'o' ∷ b'u' ∷ b't'
        ∷ b's' ∷ b'i' ∷ b'd' ∷ b'e' ∷ b' ' ∷ b'f' ∷ b'u' ∷ b'n' ∷ b'c' ∷ b't' ∷ b'i' ∷ b'o' ∷ b'n'
        ∷ b' ' ∷ b'd' ∷ b'o' ∷ b'm' ∷ b'a' ∷ b'i' ∷ b'n' ∷ [])
    ∷ (b'R' ∷ b'e' ∷ b's' ∷ b'u' ∷ b'l' ∷ b't' ∷ b' ' ∷ b'o' ∷ b'u' ∷ b't' ∷ b's' ∷ b'i' ∷ b'd'
        ∷ b'e' ∷ b' ' ∷ b'f' ∷ b'u' ∷ b'n' ∷ b'c' ∷ b't' ∷ b'i' ∷ b'o' ∷ b'n' ∷ b' ' ∷ b'r' ∷ b'a'
        ∷ b'n' ∷ b'g' ∷ b'e' ∷ [])
    ∷ (b'I' ∷ b'l' ∷ b'l' ∷ b'e' ∷ b'g' ∷ b'a' ∷ b'l' ∷ b' ' ∷ b'c' ∷ b'h' ∷ b'a' ∷ b'r' ∷ b'a'
        ∷ b'c' ∷ b't' ∷ b'e' ∷ b'r' ∷ b' ' ∷ b's' ∷ b'e' ∷ b'q' ∷ b'u' ∷ b'e' ∷ b'n' ∷ b'c' ∷ b'e'
        ∷ [])
    ∷ []

pub strerror : ℤ → List ℕ
strerror (pos n) = if leb n 3 then get_or error_strs n [] else no_error
strerror (negsuc n) = no_error
