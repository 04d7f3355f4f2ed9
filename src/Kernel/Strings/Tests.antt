-- ===== src/Kernel/Strings/Tests.antt =====
-- Runs of `strlcpy` and `strlcat`.
use jiauliyan_os.Base.{ℕ, ◌≡◌, refl, Option, none, some}
use jiauliyan_os.Memory.{Mem, write}
use jiauliyan_os.Kernel.Strings.{copy_from, strlcpy, append_from, end_within, strlcat}
use jiauliyan_os.Libc.Write.{length_at}

-- "hey" at 200.
abbrev hey_memory : Mem
hey_memory = write (write (write (λ x. 0) 200 b'h') 201 b'e') 202 b'y'

-- What the call gives, and a byte after it.
look : ℕ → Option (ℕ × Mem) → Option (ℕ × ℕ)
look x none = none
look x (some (n, m)) = some (n, m x)

-- Three bytes of room hold "he".
copy_cut : look 102 (strlcpy 9 100 200 3 hey_memory) ≡ some (3, 0)
unfolding look strlcpy copy_from length_at
copy_cut = refl

append_whole : look 102 (strlcat 9 100 200 8 hey_memory) ≡ some (3, b'y')
unfolding look strlcat append_from end_within length_at
append_whole = refl

append_cut : look 102 (strlcat 9 100 200 3 hey_memory) ≡ some (3, 0)
unfolding look strlcat append_from end_within length_at
append_cut = refl
