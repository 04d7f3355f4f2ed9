-- ===== src/Libc/Tokens/Tests.antt =====
-- `strtok_r` of src/libc/string.c on ", ab,cd" at 100, and on what is left.
use jiauliyan_os.Base.{ℕ, ◌≡◌, refl, List, [], ◌∷◌, Option, none, some, true, arith}
use jiauliyan_os.Memory.{Mem, write}
use jiauliyan_os.Libc.Search.{has}
use jiauliyan_os.Libc.Tokens.{skip_delims, scan_token, token, strtok_r}
use jiauliyan_os.Libc.Tokens.Laws.{AllDelims, NoDelims, strtok_r_lem}

abbrev commas : Mem
commas =
    write
      (write (write (write (write (write (write (λ x. 0) 100 44) 101 32) 102 97) 103 98) 104 44) 105
        99)
      106 100

abbrev comma_space : List ℕ
comma_space = 44 ∷ 32 ∷ []

-- The address of the token, and what `*last` gets.
abbrev places : Option (ℕ × ℕ × Mem) → Option (ℕ × ℕ)
places none = none
places (some (tok, last, m)) = some (tok, last)

first_token : places (strtok_r 9 100 comma_space 0 commas) ≡ some (102, 105)
unfolding strtok_r token skip_delims scan_token has
first_token = refl

last_token : places (strtok_r 9 0 comma_space 105 commas) ≡ some (105, 0)
unfolding strtok_r token skip_delims scan_token has
last_token = refl

no_token : places (strtok_r 9 0 comma_space 107 commas) ≡ some (0, 0)
unfolding strtok_r token skip_delims scan_token has
no_token = refl

delims : AllDelims comma_space (44 ∷ 32 ∷ [])
unfolding has
delims = (refl, (refl, tt))

no_delims : NoDelims comma_space (97 ∷ 98 ∷ [])
unfolding has
no_delims = (refl, ((λ e. absurd (omega arith)), (refl, ((λ e. absurd (omega arith)), tt))))

comma_ends : has comma_space (commas 104) ≡ true
unfolding has
comma_ends = refl

-- The first token again, by the theorem.
strtok_r_lem_example : strtok_r 9 100 comma_space 0 commas ≡ some (102, 105, write commas 104 0)
strtok_r_lem_example =
    strtok_r_lem 9 100 comma_space (44 ∷ 32 ∷ []) 97 (98 ∷ []) 0 commas (omega arith)
      (refl, (refl, tt)) delims (refl, (refl, tt)) no_delims comma_ends (λ e. absurd (omega arith))
      (omega arith)
