-- ===== src/Libc/Compare/Laws.antt =====
-- When the comparisons of src/libc/string.c say that two strings are equal.
use jiauliyan_os.Base.{
  ℕ, zero, suc, ◌+◌, ◌<◌, ◌≡◌, ◌≢◌, ◌↔◌, refl, Bool-cases, inl, inr, List, [], ◌∷◌, arith, ◌==◌,
  take,
}
use jiauliyan_os.Base.Int.{pos, ◌-ℤ◌}
use jiauliyan_os.Memory.{Mem}
use jiauliyan_os.Drivers.Buffer.{bytes_at}
use jiauliyan_os.Libc.Compare.{schar, IsText, strcmp, strncmp, memcmp_from, memcmp}

-- `Begins a b`: the string `a` begins with `b`.
abbrev pub Begins : List ℕ → List ℕ → Type 0
Begins a [] = Unit
Begins [] (y ∷ b) = ⊥
Begins (x ∷ a) (y ∷ b) = (x ≡ y) × Begins a b

schar_diff : (x y : ℕ) → x < 256 → y < 256 → x ≢ y → schar x -ℤ schar y ≢ pos 0
unfolding ◌-ℤ◌
schar_diff x y hx hy ne = ground arith

-- `strcmp` gives 0 exactly when the first of two strings begins with the second, and so for more pairs
-- than the equal ones.
pub strcmp_zero_iff : (a b : List ℕ) → IsText a → IsText b → (strcmp a b ≡ pos 0) ↔ Begins a b
unfolding strcmp
strcmp_zero_iff [] [] ta tb = (λ e. tt, λ e. refl)
strcmp_zero_iff [] (y ∷ b) ta tb =
    (λ e. schar_diff 0 y (omega arith) tb.1 (λ z. tb.0 (omega arith)) e, λ e. absurd e)
strcmp_zero_iff (x ∷ a) [] ta tb = (λ e. tt, λ e. refl)
strcmp_zero_iff (x ∷ a) (y ∷ b) ta tb =
    let rest = strcmp_zero_iff a b ta.2 tb.2 in
    elim (Bool-cases (x == y)) [
      | inl e ↦ rw e (λ h. (ground arith, rest.0 h), λ h. rest.1 h.1)
      | inr e ↦ rw e (λ h. absurd (schar_diff x y ta.1 tb.1 (ground arith) h), λ h. ground arith)
    ]

-- `strncmp` gives 0 on two strings exactly when their beginnings of up to `n` bytes are equal.
pub strncmp_zero_iff :
    (a b : List ℕ) (n : ℕ) → IsText a → IsText b → (strncmp a b n ≡ pos 0) ↔ (take n a ≡ take n b)
unfolding strncmp ◌-ℤ◌
strncmp_zero_iff a b zero ta tb = (λ e. refl, λ e. refl)
strncmp_zero_iff [] [] (suc n) ta tb = (λ e. refl, λ e. refl)
strncmp_zero_iff [] (y ∷ b) (suc n) ta tb = ground arith
strncmp_zero_iff (x ∷ a) [] (suc n) ta tb = ground arith
strncmp_zero_iff (x ∷ a) (y ∷ b) (suc n) ta tb = ground (arith, strncmp_zero_iff a b n ta.2 tb.2)

memcmp_from_zero_iff :
    (n i a b : ℕ) (m : Mem)
    → (memcmp_from n i a b m ≡ pos 0) ↔ (bytes_at m (a + i) n ≡ bytes_at m (b + i) n)
unfolding memcmp_from bytes_at ◌-ℤ◌
memcmp_from_zero_iff zero i a b m = (λ e. refl, λ e. refl)
memcmp_from_zero_iff (suc n) i a b m =
    let there : a + (i + 1) ≡ a + i + 1 = omega arith in
    let here : b + (i + 1) ≡ b + i + 1 = omega arith in
    let rest = rw (there, here) at (memcmp_from_zero_iff n (i + 1) a b m) in ground (arith, rest)

-- `memcmp` gives 0 exactly when the two regions hold the same bytes.
pub memcmp_zero_iff :
    (a b n : ℕ) (m : Mem) → (memcmp a b n m ≡ pos 0) ↔ (bytes_at m a n ≡ bytes_at m b n)
unfolding memcmp
memcmp_zero_iff a b n m =
    let there : a + 0 ≡ a = omega arith in
    let here : b + 0 ≡ b = omega arith in rw (there, here) at (memcmp_from_zero_iff n 0 a b m)
