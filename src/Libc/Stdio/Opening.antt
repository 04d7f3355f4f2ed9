-- ===== src/Libc/Stdio/Opening.antt =====
-- Which file `fopen` of src/libc/stdio.c finds.
use jiauliyan_os.Base.{
  ℕ, zero, suc, ◌+◌, ◌≤◌, ◌<◌, ◌≡◌, ◌≢◌, refl, ap, ◌∙◌, true, false, Bool-cases, inl, inr, List, [],
  ◌∷◌, none, some, arith, length, take, ◌==◌,
}
use jiauliyan_os.Base.Int
use jiauliyan_os.Base.Int.{ℤ}
use jiauliyan_os.Memory.{Mem}
use jiauliyan_os.Drivers.Buffer.{bytes_at}
use jiauliyan_os.Libc.Stdio.Laws.{file_bytes}
use jiauliyan_os.Libc.Compare.{strcmp}
use jiauliyan_os.Libc.Search.{is_zero}
use jiauliyan_os.Libc.Stdio.{
  Root, Given, exceeded, create_file, find_file, find_free, new_entry, add_entry, fopen_from, fopen,
}

strcmp_self : (a : List ℕ) → strcmp a a ≡ Int.pos 0
unfolding strcmp
strcmp_self [] = refl
strcmp_self (x ∷ a) = let same : (x == x) ≡ true = ground arith in rw same (strcmp_self a)

take_short : (n : ℕ) (a : List ℕ) → length a ≤ n → take n a ≡ a
take_short zero [] h = refl
take_short zero (x ∷ a) h = absurd (omega arith)
take_short (suc n) [] h = refl
take_short (suc n) (x ∷ a) h = ap (λ l. x ∷ l) (take_short n a (omega arith))

-- The place found is a free one, not in front of where the loop began.
pub find_free_lem :
    (n k i : ℕ) (root : Root)
    → find_free n k root ≡ some i
    → (root.used i ≡ false) × (k ≤ i) × (i < k + n)
unfolding find_free
find_free_lem zero k i root e = cc
find_free_lem (suc n) k i root e = elim (Bool-cases (root.used k)) [
  | inl u ↦
      let (free, above, below) = find_free_lem n (k + 1) i root (rw u at e) in
      (free, omega arith, omega arith)
  | inr u ↦ let here : k ≡ i = some_eq (rw u at e) in (rw here at u, omega arith, omega arith)
]
  where
    some_eq : {x y : ℕ} → some x ≡ some y → x ≡ y
    some_eq e = ground arith

pub find_free-some :
    (n k i : ℕ) (root : Root)
    → k ≤ i
    → i < k + n
    → root.used i ≡ false
    → (j : ℕ) × (find_free n k root ≡ some j)
unfolding find_free
find_free-some zero k i root above below free = absurd (omega arith)
find_free-some (suc n) k i root above below free = elim (Bool-cases (root.used k)) [
  | inl u ↦
      let other : k ≢ i = λ e. cc in
      let (j, found) = find_free-some n (k + 1) i root (omega (arith, other)) (omega arith) free in
      (j, rw u found)
  | inr u ↦ (k, rw u refl)
]

pub not_zero : (z : ℤ) → z ≢ Int.pos 0 → is_zero z ≡ false
unfolding is_zero
not_zero (Int.pos n) ne = elim (Bool-cases (n == 0)) [
  | inl e ↦ let z : n ≡ 0 = ground arith in absurd (ne (ap Int.pos z))
  | inr e ↦ e
]
not_zero (Int.negsuc n) ne = refl

-- No file of the table begins with the name.
pub find_file-none :
    (n k : ℕ) (name : List ℕ) (root : Root)
    → ((j : ℕ) → root.used j ≡ true → strcmp (root.entry j).name name ≢ Int.pos 0)
    → find_file n k name root ≡ none
unfolding find_file
find_file-none zero k name root h = refl
find_file-none (suc n) k name root h = elim (Bool-cases (root.used k)) [
  | inl u ↦
      rw (u, not_zero (strcmp (root.entry k).name name) (h k u))
        (find_file-none n (k + 1) name root h)
  | inr u ↦ rw u (find_file-none n (k + 1) name root h)
]

-- A file that was added at the first free place is the one that its name finds.
pub find_file-add_entry :
    (n k i : ℕ) (name : List ℕ) (fresh : Mem) (root : Root)
    → length name ≤ 256
    → find_file n k name root ≡ none
    → find_free n k root ≡ some i
    → find_file n k name (add_entry i name fresh root) ≡ some i
unfolding find_file find_free add_entry new_entry is_zero
find_file-add_entry zero k i name fresh root short missing free = cc
find_file-add_entry (suc n) k i name fresh root short missing free =
    elim (Bool-cases (root.used k)) [
      | inl u ↦
          let on : find_free n (k + 1) root ≡ some i = rw u at free in
          let (fr, above, below) = find_free_lem n (k + 1) i root on in
          let other : (k == i) ≡ false = ground arith in
          elim (Bool-cases (is_zero (strcmp (root.entry k).name name))) [
            | inl z ↦ let found : some k ≡ none = rw (u, z) at missing in cc
            | inr z ↦
                let left : find_file n (k + 1) name root ≡ none = rw (u, z) at missing in
                rw (other, u, z) (find_file-add_entry n (k + 1) i name fresh root short left on)
          ]
      | inr u ↦
          let here : k ≡ i = some_eq (rw u at free) in
          let same : (i == i) ≡ true = ground arith in
          rw (here, same, take_short 256 name short, strcmp_self name) refl
    ]
  where
    some_eq : {x y : ℕ} → some x ≡ some y → x ≡ y
    some_eq e = ground arith

fopen_from_found :
    (fuel : ℕ) (name mode : List ℕ) (given : Given) (root : Root) (i : ℕ)
    → given.structs ≡ true
    → find_file 256 0 name root ≡ some i
    → fopen_from (suc fuel) name mode given root
      ≡ some (some (create_file, record { root = root; entry = i; pos = 0 }), root, [])
unfolding fopen_from
fopen_from_found fuel name mode given root i memory found = rw (found, memory, fopen_from) refl

fopen_from_new :
    (fuel i : ℕ) (name mode : List ℕ) (given : Given) (root : Root)
    → given.entry ≡ true
    → find_file 256 0 name root ≡ none
    → is_zero (strcmp mode (b'r' ∷ [])) ≡ false
    → find_free 256 0 root ≡ some i
    → fopen_from (suc fuel) name mode given root
      ≡ fopen_from fuel name mode given (add_entry i name given.at_null root)
unfolding fopen_from
fopen_from_new fuel i name mode given root memory missing writes free =
    rw (missing, fopen_from, writes, free) (simp memory refl)

-- Where there is memory, `fopen` opens the first file that its name finds.
pub fopen_found :
    (name mode : List ℕ) (given : Given) (root : Root) (i : ℕ)
    → given.structs ≡ true
    → find_file 256 0 name root ≡ some i
    → fopen name mode given root
      ≡ some (some (create_file, record { root = root; entry = i; pos = 0 }), root, [])
unfolding fopen
fopen_found name mode given root i memory found =
    fopen_from_found 256 name mode given root i memory found

-- Where there is memory and a free place in the table, `fopen` in a mode other than r makes a file for
-- a name that it does not find, at that place, and opens it.
pub fopen_new :
    (name mode : List ℕ) (given : Given) (root : Root) (i : ℕ)
    → given.entry ≡ true
    → given.structs ≡ true
    → length name ≤ 256
    → find_file 256 0 name root ≡ none
    → find_free 256 0 root ≡ some i
    → is_zero (strcmp mode (b'r' ∷ [])) ≡ false
    → let root' = add_entry i name given.at_null root in
      fopen name mode given root
      ≡ some (some (create_file, record { root = root'; entry = i; pos = 0 }), root', [])
unfolding fopen
fopen_new name mode given root i memory structs short missing free writes =
    fopen_from_new 256 i name mode given root memory missing writes free
    ∙ fopen_from_found 255 name mode given (add_entry i name given.at_null root) i structs
        (find_file-add_entry 256 0 i name given.at_null root short missing free)

fopen_from_full :
    (fuel : ℕ) (name mode : List ℕ) (given : Given) (root : Root)
    → find_file 256 0 name root ≡ none
    → find_free 256 0 root ≡ none
    → is_zero (strcmp mode (b'r' ∷ [])) ≡ false
    → fopen_from (suc fuel) name mode given root ≡ some (none, root, exceeded)
unfolding fopen_from
fopen_from_full fuel name mode given root missing full writes =
    rw (missing, fopen_from, writes, full) refl

-- Where no file has the name and all places are taken, `fopen` in a mode other than r gives null and
-- prints the error.
pub fopen_full :
    (name mode : List ℕ) (given : Given) (root : Root)
    → find_file 256 0 name root ≡ none
    → find_free 256 0 root ≡ none
    → is_zero (strcmp mode (b'r' ∷ [])) ≡ false
    → fopen name mode given root ≡ some (none, root, exceeded)
unfolding fopen
fopen_full name mode given root missing full writes =
    fopen_from_full 256 name mode given root missing full writes

-- The new file has no bytes.
pub add_entry-empty :
    (i : ℕ) (name : List ℕ) (fresh : Mem) (root : Root)
    → file_bytes (record { root = add_entry i name fresh root; entry = i; pos = 0 }) ≡ []
unfolding file_bytes add_entry new_entry bytes_at
add_entry-empty i name fresh root = let here : (i == i) ≡ true = ground arith in rw here refl

pub add_entry-ne :
    (i j : ℕ) (name : List ℕ) (fresh : Mem) (root : Root)
    → i ≢ j
    → (add_entry j name fresh root).entry i ≡ root.entry i
unfolding add_entry
add_entry-ne i j name fresh root ne = let other : (i == j) ≡ false = ground arith in rw other refl
