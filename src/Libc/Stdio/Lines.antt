-- ===== src/Libc/Stdio/Lines.antt =====
-- What `fgets` of src/libc/stdio.c reads.
use jiauliyan_os.Base.{
  ℕ, zero, suc, ◌+◌, ◌≤◌, ◌≡◌, refl, ap, ap₂, subst, ◌∙◌, Bool-cases, inl, inr, true, List, [], ◌∷◌,
  none, some, arith, ltb, ◌==◌, if◌then◌else◌, length, get_elem?, drop,
}
use jiauliyan_os.Base.Int
use jiauliyan_os.Base.Int.{◌+ℤ◌}
use jiauliyan_os.Kernel.Stream.{StreamOps}
use jiauliyan_os.Libc.Stdio.{File, fgetc, line_from, fgets}
use jiauliyan_os.Libc.Stdio.Laws.{ByteFile}
use jiauliyan_os.Libc.Stdio.Reading.{IsFree, fgetc_open, fgetc_lem}

-- The first `n` bytes, and no more than the first line with its newline.
unfoldable pub first_line : ℕ → List ℕ → List ℕ
first_line zero bs = []
first_line (suc n) [] = []
first_line (suc n) (c ∷ bs) = if c == b'\n' then c ∷ [] else (c ∷ first_line n bs)

drop_end : (xs : List ℕ) (i : ℕ) → length xs ≤ i → (drop i xs ≡ []) × (get_elem? xs i ≡ none)
drop_end [] zero h = (refl, refl)
drop_end [] (suc i) h = (refl, refl)
drop_end (x ∷ xs) zero h = absurd (omega arith)
drop_end (x ∷ xs) (suc i) h = drop_end xs i (omega arith)

drop_next : (xs : List ℕ) (i c : ℕ) → get_elem? xs i ≡ some c → drop i xs ≡ c ∷ drop (suc i) xs
drop_next [] i c e = cc
drop_next (x ∷ xs) zero c e = let same : x ≡ c = ground arith in ap (λ d. d ∷ xs) same
drop_next (x ∷ xs) (suc i) c e = drop_next xs i c e

module _ {S : Type 0} (ops : StreamOps S) (file : ByteFile ops) where
  -- The bytes from the place on.
  abbrev pub left : S → List ℕ
  left s = drop (file.place s) (file.contents s)

  -- The stream has moved on by as many bytes as were read.
  abbrev pub ReadOn : File × S → List ℕ → File × S → Type 0
  ReadOn w line w' =
      ((w'.0).opened ≡ true)
      × (file.contents (w'.1) ≡ file.contents (w.1))
      × (file.place (w'.1) ≡ file.place (w.1) + length line)

  fgetc_end :
      (w : File × S)
      → IsFree ops file w
      → length (file.contents (w.1)) ≤ file.place (w.1)
      → ((fgetc ops w).0 ≡ none) × ReadOn w [] ((fgetc ops w).1)
  fgetc_end w (is_open, free) past =
      let (nothing, eof) = drop_end (file.contents (w.1)) (file.place (w.1)) past in
      let got : (ops.get (w.1)).0 ≡ none = file.get_byte (w.1) ∙ eof in
      let stay = file.get_stay (w.1) past in
      rw (fgetc_open ops file w is_open free, got)
        (refl, (is_open, file.get_contents (w.1), omega (arith, stay)))

  fgets_open :
      (n : ℕ) (w : File × S)
      → (w.0).opened ≡ true
      → let r = line_from ops n (record (w.0) { pos = (w.0).pos +ℤ Int.pos 1 }, w.1) in
        fgets ops n w ≡ (some (r.0), r.1)
  unfolding fgets
  fgets_open n w is_open = simp is_open refl

  line_from_lem :
      (n : ℕ) (w : File × S)
      → IsFree ops file w
      → let r = line_from ops n w in (r.0 ≡ first_line n (left (w.1))) × ReadOn w (r.0) (r.1)
  unfolding line_from first_line
  line_from_lem zero w (is_open, free) = (refl, (is_open, refl, omega arith))
  line_from_lem (suc n) w (is_open, free) =
      elim (Bool-cases (ltb (file.place (w.1)) (length (file.contents (w.1))))) [
        | inr over ↦
            let past : length (file.contents (w.1)) ≤ file.place (w.1) = ground arith in
            let (nothing, eof) = drop_end (file.contents (w.1)) (file.place (w.1)) past in
            let (got, on) = fgetc_end w (is_open, free) past in
            rw (got, line_from, nothing) (refl, on)
        | inl inside ↦
            let (c, got, here, moved) = fgetc_lem ops file w (is_open, free) (ground arith) in
            let (free', same, on) = moved in
            let next = drop_next (file.contents (w.1)) (file.place (w.1)) c here in
            let w' = (fgetc ops w).1 in
            let forth : file.place (w'.1) ≡ suc (file.place (w.1)) = omega (arith, on) in
            let after : left (w'.1) ≡ drop (suc (file.place (w.1))) (file.contents (w.1)) =
              ap₂ (λ (i : ℕ) (l : List ℕ). drop i l) forth same in
            elim (Bool-cases (c == b'\n')) [
              | inl stop ↦ rw (got, next, line_from, stop) (refl, (free'.0, same, on))
              | inr more ↦
                  let (text, (is_open', same', on')) = line_from_lem n w' free' in
                  rw (got, next, line_from, more)
                    (
                      ap (λ l. c ∷ l) (text ∙ ap (first_line n) after),
                      (is_open', same' ∙ same, omega (arith, on, on')),
                    )
            ]
      ]

  -- On an open FILE that holds no byte, over a file of bytes, `fgets` gives the bytes from the place
  -- on, at most `n` and none behind the first newline, and moves on by as many; the file's bytes stay.
  pub fgets_lem :
      (n : ℕ) (w : File × S)
      → IsFree ops file w
      → let r = fgets ops n w in
        let line = first_line n (left (w.1)) in (r.0 ≡ some line) × ReadOn w line (r.1)
  fgets_lem n w (is_open, free) =
      let f : File = record (w.0) { pos = (w.0).pos +ℤ Int.pos 1 } in
      let (text, on) = line_from_lem n (f, w.1) (is_open, free) in
      let on' : ReadOn w (first_line n (left (w.1))) ((line_from ops n (f, w.1)).1) =
        subst (λ l. ReadOn w l ((line_from ops n (f, w.1)).1)) text on in
      rw (fgets_open n w is_open) (ap some text, on')
