-- ===== src/Libc/Stdio/Reading.antt =====
-- What `fread` of src/libc/stdio.c stores.
use native.Mathlib.Nat.{suc-mul, add_comm}
use jiauliyan_os.Base.{
  ℕ, zero, suc, ◌+◌, ◌-◌, ◌*◌, ◌≤◌, ◌<◌, ◌≡◌, refl, ap, ◌∙◌, Bool-cases, inl, inr, true, List, [],
  ◌∷◌, Option, none, some, arith, ltb, ◌==◌, length, get_elem?,
}
use jiauliyan_os.Base.Int
use jiauliyan_os.Base.Int.{◌+ℤ◌}
use jiauliyan_os.Memory.{Mem, write}
use jiauliyan_os.Kernel.Stream.{StreamOps}
use jiauliyan_os.Libc.Stdio.{File, fgetc, read_item, read_items, fread}
use jiauliyan_os.Libc.Stdio.Laws.{ByteFile}

get_inside : (xs : List ℕ) (i : ℕ) → i < length xs → (c : ℕ) × (get_elem? xs i ≡ some c)
get_inside [] i h = absurd (omega arith)
get_inside (x ∷ xs) zero h = (x, refl)
get_inside (x ∷ xs) (suc i) h = get_inside xs i (omega arith)

module _ {S : Type 0} (ops : StreamOps S) (file : ByteFile ops) where
  -- The file is open and no byte is held.
  abbrev pub IsFree : File × S → Type 0
  IsFree w = ((w.0).opened ≡ true) × ((w.0).hold ≡ none)

  -- From one state to the next the stream moved on by `n` bytes.
  abbrev pub Moved : ℕ → File × S → File × S → Type 0
  Moved n w w' =
      IsFree w'
      × (file.contents (w'.1) ≡ file.contents (w.1))
      × (file.place (w'.1) ≡ file.place (w.1) + n)

  -- The `n` bytes from `p` on are the file's from the place on, and those before `p` are as before.
  abbrev pub Stored : ℕ → ℕ → Mem → Mem → File × S → Type 0
  Stored p n m m' w =
      ((i : ℕ) → i < n → get_elem? (file.contents (w.1)) (file.place (w.1) + i) ≡ some (m' (p + i)))
      × ((x : ℕ) → x < p → m' x ≡ m x)

  pub fgetc_open :
      (w : File × S)
      → (w.0).opened ≡ true
      → (w.0).hold ≡ none
      → fgetc ops w ≡ (
        (ops.get (w.1)).0,
        (
          elim ((ops.get (w.1)).0) [
            | none ↦ record (w.0) { pos = (w.0).pos +ℤ Int.pos 1; eof = true }
            | some c ↦ record (w.0) { pos = (w.0).pos +ℤ Int.pos 1 }
          ],
          (ops.get (w.1)).1,
        ),
      )
  unfolding fgetc
  fgetc_open w is_open free = simp (is_open, free) refl

  pub fgetc_lem :
      (w : File × S)
      → IsFree w
      → file.place (w.1) < length (file.contents (w.1))
      → let r = fgetc ops w in
        (c : ℕ) × (r.0 ≡ some c)
        × (get_elem? (file.contents (w.1)) (file.place (w.1)) ≡ some c)
        × Moved 1 w (r.1)
  fgetc_lem w (is_open, free) h =
      let (c, e) = get_inside (file.contents (w.1)) (file.place (w.1)) h in
      let got : (ops.get (w.1)).0 ≡ some c = file.get_byte (w.1) ∙ e in
      rw (fgetc_open w is_open free, got)
        (c, refl, e, ((is_open, free), file.get_contents (w.1), file.get_place (w.1) h))

  read_item_lem :
      (n p : ℕ) (b : Option ℕ) (m : Mem) (w : File × S)
      → IsFree w
      → file.place (w.1) + n ≤ length (file.contents (w.1))
      → let r = read_item ops p n b (m, w) in
        (n ≡ 0 → r.0 ≡ b)
        × (1 ≤ n → (c : ℕ) × (r.0 ≡ some c))
        × Moved n w ((r.1).1)
        × Stored p n m ((r.1).0) w
  unfolding read_item
  read_item_lem zero p b m w free h = (
    λ e. refl,
    λ k. absurd (omega arith),
    (free, refl, omega arith),
    (λ i k. absurd (omega arith), λ x k. refl),
  )
  read_item_lem (suc n) p b m w free h =
      let (c, got, here, moved) = fgetc_lem w free (omega arith) in
      let w' = (fgetc ops w).1 in
      let (mfree, same, on) = moved in
      let room : file.place (w'.1) + n ≤ length (file.contents (w'.1)) =
        omega (arith, on, ap length same) in
      let (none_left, some_left, rest, (stored, kept)) =
        read_item_lem n (p + 1) (some c) (write m p c) w' mfree room in
      let r = read_item ops (p + 1) n (some c) (write m p c, w') in
      let m' = (r.1).0 in
      let first : m' p ≡ c = kept p (omega arith) ∙ ground arith in
      rw (got, read_item)
        (
          λ e. absurd (omega arith),
          λ k. elim (Bool-cases (n == 0)) [
            | inl z ↦ (c, none_left (ground arith))
            | inr z ↦ some_left (ground arith)
          ],
          (rest.0, rest.1 ∙ same, omega (arith, on, rest.2)),
          (
            λ i k. elim (Bool-cases (i == 0)) [
              | inl z ↦ ground (arith, here, first)
              | inr z ↦ ground (arith, stored (i - 1) (ground arith), same, on)
            ],
            λ x k. kept x (omega arith) ∙ ground arith,
          ),
        )

  Stored-more :
      (p j k : ℕ) (m m₁ m₂ : Mem) (w w' : File × S)
      → Stored p j m m₁ w
      → Moved j w w'
      → Stored (p + j) k m₁ m₂ w'
      → Stored p (j + k) m m₂ w
  Stored-more p j k m m₁ m₂ w w' (a, keep) (free, same, on) (a', keep') = (
    λ i h. elim (Bool-cases (ltb i j)) [
      | inl early ↦ ground (arith, a i (ground arith), keep' (p + i) (ground arith))
      | inr late ↦
          let there : p + j + (i - j) ≡ p + i = ground arith in
          ground (arith, a' (i - j) (ground arith), same, on, there)
    ],
    λ x h. keep' x (omega arith) ∙ keep x h,
  )

  read_items_lem :
      (n p size i : ℕ) (b : Option ℕ) (m : Mem) (w : File × S)
      → IsFree w
      → 1 ≤ size
      → file.place (w.1) + n * size ≤ length (file.contents (w.1))
      → let r = read_items ops p size n i b (m, w) in
        (r.0 ≡ i + n) × Moved (n * size) w ((r.1).1) × Stored p (n * size) m ((r.1).0) w
  unfolding read_items
  read_items_lem zero p size i b m w free h room =
      let none_left : 0 * size ≡ 0 = omega arith in
      rw none_left
        (omega arith, (free, refl, omega arith), (λ j k. absurd (omega arith), λ x k. refl))
  read_items_lem (suc n) p size i b m w free h room =
      let whole : suc n * size ≡ size + n * size = suc-mul n size ∙ add_comm (n * size) size in
      let (none_left, some_left, moved, stored) =
        read_item_lem size p b m w free (omega (arith, whole)) in
      let (c, got) = some_left h in
      let r = (read_item ops p size b (m, w)).1 in
      let (mfree, same, on) = moved in
      let (count, moved', stored') =
        read_items_lem n (p + size) size (i + 1) (some c) (r.0) (r.1) mfree h
          (omega (arith, whole, on, ap length same)) in
      let r' = (read_items ops (p + size) size n (i + 1) (some c) (r.0, r.1)).1 in
      rw (got, read_items, whole)
        (
          omega (arith, count),
          (moved'.0, moved'.1 ∙ same, omega (arith, on, moved'.2)),
          Stored-more p size (n * size) m (r.0) (r'.0) w (r.1) stored moved stored',
        )

  -- Where the file has enough bytes, `fread` stores all its items and gives their number.
  pub fread_lem :
      (b : Option ℕ) (ptr size nmemb : ℕ) (m : Mem) (w : File × S)
      → IsFree w
      → 1 ≤ size
      → file.place (w.1) + nmemb * size ≤ length (file.contents (w.1))
      → let r = fread ops b ptr size nmemb (m, w) in
        (r.0 ≡ nmemb) × Moved (nmemb * size) w ((r.1).1) × Stored ptr (nmemb * size) m ((r.1).0) w
  unfolding fread
  fread_lem b ptr size nmemb m w free h room =
      let (count, moved, stored) = read_items_lem nmemb ptr size 0 b m w free h room in
      (omega (arith, count), moved, stored)
