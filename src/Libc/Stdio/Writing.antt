-- ===== src/Libc/Stdio/Writing.antt =====
-- What `fwrite` of src/libc/stdio.c adds to a file.
use mathlib.Core.List.{append-nil, append_assoc}
use native.Mathlib.Nat.{suc-mul, add_comm}
use jiauliyan_os.Base.{
  ℕ, zero, suc, ◌+◌, ◌*◌, ◌%◌, ◌≤◌, ◌<◌, ◌≡◌, refl, ap, sym, ◌∙◌, true, List, [], ◌∷◌, ◌++◌, Option,
  some, arith, ◌==◌, if◌then◌else◌, length, length-append,
}
use jiauliyan_os.Memory.{Mem}
use jiauliyan_os.Drivers.Buffer.{length-bytes_at, bytes_at}
use jiauliyan_os.Kernel.Stream.{StreamOps, stream_putchar}
use jiauliyan_os.Libc.Stdio.{File, fputc, write_item, write_items, fwrite}
use jiauliyan_os.Libc.Stdio.Laws.{ByteFile}

bytes_at-append :
    (m : Mem) (p n k : ℕ) → bytes_at m p (n + k) ≡ bytes_at m p n ++ bytes_at m (p + n) k
unfolding bytes_at
bytes_at-append m p zero k =
    let start : p + 0 ≡ p = omega arith in
    let count : 0 + k ≡ k = omega arith in rw (start, count) refl
bytes_at-append m p (suc n) k =
    let there : p + suc n ≡ p + 1 + n = omega arith in
    let count : suc n + k ≡ suc (n + k) = omega arith in
    rw (there, count) (ap (λ l. m p ∷ l) (bytes_at-append m (p + 1) n k))

module _ {S : Type 0} (ops : StreamOps S) (file : ByteFile ops) where
  -- The place is the end.
  abbrev pub AtEnd : S → Type 0
  AtEnd s = file.place s ≡ length (file.contents s)

  length-snoc : (xs : List ℕ) (c : ℕ) → length (xs ++ c ∷ []) ≡ length xs + 1
  length-snoc xs c = length-append xs (c ∷ [])

  -- The stream has room for so many bytes more.
  abbrev pub HasRoom : ℕ → S → Type 0
  HasRoom n s = length (file.contents s) + n ≤ file.room s

  put_AtEnd : (s : S) (c : ℕ) → AtEnd s → HasRoom 1 s → AtEnd ((ops.put c s).1)
  put_AtEnd s c e h =
      file.put_place s c
      ∙ ap (λ n. n + 1) e
      ∙ sym (ap length (file.put_end s c e (omega arith)) ∙ length-snoc (file.contents s) c)

  fputc_lem :
      (c : ℕ) (w : File × S)
      → (w.0).opened ≡ true
      → c < 256
      → let r = fputc ops c w in
        (r.0 ≡ some 1) × (((r.1).0).opened ≡ true) × ((r.1).1 ≡ (ops.put c (w.1)).1)
  unfolding fputc stream_putchar
  fputc_lem c w is_open small =
      let same : c % 256 % 256 ≡ c = omega arith in rw (is_open, same) (refl, refl, refl)

  -- After some bytes: the file is still open, the bytes are at its end, and so is the place; the room
  -- is the same.
  abbrev pub Wrote : File × S → List ℕ → File × S → Type 0
  Wrote w bs w' =
      ((w'.0).opened ≡ true)
      × (file.contents (w'.1) ≡ file.contents (w.1) ++ bs)
      × AtEnd (w'.1)
      × (file.room (w'.1) ≡ file.room (w.1))

  HasRoom-left :
      (w w' : File × S) (bs : List ℕ) (k n : ℕ)
      → Wrote w bs w'
      → length bs ≡ k
      → HasRoom (k + n) (w.1)
      → HasRoom n (w'.1)
  HasRoom-left w w' bs k n (o, a, e, r) count h =
      let longer = ap length a ∙ length-append (file.contents (w.1)) bs in
      omega (arith, longer, r, count)

  fputc-Wrote :
      (c : ℕ) (w : File × S)
      → (w.0).opened ≡ true
      → c < 256
      → AtEnd (w.1)
      → HasRoom 1 (w.1)
      → Wrote w (c ∷ []) ((fputc ops c w).1)
  fputc-Wrote c w is_open small e h =
      let (one, still, next) = fputc_lem c w is_open small in
      (
        still,
        rw next (file.put_end (w.1) c e (omega arith)),
        rw next (put_AtEnd (w.1) c e h),
        rw next (file.put_room (w.1) c e (omega arith)),
      )

  Wrote-trans :
      (w w' w'' : File × S) (bs cs : List ℕ)
      → Wrote w bs w'
      → Wrote w' cs w''
      → Wrote w (bs ++ cs) w''
  Wrote-trans w w' w'' bs cs (o, a, e, r) (o', a', e', r') =
      (o', a' ∙ ap (λ l. l ++ cs) a ∙ append_assoc (file.contents (w.1)) bs cs, e', r' ∙ r)

  write_item_lem :
      (n p : ℕ) (b : Option ℕ) (m : Mem) (w : File × S)
      → (w.0).opened ≡ true
      → ((x : ℕ) → m x < 256)
      → AtEnd (w.1)
      → HasRoom n (w.1)
      → let r = write_item ops p n b m w in
        (r.0 ≡ (if n == 0 then b else some 1)) × Wrote w (bytes_at m p n) (r.1)
  unfolding write_item bytes_at
  write_item_lem zero p b m w is_open small e h =
      (refl, (is_open, sym (append-nil (file.contents (w.1))), e, refl))
  write_item_lem (suc n) p b m w is_open small e h =
      let (one, still, next) = fputc_lem (m p) w is_open (small p) in
      let w' = (fputc ops (m p) w).1 in
      let first = fputc-Wrote (m p) w is_open (small p) e (omega arith) in
      let left = HasRoom-left w w' (m p ∷ []) 1 n first refl (omega arith) in
      let (last, more) = write_item_lem n (p + 1) (some 1) m w' still small (first.2) left in
      rw (one, write_item)
        (
          last ∙ same_one n,
          Wrote-trans w w' ((write_item ops (p + 1) n (some 1) m w').1) (m p ∷ [])
              (bytes_at m (p + 1) n) first more,
        )
    where
      same_one : (k : ℕ) → (if k == 0 then some 1 else some 1) ≡ (if suc k == 0 then b else some 1)
      same_one k = ground arith

  write_items_lem :
      (n p size i : ℕ) (b : Option ℕ) (m : Mem) (w : File × S)
      → (w.0).opened ≡ true
      → ((x : ℕ) → m x < 256)
      → AtEnd (w.1)
      → 1 ≤ size
      → HasRoom (n * size) (w.1)
      → let r = write_items ops p size n i b m w in
        (r.0 ≡ i + n) × Wrote w (bytes_at m p (n * size)) (r.1)
  unfolding write_items bytes_at
  write_items_lem zero p size i b m w is_open small e h fits =
      let none_left : 0 * size ≡ 0 = omega arith in
      rw none_left (omega arith, (is_open, sym (append-nil (file.contents (w.1))), e, refl))
  write_items_lem (suc n) p size i b m w is_open small e h fits =
      let whole : suc n * size ≡ size + n * size = suc-mul n size ∙ add_comm (n * size) size in
      let fits' : HasRoom (size + n * size) (w.1) = rw whole at fits in
      let (last, first) = write_item_lem size p b m w is_open small e (omega arith) in
      let w' = (write_item ops p size b m w).1 in
      let got : (write_item ops p size b m w).0 ≡ some 1 = ground (arith, last) in
      let (count, more) =
        write_items_lem n (p + size) size (i + 1) (some 1) m w' (first.0) small (first.2) h (
          HasRoom-left w w' (bytes_at m p size) size (n * size) first (length-bytes_at m p size)
            fits') in
      rw (got, write_items, whole, bytes_at-append m p size (n * size))
        (
          omega (arith, count),
          Wrote-trans w w' ((write_items ops (p + size) size n (i + 1) (some 1) m w').1)
              (bytes_at m p size) (bytes_at m (p + size) (n * size)) first more,
        )

  -- From the end of an open file that has room for them, `fwrite` adds the bytes of all its items, and
  -- gives their number.
  pub fwrite_lem :
      (b : Option ℕ) (ptr size nmemb : ℕ) (m : Mem) (w : File × S)
      → (w.0).opened ≡ true
      → ((x : ℕ) → m x < 256)
      → AtEnd (w.1)
      → 1 ≤ size
      → HasRoom (nmemb * size) (w.1)
      → let r = fwrite ops b ptr size nmemb m w in
        (r.0 ≡ nmemb) × Wrote w (bytes_at m ptr (nmemb * size)) (r.1)
  unfolding fwrite
  fwrite_lem b ptr size nmemb m w is_open small e h fits =
      let (count, all) = write_items_lem nmemb ptr size 0 b m w is_open small e h fits in
      (omega (arith, count), all)
