-- ===== src/Kernel/Lua/Laws.antt =====
-- What the functions of src/kernel/lua_kernel.c give to a script.
use jiauliyan_os.Base.{
  ℕ, zero, suc, ◌≤◌, ◌<◌, ◌≡◌, refl, sym, ◌∙◌, ap, inl, inr, true, false, Bool-cases, List, [], ◌∷◌,
  ◌++◌, Option, none, some, ◌==◌, length, take, drop, take-append-drop, get_or, arith,
}
use jiauliyan_os.Libc.Number.{isspace}
use jiauliyan_os.Drivers.Buffer.{length-bytes_at}
use jiauliyan_os.Drivers.Serial.{Serial, serialin_get, serialin_avail}
use jiauliyan_os.Drivers.Serial.Laws.{pending, Got, serialin_get-Got}
use jiauliyan_os.Kernel.Lua.{trim_front, trim_end, lua_trim, receive_from, lua_serial_receive_all}

length-pending : (s : Serial) → length (pending s) ≡ s.serial_buf_len
unfolding pending
length-pending s = length-bytes_at s.vga.mem s.serial_buf s.serial_buf_len

-- One read of a loop that has `n` more to do.
receive_step :
    (n : ℕ) (s : Serial) (r : Option ℕ × Serial)
    → Got s r
    → length (pending s) ≡ suc n
    → ((s' : Serial)
        → length (pending s') ≡ n
        → ((receive_from n s').0 ≡ pending s') × (pending (receive_from n s').1 ≡ []))
    → ((elim r.0 [ none ↦ 255 | some c ↦ c ] ∷ (receive_from n r.1).0) ≡ pending s)
      × (pending (receive_from n r.1).1 ≡ [])
receive_step n s (none, s') (e, e') len rest = absurd (omega (arith, ap length e))
receive_step n s (some c, s') e len rest =
    let (bytes, empty) = rest s' (omega (arith, ap length e)) in
    (ap (λ t. c ∷ t) bytes ∙ sym e, empty)

receive_lem :
    (n : ℕ) (s : Serial)
    → length (pending s) ≡ n
    → ((receive_from n s).0 ≡ pending s) × (pending (receive_from n s).1 ≡ [])
unfolding receive_from
receive_lem zero s e = (sym (empty (pending s) e), empty (pending s) e)
  where
    empty : (xs : List ℕ) → length xs ≡ 0 → xs ≡ []
    empty [] e = refl
    empty (x ∷ xs) e = absurd (omega arith)
receive_lem (suc n) s e = receive_step n s (serialin_get s) (serialin_get-Got s) e (receive_lem n)

-- The binding `receive_all` gives a script the bytes that wait at the serial port, oldest first, and
-- leaves none.
pub lua_serial_receive_all_lem :
    (s : Serial)
    → ((lua_serial_receive_all s).0 ≡ pending s) × (pending (lua_serial_receive_all s).1 ≡ [])
unfolding lua_serial_receive_all serialin_avail
lua_serial_receive_all_lem s = receive_lem s.serial_buf_len s (length-pending s)

abbrev pub AllSpace : List ℕ → Type 0
AllSpace [] = Unit
AllSpace (c ∷ text) = (isspace c ≡ true) × AllSpace text

trim_front_lem :
    (text : List ℕ) → (front : List ℕ) × (AllSpace front × (text ≡ front ++ trim_front text))
unfolding trim_front
trim_front_lem [] = ([], (tt, refl))
trim_front_lem (c ∷ text) = elim (Bool-cases (isspace c)) [
  | inl space ↦
      let (front, (all, e)) = trim_front_lem text in
      (c ∷ front, ((space, all), rw space (ap (λ r. c ∷ r) e)))
  | inr other ↦ ([], (tt, rw other refl))
]

-- No space stands at the beginning, and none at the end.
abbrev pub StartsPlain : List ℕ → Type 0
StartsPlain [] = Unit
StartsPlain (c ∷ text) = isspace c ≡ false

abbrev pub EndsPlain : List ℕ → Type 0
EndsPlain [] = Unit
EndsPlain (c ∷ []) = isspace c ≡ false
EndsPlain (c ∷ d ∷ text) = EndsPlain (d ∷ text)

trim_front-StartsPlain : (text : List ℕ) → StartsPlain (trim_front text)
unfolding trim_front
trim_front-StartsPlain [] = tt
trim_front-StartsPlain (c ∷ text) = elim (Bool-cases (isspace c)) [
  | inl space ↦ rw space (trim_front-StartsPlain text)
  | inr other ↦ rw other other
]

trim_end_bound : (size : ℕ) (text : List ℕ) → trim_end size text ≤ size
unfolding trim_end
trim_end_bound zero text = omega arith
trim_end_bound (suc size) text = let rest = trim_end_bound size text in ground arith

trim_end_spaces :
    (size i : ℕ) (text : List ℕ)
    → trim_end size text ≤ i
    → i < size
    → isspace (get_or text i 0) ≡ true
unfolding trim_end
trim_end_spaces zero i text low high = absurd (omega arith)
trim_end_spaces (suc size) i text low high = elim (Bool-cases (isspace (get_or text size 0))) [
  | inl space ↦ elim (Bool-cases (i == size)) [
    | inl last ↦ let e : i ≡ size = ground arith in rw e space
    | inr before ↦ trim_end_spaces size i text (rw space at low) (ground arith)
  ]
  | inr other ↦ absurd (omega (arith, rw other at low))
]

trim_end_edge :
    (size k : ℕ) (text : List ℕ) → trim_end size text ≡ suc k → isspace (get_or text k 0) ≡ false
unfolding trim_end
trim_end_edge zero k text e = absurd (omega arith)
trim_end_edge (suc size) k text e = elim (Bool-cases (isspace (get_or text size 0))) [
  | inl space ↦ trim_end_edge size k text (rw space at e)
  | inr other ↦ let same : size ≡ k = omega (arith, rw other at e) in rw (sym same) other
]

drop-AllSpace :
    (k : ℕ) (text : List ℕ)
    → ((i : ℕ) → k ≤ i → i < length text → isspace (get_or text i 0) ≡ true)
    → AllSpace (drop k text)
drop-AllSpace zero [] h = tt
drop-AllSpace zero (c ∷ text) h = (
  h zero (omega arith) (omega arith),
  drop-AllSpace zero text (λ i low high. h (suc i) (omega arith) (omega arith)),
)
drop-AllSpace (suc k) [] h = tt
drop-AllSpace (suc k) (c ∷ text) h =
    drop-AllSpace k text (λ i low high. h (suc i) (omega arith) (omega arith))

take-EndsPlain :
    (k : ℕ) (text : List ℕ)
    → k < length text
    → isspace (get_or text k 0) ≡ false
    → EndsPlain (take (suc k) text)
take-EndsPlain k [] h plain = absurd (omega arith)
take-EndsPlain zero (c ∷ text) h plain = plain
take-EndsPlain (suc k) (c ∷ []) h plain = absurd (omega arith)
take-EndsPlain (suc k) (c ∷ d ∷ text) h plain = take-EndsPlain k (d ∷ text) (omega arith) plain

take-StartsPlain : (k : ℕ) (text : List ℕ) → StartsPlain text → StartsPlain (take k text)
take-StartsPlain zero text plain = tt
take-StartsPlain (suc k) [] plain = tt
take-StartsPlain (suc k) (c ∷ text) plain = plain

-- What is left is the text without the spaces at both ends.
pub record IsTrimmed (text r : List ℕ) : Type 0 where
  pub front : List ℕ
  pub back : List ℕ
  pub around : text ≡ front ++ (r ++ back)
  pub front_space : AllSpace front
  pub back_space : AllSpace back
  pub start : StartsPlain r
  pub end : EndsPlain r

end_plain : (k : ℕ) (text : List ℕ) → trim_end (length text) text ≡ k → EndsPlain (take k text)
end_plain zero text e = tt
end_plain (suc k) text e =
    let bound = trim_end_bound (length text) text in
    take-EndsPlain k text (omega arith) (trim_end_edge (length text) k text e)

-- The binding `trim` gives the text without the spaces at its beginning and end: what it leaves away
-- is all spaces, and what it gives neither begins nor ends with one.
pub lua_trim-IsTrimmed : (text : List ℕ) → IsTrimmed text (lua_trim text)
unfolding lua_trim
lua_trim-IsTrimmed text =
    let rest = trim_front text in
    let k = trim_end (length rest) rest in
    let (front, (all, e)) = trim_front_lem text in
    record {
      front = front;
      back = drop k rest;
      around = e ∙ ap (λ t. front ++ t) (sym (take-append-drop k rest));
      front_space = all;
      back_space =
          drop-AllSpace k rest (λ i low high. trim_end_spaces (length rest) i rest low high);
      start = take-StartsPlain k rest (trim_front-StartsPlain text);
      end = end_plain k rest refl;
    }
