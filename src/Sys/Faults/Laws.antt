-- ===== src/Sys/Faults/Laws.antt =====
-- What `fault_handler` of src/sys/isrs.c leaves on the screen.
use jiauliyan_os.Base.{
  ℕ, zero, suc, ◌<◌, ◌%◌, ◌≡◌, refl, Bool, true, ◌&&◌, List, [], ◌∷◌, ltb, get_or, arith,
}
use jiauliyan_os.Drivers.Vga.{Vga, vga_putchar, vgaout_put}
use jiauliyan_os.Drivers.Vga.Cursor.{IsValid}
use jiauliyan_os.Drivers.Vga.Refine.{Terminal, Shows}
use jiauliyan_os.Drivers.Vga.Clear.{AllBytes, emit_text, put_text_refines}
use jiauliyan_os.Drivers.Vga.Clear
use jiauliyan_os.Kernel.Stream.{stream_putchar, stream_putstring, put_text}
use jiauliyan_os.Sys.Faults.{vgaout, exception_messages, system_halted, fault_handler}

-- The stream routine feeds the screen byte by byte.
put_text-vgaout : (cs : List ℕ) (s : Vga) → AllBytes cs → put_text vgaout cs s ≡ Clear.put_text cs s
unfolding put_text Clear.put_text stream_putchar vgaout vgaout_put
put_text-vgaout [] s small = refl
put_text-vgaout (c ∷ cs) s (b, small) =
    let same : c % 256 ≡ c = omega arith in rw same (put_text-vgaout cs (vga_putchar c s) small)

are_bytes : List ℕ → Bool
are_bytes [] = true
are_bytes (c ∷ cs) = ltb c 256 && are_bytes cs

are_bytes_lem : (cs : List ℕ) → are_bytes cs ≡ true → AllBytes cs
unfolding are_bytes
are_bytes_lem [] e = tt
are_bytes_lem (c ∷ cs) e = (ground (arith, e), are_bytes_lem cs (ground (arith, e)))

texts_are_bytes : List (List ℕ) → Bool
texts_are_bytes [] = true
texts_are_bytes (t ∷ ts) = are_bytes t && texts_are_bytes ts

text_AllBytes : (ts : List (List ℕ)) (i : ℕ) → texts_are_bytes ts ≡ true → AllBytes (get_or ts i [])
unfolding texts_are_bytes
text_AllBytes [] i e = tt
text_AllBytes (t ∷ ts) zero e = are_bytes_lem t (ground (arith, e))
text_AllBytes (t ∷ ts) (suc i) e = text_AllBytes ts i (ground (arith, e))

messages_are_bytes : texts_are_bytes exception_messages ≡ true
unfolding texts_are_bytes are_bytes exception_messages
messages_are_bytes = refl

-- On a screen that shows a terminal, with its cursor on it, `fault_handler` ends in its endless loop
-- for an exception, a number below 32, and the screen then shows the terminal after the exception's
-- message and the notice that the system is halted.
pub fault_handler-Shows :
    (int_no : ℕ) (s : Vga) (t : Terminal)
    → int_no < 32
    → IsValid s
    → Shows s t
    → let r = fault_handler int_no s in
      let told = emit_text (get_or exception_messages int_no []) t in
      (r.0 ≡ true) × Shows (r.1) (emit_text system_halted told) × IsValid (r.1)
unfolding fault_handler stream_putstring are_bytes
fault_handler-Shows int_no s t exception valid shows =
    let message = get_or exception_messages int_no [] in
    let on : ltb int_no 32 ≡ true = ground arith in
    let small = text_AllBytes exception_messages int_no messages_are_bytes in
    let small' = are_bytes_lem system_halted refl in
    let told = put_text_refines message small valid shows in
    let halted = put_text_refines system_halted small' (told.1) (told.0) in
    rw
      (
        on,
        put_text-vgaout message s small,
        put_text-vgaout system_halted (Clear.put_text message s) small',
      )
      (refl, halted.0, halted.1)
