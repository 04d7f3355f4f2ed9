-- ===== src/Kernel/Start.antt =====
-- The kernel's program (`kernel_start` of src/kernel/kernel.c). The Lua interpreter is a parameter, and so is what
-- the formatting and the files have for parameters.
use jiauliyan_os.Base.{ℕ, ◌%◌, true, false, List, [], ◌∷◌, Option, none, some, ◌>>=◌, ◌==◌}
use jiauliyan_os.Base.Int.{pos}
use jiauliyan_os.Memory.{Mem}
use jiauliyan_os.Drivers.Ram.{Ram}
use jiauliyan_os.Drivers.Vga.{Vga, vga_setbg, vga_setfg, vga_cls}
use jiauliyan_os.Sys.Faults.{vgaout}
use jiauliyan_os.Kernel.Stream.{Bytestream, Outside}
use jiauliyan_os.Kernel.Directive.Read.{word, string}
use jiauliyan_os.Kernel.Directive.{stream_vformat}
use jiauliyan_os.Kernel.Format.{int_div}
use jiauliyan_os.Libc.Stdio.{File, FileOutside, Given, Root, fputc, fputs}
use jiauliyan_os.Libc.Printf.{printf, fprintf}
use jiauliyan_os.Libc.Stubs.{exit}
use jiauliyan_os.Kernel.Files
use jiauliyan_os.Kernel.Files.{Script, load_scripts}

-- The screen, the FILE of stdout and stderr, and the table of files. The memory is the screen's.
pub record Machine : Type 0 where
  pub vga : Vga
  pub out : File
  pub root : Root

-- The interpreter with a state `L`: `lua_open` with the libraries and the kernel's own, `luaL_dofile` with its
-- result, the text at the top of its stack, the call of `cli`, which may not return, and `lua_close`.
pub record Lua (L : Type 0) : Type 0 where
  pub open_all : Machine → L × Machine
  pub dofile : List ℕ → L × Machine → ℕ × (L × Machine)
  pub tostring : L → List ℕ
  pub cli : L × Machine → Option (L × Machine)
  pub close : L × Machine → Machine

-- It returned, or is in the endless loop of `exit`.
pub data Ended : Type 0 where
  returned : Machine → Ended
  exited : Machine → Ended

-- puts
pub puts : List ℕ → Machine → Machine
puts text s = let r = (fputs vgaout text (s.out, s.vga)).1 in record s { out = r.0; vga = r.1 }

pub putchar : ℕ → Machine → Machine
putchar c s = let r = (fputc vgaout c (s.out, s.vga)).1 in record s { out = r.0; vga = r.1 }

pub colour : ℕ → Machine → Machine
colour c s = record s { vga = vga_setfg c s.vga }

-- "Unable to run dkjson.lua: %s\n" and "Unable to run os.lua: %s\n"
abbrev pub unable_dkjson : List ℕ
unable_dkjson =
    b'U' ∷ b'n' ∷ b'a' ∷ b'b' ∷ b'l' ∷ b'e' ∷ b' ' ∷ b't' ∷ b'o' ∷ b' ' ∷ b'r' ∷ b'u' ∷ b'n' ∷ b' '
    ∷ b'd' ∷ b'k' ∷ b'j' ∷ b's' ∷ b'o' ∷ b'n' ∷ b'.' ∷ b'l' ∷ b'u' ∷ b'a' ∷ b':' ∷ b' ' ∷ b'%'
    ∷ b's' ∷ 0x0A ∷ []

abbrev pub unable_os : List ℕ
unable_os =
    b'U' ∷ b'n' ∷ b'a' ∷ b'b' ∷ b'l' ∷ b'e' ∷ b' ' ∷ b't' ∷ b'o' ∷ b' ' ∷ b'r' ∷ b'u' ∷ b'n' ∷ b' '
    ∷ b'o' ∷ b's' ∷ b'.' ∷ b'l' ∷ b'u' ∷ b'a' ∷ b':' ∷ b' ' ∷ b'%' ∷ b's' ∷ 0x0A ∷ []

module _ {D L : Type 0} (putdouble : D → ℕ → ℕ → Bytestream → Option Bytestream) (outside : Outside)
    (heap : ℕ → Mem) (lua : Lua L) where
  with_out : Machine → Option (File × Vga) → Option Machine
  with_out s none = none
  with_out s (some (f, vga)) = some (record s { out = f; vga = vga })

  -- `stream_putpointer(vgaout, p)`, which is `stream_format` with "%#p".
  pub put_pointer : ℕ → Machine → Option Machine
  put_pointer p s = do
    (ret, vga) ←
        stream_vformat vgaout putdouble outside heap (b'%' ∷ b'#' ∷ b'p' ∷ []) (word p ∷ []) s.vga
    some (record s { vga = vga })

  -- "Memory start: %p (%d Mb)\n"
  pub print_memory : Ram → Machine → Option Machine
  print_memory ram s = do
    (ret, out) ←
        printf putdouble outside heap vgaout (s.out, s.vga)
          (b'M' ∷ b'e' ∷ b'm' ∷ b'o' ∷ b'r' ∷ b'y' ∷ b' ' ∷ b's' ∷ b't' ∷ b'a' ∷ b'r' ∷ b't' ∷ b':'
            ∷ b' ' ∷ b'%' ∷ b'p' ∷ b' ' ∷ b'(' ∷ b'%' ∷ b'd' ∷ b' ' ∷ b'M' ∷ b'b' ∷ b')' ∷ 0x0A
            ∷ [])
          (word ram.ptr ∷ word (int_div (int_div (ram.size % 4294967296) 1024) 1024) ∷ [])
    with_out s out

  -- A script that fails: a message, and `exit(EXIT_FAILURE)`.
  pub failed : List ℕ → L × Machine → Option Ended
  failed format (l, s) = do
    (ret, out) ←
        fprintf putdouble outside heap vgaout (some (s.out, s.vga)) format
          (string (some (lua.tostring l)) ∷ [])
    s' ← with_out s out
    out' ← exit putdouble outside heap vgaout (pos 1) (s'.out, s'.vga)
    s'' ← with_out s' out'
    some (exited s'')

  -- From `lua_open` to the end.
  pub run_lua : (dkjson_lua os_lua : List ℕ) → Machine → Option Ended
  run_lua dkjson_lua os_lua s =
      let dkjson = lua.dofile dkjson_lua (lua.open_all s) in
      let os = lua.dofile os_lua (dkjson.1) in
      elim (dkjson.0 == 0) [
        | false ↦ failed unable_dkjson (dkjson.1)
        | true ↦ elim (os.0 == 0) [
          | false ↦ failed unable_os (os.1)
          | true ↦ (do
            ended ← lua.cli (os.1)
            some (
                returned (
                  puts
                    (0x0A ∷ b'L' ∷ b'u' ∷ b'a' ∷ b' ' ∷ b'e' ∷ b'x' ∷ b'e' ∷ b'c' ∷ b'u' ∷ b't'
                      ∷ b'i' ∷ b'o' ∷ b'n' ∷ b' ' ∷ b'f' ∷ b'i' ∷ b'n' ∷ b'i' ∷ b's' ∷ b'h' ∷ b'e'
                      ∷ b'd' ∷ b'.' ∷ 0x0A ∷ 0x0A ∷ [])
                    (colour 10 (lua.close ended)))))
        ]
      ]

  -- What is in front of it: the greeting, the two scripts, and the notice that Lua starts. `address` is that of
  -- `kernel_start`; `b`, `files`, `given` and `given'` belong to the loading of the scripts.
  pub greet : (address : ℕ) → Ram → Machine → Option Machine
  greet address ram s =
      let s0 : Machine = record s { vga = vga_cls (vga_setbg 8 s.vga) } in
      let s1 =
        puts
          (b'J' ∷ b'i' ∷ b'a' ∷ b'u' ∷ b'l' ∷ b'i' ∷ b'y' ∷ b'a' ∷ b'n' ∷ b' ' ∷ b'O' ∷ b'S' ∷ 0x0A
            ∷ [])
          (colour 12 s0) in
      let s2 =
        puts
          (b'A' ∷ b'n' ∷ b' ' ∷ b'O' ∷ b'S' ∷ b' ' ∷ b'b' ∷ b'y' ∷ b' ' ∷ b's' ∷ b'o' ∷ b'm' ∷ b'e'
            ∷ b' ' ∷ b'c' ∷ b'o' ∷ b'o' ∷ b'l' ∷ b' ' ∷ b'd' ∷ b'u' ∷ b'd' ∷ b'e' ∷ b's' ∷ 0x0A
            ∷ 0x0A ∷ [])
          (colour 14 s1) in
      put_pointer address (
        puts
          (b'A' ∷ b'd' ∷ b'd' ∷ b'r' ∷ b'e' ∷ b's' ∷ b's' ∷ b' ' ∷ b'o' ∷ b'f' ∷ b' ' ∷ b'k' ∷ b'e'
            ∷ b'r' ∷ b'n' ∷ b'e' ∷ b'l' ∷ b'_' ∷ b's' ∷ b't' ∷ b'a' ∷ b'r' ∷ b't' ∷ b'(' ∷ b')'
            ∷ b':' ∷ b' ' ∷ [])
          s2)
      >>= (λ s3. print_memory ram (putchar 0x0A s3))

  pub kernel_start :
      FileOutside
      → Option ℕ
      → (os dkjson : Script) → (given given' : Given) → (address : ℕ) → Ram
      → Machine
      → Option Ended
  kernel_start files b os dkjson given given' address ram s = do
    s' ← greet address ram s
    root ← load_scripts files b os dkjson s'.vga.mem given given' s'.root
    run_lua Files.dkjson_lua Files.os_lua (
        colour 15 (
          puts
            (b'S' ∷ b't' ∷ b'a' ∷ b'r' ∷ b't' ∷ b'i' ∷ b'n' ∷ b'g' ∷ b' ' ∷ b'l' ∷ b'u' ∷ b'a'
              ∷ b'.' ∷ 0x0A ∷ 0x0A ∷ [])
            (record s' { root = root })))
