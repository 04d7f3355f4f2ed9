-- ===== src/Lib.antt =====
-- A model of the kernel of Jiauliyan OS, a small 32-bit x86 system written in C that boots into a Lua command
-- line, and of the C library that it brings along.
--
-- The program has these layers. src/sys sets up the processor: segment descriptors, interrupt descriptors, the
-- gates of the exceptions and of the device interrupts, and the dispatch of the latter to handlers. src/drivers
-- has a text screen, a keyboard and a serial port that are fed by those interrupts, a clock, and the choice of the
-- memory that malloc manages. src/libc has the string, number and memory functions that all of these and the Lua
-- interpreter call. A key press, for instance, runs through the interrupt gate and irq_handler to
-- keyboard_interrupt, which puts a character into the keyboard's buffer and calls vga_putchar, which writes to
-- video memory with memcpy and memsetw and moves the hardware cursor through output ports. src/kernel has the
-- streams that devices and files offer, over which src/libc/stdio.c builds files that live in memory, the
-- formatting of text, kmain, which installs all of these in their order, and the functions through which Lua
-- scripts reach the screen and the serial port.
--
-- The files, and the code each is about:
--   Base, Base/*            shared names, Boolean tests, lists and integers over native numbers, bit masks,
--                           32-bit arithmetic
--   Memory                  memory as a byte for each address, with little-endian words
--   Libc/Copy               memcpy, memmove, memset, memsetw (src/libc/string.c)
--   Libc/Compare            strlen, strcmp, strcoll, strncmp, memcmp (src/libc/string.c)
--   Libc/Search             memchr, strchr, strrchr, strcspn, strspn, strpbrk, strstr (src/libc/string.c)
--   Libc/Number             atoi, abs and rand (src/libc/stdlib.c), strtoul (src/libc/etc.c), the classes of
--                           src/libc/ctype.h
--   Libc/Write              strcpy, strncpy, strcat, strncat, strxfrm (src/libc/string.c)
--   Libc/Malloc             malloc, free, realloc (src/libc/stdlib.c)
--   Libc/Tokens             strtok_r, strtok (src/libc/string.c)
--   Libc/Errors             strerror (src/libc/string.c)
--   Libc/Stdio              the files in memory and the FILE operations (src/libc/stdio.c)
--   Libc/Printf             printf, fprintf and their like (src/libc/stdio.c)
--   Libc/Stubs              the functions that only warn, perror, stdio_init (src/libc/stdio.c) and getenv, exit and
--                           their like (src/libc/etc.c)
--   Kernel/Stream           streams, and the byte stream (src/kernel/stream.c)
--   Kernel/Format           stream_putuint, stream_putint (src/kernel/stream.c)
--   Kernel/Format/Text      strdup, strvcat, __format_uint, __format_int (src/kernel/stream.c)
--   Kernel/Directive        stream_vformat and its directives (src/kernel/stream.c)
--   Kernel/Strings          strlcpy, strlcat (src/kernel/stream.c)
--   Kernel/Lua              the functions for Lua scripts (src/kernel/lua_kernel.c)
--   Kernel/Boot             kmain (src/kernel/kernel.c), timer_install, keyboard_install, serial_install
--   Kernel/Handlers         the handlers that show an input buffer (src/kernel/kernel.c)
--   Kernel/Files            load_file_data and the scripts that kernel_start loads (src/kernel/kernel.c)
--   Kernel/Start            kernel_start (src/kernel/kernel.c)
--   Drivers/Ports           outportb as a log of port writes, newest first (src/sys/ports.c)
--   Drivers/Vga             the text screen (src/drivers/vga.c); Vga/Refine has the abstract terminal
--   Drivers/Keyboard        the keyboard (src/drivers/keyboard.c); Keyboard/Events has the abstract keyboard
--   Drivers/Serial          the serial port (src/drivers/serial.c)
--   Drivers/Timer           the clock (src/drivers/timer.c)
--   Drivers/Ram             the choice of memory (src/drivers/memory.c)
--   Drivers/Buffer          sequences of bytes in memory, which the two input buffers share
--   Sys/Gdt, Sys/Idt        the descriptor tables (src/sys/gdt.c, src/sys/idt.c) and the gates that
--                           src/sys/isrs.c and src/sys/irq.c set
--   Sys/Faults              the exception handler (src/sys/isrs.c)
--   Sys/Irq                 the interrupt controllers and the dispatch (src/sys/irq.c)
-- A file's children hold its theorems, and each Tests runs the code on concrete inputs.
--
-- Each definition bears the name of the C function it stands for; a helper beside it stands for a loop or a
-- branch of it. A driver's variables are a record that its operations take and return. Memory is one function from
-- addresses to bytes, and pointers are numbers, so that overlaps and writes past the end of an array can be
-- stated. Numbers are natural numbers with the wrap-around of the source written out; an int that the code lets go
-- below zero is an integer. Strings that are only read are lists of bytes without their NUL.
--
-- Loops are structural recursion on the rounds that are left, or on fuel where the end is tested: memsetw has
-- one more round than its count, which is enough below 2^16 words; the string functions that end at a NUL get a
-- number of rounds, and for strcpy one more than the length of the string is enough; memory_init gets a number
-- of rounds, and one more than the entries is enough; fopen calls itself after it creates a file, and 257 calls
-- are enough for a table of 256; the searches of malloc and free get a number of rounds, and as many as there
-- are free blocks are enough. Loops that wait for a device run along a list of what the device answers, and
-- timer_wait along a list of how many interrupts come between two tests of its loop.
--
-- A value that the source leaves undefined, as a division by 0, an index outside of a string or a missing
-- argument, is the result none. The buffer that malloc gives to a byte stream and the printing of a double are
-- parameters of the formatting. What realloc gives to a byte stream or a file whose buffer is full, by the bytes it
-- had, is a parameter too, and may be any function: realloc frees the old block and may change memory elsewhere, so
-- the theorems on streams and files stay within the first buffer. The bytes of a file and of a byte stream are apart
-- from the memory that is read and written. In fopen a null from malloc ends in none, since it is written through.
--
-- Not modelled: vsprintf and sprintf, which free a byte stream in the end; the Lua interpreter, which is a
-- parameter of kernel_start, and the registration of the functions for scripts with it; floating point
-- (src/libc/math.c, strtod, the printing of a double), for which there is no theory here; the assembler files,
-- which are parameters (the addresses of the interrupt stubs) or the pointer they load; the copy of Lua in
-- lua-5.1; the scripts, which are Lua, and the server, which is Python.
pub mod Base
pub mod Memory
pub mod Sys
pub mod Kernel
pub mod Libc
pub mod Drivers
