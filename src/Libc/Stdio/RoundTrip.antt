-- ===== src/Libc/Stdio/RoundTrip.antt =====
-- What is written to a file of src/libc/stdio.c is read back.
