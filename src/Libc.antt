-- ===== src/Libc.antt =====
-- The C library of the kernel (src/libc), a module for each group of its functions.
pub mod Copy
pub mod Compare
pub mod Search
pub mod Number
pub mod Write
pub mod Errors
pub mod Malloc
pub mod Tokens
pub mod Stdio
pub mod Printf
pub mod Stubs
mod Tests
