-- ===== src/Kernel.antt =====
-- The kernel's own services (src/kernel).
pub mod Stream
pub mod Format
pub mod Directive
pub mod Lua
pub mod Boot
pub mod Strings
pub mod Handlers
pub mod Files
pub mod Start
