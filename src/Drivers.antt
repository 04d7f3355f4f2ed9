-- ===== src/Drivers.antt =====
-- The device drivers (src/drivers).
pub mod Ports
pub mod Vga
pub mod Timer
pub mod Buffer
pub mod Keyboard
pub mod Serial
pub mod Ram
