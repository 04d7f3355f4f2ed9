-- ===== src/Sys.antt =====
-- The processor's tables and the interrupts (src/sys).
pub mod Gdt
pub mod Idt
pub mod Irq
pub mod Faults
mod Tests
