-- ===== src/Klib.antt =====
-- klibc.c: the kernel's library routines: blocks of memory, and numbers as text.
pub mod Blocks
pub mod Numbers
pub mod Strings
mod Tests
