-- ===== src/Cio.antt =====
-- cio.c: the console.
pub mod Keyboard
pub mod Screen
pub mod Tests
