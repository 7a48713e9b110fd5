-- ===== src/Libmini.antt =====
-- hw3: the small C library libmini.
pub mod Wrappers
pub mod Blocks
pub mod Sigset
pub mod Signal
pub mod Perror
pub mod Errno
pub mod Asm
pub mod Testcase
mod Examples
