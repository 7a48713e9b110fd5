-- ===== src/Logger.antt =====
-- hw2: the library call logger, a shared object of wrappers and its launcher.
pub mod Libc
pub mod Paths
pub mod Intercept
pub mod Launch
mod Examples
