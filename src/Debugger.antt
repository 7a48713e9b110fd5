-- ===== src/Debugger.antt =====
-- hw4: the debugger sdb.
pub mod Cmdline
pub mod Breakpoint
pub mod Regs
pub mod Machine
pub mod Session
pub mod Stops
pub mod Control
pub mod Breaks
pub mod Inspect
pub mod Elf
pub mod Maps
pub mod Load
pub mod Main
pub mod Args
pub mod Memory
mod Examples
