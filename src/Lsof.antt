-- ===== src/Lsof.antt =====
-- hw1: lsof, the list of the files that the processes have open.
pub mod File
pub mod Process
pub mod Examine
pub mod Listing
mod Examples
