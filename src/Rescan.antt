-- ===== src/Rescan.antt =====
-- src/core/rescan.c: the snapshot of a directory tree and the events that two snapshots differ by.
pub mod Walk
pub mod Diff
mod Visible
mod Exact
pub mod Fuel
mod Calls
mod Tests
