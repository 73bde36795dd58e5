-- ===== src/Poll.antt =====
-- src/backend/backend_poll.c: the portable backend, which scans its targets again and again and
-- compares what it finds with the last scan.
pub mod State
pub mod Scan
pub mod Target
pub mod Initial
pub mod Thread
mod Rounds
mod Stop
pub mod InitialFuel
mod Fuel
mod Loud
mod Settle
mod Moves
mod Created
mod Told
mod Flags
mod Steps
mod Report
mod Tests
mod ThreadTests
