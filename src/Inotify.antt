-- ===== src/Inotify.antt =====
-- src/backend/backend_inotify.c: the coalescing of events by path, and what calls a target's callback.
pub mod Coalesce
pub mod Masks
pub mod Watches
pub mod Recursive
pub mod Thread
pub mod Events
mod Agree
mod Single
mod Subtree
mod Growth
mod Frees
mod Leak
mod Pairing
mod Sound
mod Steady
pub mod Run
mod Backend
mod Cycle
mod Depth
mod Flags
mod Merge
mod Flush
mod Tests
mod WatchTests
mod ThreadTests
