-- ===== src/Core.antt =====
-- The watcher itself: src/core/swatcher.c and src/core/target.c, with the table of backends, the
-- interface to a backend and the memory that they hold.
pub mod World
pub mod Registry
pub mod Targets
pub mod Lifecycle
pub mod Holdings
pub mod Release
pub mod Init
pub mod Creation
mod PollBackend
mod PollTargets
mod PollAdded
mod Made
mod Lifetime
mod Stale
mod Tests
mod PollTests
