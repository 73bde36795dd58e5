-- ===== src/Vcs.antt =====
-- src/core/vcs.c: the cached search for the repository that a path lies in, and the pause of events
-- while the repository is locked.
pub mod Detect
mod Search
mod Above
mod Cache
mod Full
mod Pause
mod Tests
unfoldable pub use Detect.{sw_vcs_should_pause, pause}
pub use Detect.{VcsEntry, VcsCache}
