-- ===== src/Platform.antt =====
-- src/platform/platform.h: the file information, the directory entries and the operating-system
-- calls on which the portable code stands, and the path arithmetic that its callers write inline.
mod Paths
mod Names
pub mod Posix
mod Normalize
pub mod Children
pub mod Sample
mod Tests
pub use Paths.{FileInfo, DirEntry, Platform}
unfoldable pub use Paths.{
  snprintf, ends_with, child_path, strrchr, strrchr_at, basename, is_dot, is_direct_child,
}
pub use Names.*
