-- ===== src/Pattern.antt =====
-- src/core/pattern.c: the choice between glob and regex, the translation of a glob to a regex, and
-- the compilation and matching of pattern lists.
pub mod Glob
pub mod Compile
mod Translate
mod Escape
mod Lists
mod Tests
pub use Translate.{translate, sw_glob_to_regex_lem}
pub use Escape.*
pub use Lists.*
