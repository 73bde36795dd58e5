-- ===== src/Types/Records.antt =====
-- include/swatcher_types.h: `swatcher_target`, `swatcher_target_desc` and `swatcher_config`.
use swatcher.Base.{ℕ, Bool, Option, List, Bytes}

-- `swatcher_target`, without `_internal`; `callback` says that the pointer is not null. A path stands
-- for the target's identity in what is recorded of it.
pub record Target : Type 0 where
  pub path : Bytes
  pub callback_patterns : Option (List Bytes)
  pub watch_patterns : Option (List Bytes)
  pub ignore_patterns : Option (List Bytes)
  pub is_recursive : Bool
  pub events : ℕ
  pub watch_options : ℕ
  pub user_data : ℕ
  pub last_event_time : ℕ
  pub is_symlink : Bool
  pub is_file : Bool
  pub is_directory : Bool
  pub follow_symlinks : Bool
  pub callback : Bool

-- `swatcher_target_desc`
pub record TargetDesc : Type 0 where
  pub path : Bytes
  pub is_recursive : Bool
  pub events : ℕ
  pub watch_options : ℕ
  pub callback_patterns : Option (List Bytes)
  pub watch_patterns : Option (List Bytes)
  pub ignore_patterns : Option (List Bytes)
  pub user_data : ℕ
  pub follow_symlinks : Bool
  pub callback : Bool

-- `swatcher_allocator`: a number stands for the set of functions, and the flags say which of the two
-- pointers `malloc` and `free` are not null.
pub record Allocator : Type 0 where
  pub id : ℕ
  pub has_malloc : Bool
  pub has_free : Bool

-- `swatcher_config`
pub record Config : Type 0 where
  pub poll_interval_ms : ℕ
  pub enable_logging : Bool
  pub coalesce_ms : ℕ
  pub allocator : Option Allocator
  pub overflow_rescan : Bool
  pub vcs_aware : Bool
