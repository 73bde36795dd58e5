-- ===== src/Inotify/Recursive.antt =====
-- backend/backend_inotify.c: `inotify_add_recursive_locked` and `inotify_handle_dynamic_mkdir`. The walk
-- has fuel, the depth of directories; it is `none` when that is used up.
use swatcher.Base.{
  ℕ, zero, suc, Bool, true, false, not, ◌&&◌, ◌||◌, Option, none, some, List, [], ◌∷◌, Bytes, codes,
  ◌==◌, ◌>>=◌, if◌then◌else◌, str_eq, is_some, bit_and,
}
use swatcher.Platform.{DirEntry}
use swatcher.Types.{Target, TargetDesc}
use swatcher.Pattern.Compile.{Regex, sw_pattern_matched}
use swatcher.Core.World.{World}
use swatcher.Core.Targets.{TargetInternal, sw_find_target_internal, swatcher_target_create}
use swatcher.Core.Lifecycle.{watch_files, watch_symlinks, free_target}
use swatcher.Inotify.Watches.{Watching, WatchEnv, join_path, inotify_add_single}

-- `SWATCHER_WATCH_DIRECTORIES`
abbrev pub watch_directories : ℕ
watch_directories = 2

-- `watch_options & flag || watch_options == SWATCHER_WATCH_ALL`
abbrev pub wants : ℕ → Target → Bool
wants flag target = not (bit_and target.watch_options flag == 0) || target.watch_options == 0

-- The description of the target for an entry of a directory.
unfoldable pub child_desc : WatchEnv → Target → Bytes → TargetDesc
child_desc env parent name = record {
  path = join_path env.platform parent.path name;
  is_recursive = parent.is_recursive;
  events = parent.events;
  watch_options = parent.watch_options;
  callback_patterns = parent.callback_patterns;
  watch_patterns = parent.watch_patterns;
  ignore_patterns = parent.ignore_patterns;
  user_data = parent.user_data;
  follow_symlinks = parent.follow_symlinks;
  callback = parent.callback;
}

-- A way to add a target, given with its internal struct.
abbrev pub Attempt : Regex → Type 0
Attempt r = TargetInternal r → Watching r → Option (Bool × Watching r)

module _ {r : Regex} (env : WatchEnv) where
  unfoldable pub add_single : Attempt r
  unfolding inotify_add_single
  add_single ti s = some (inotify_add_single env ti.of_target (some ti) s)

  -- A target that was refused is freed, but for its internal struct.
  unfoldable pub keep_or_free : Bool × Watching r → Watching r
  keep_or_free (true, s) = s
  keep_or_free (false, s) = record s { world = free_target s.world }

  unfoldable pub add_created :
      Attempt r → Option (TargetInternal r) × World → Watching r → Option (Watching r)
  unfolding keep_or_free
  add_created attempt (none, w) s = some (record s { world = w })
  add_created attempt (some ti, w) s = do
    result ← attempt ti (record s { world = w })
    some (keep_or_free result)

  -- A target for an entry is made and added.
  unfoldable pub add_child : Attempt r → Target → Bytes → Watching r → Option (Watching r)
  unfolding child_desc add_created swatcher_target_create
  add_child attempt parent name s =
      add_created attempt
        (swatcher_target_create r env.system (some (child_desc env parent name)) s.world) s

  -- `compiled_watch && !sw_pattern_matched(compiled_watch, name)`
  abbrev pub unmatched : TargetInternal r → Bytes → Bool
  unmatched parent name =
      is_some parent.compiled_watch && not (sw_pattern_matched r parent.compiled_watch (some name))

  unfoldable pub skip_self : TargetInternal r → Bytes → Bool
  skip_self parent name =
      parent.of_target.watch_options == watch_files
      || parent.of_target.watch_options == watch_symlinks
      || unmatched parent name

  -- The target of a link that is followed: what it points at decides.
  unfoldable pub add_followed : Target → (Bool → Attempt r) → Attempt r
  unfolding add_single
  add_followed parent recurse ti s =
      if ti.of_target.is_file
      then if wants watch_files parent then add_single ti s else some (false, s)
      else if wants watch_directories parent
      then recurse false ti s
      else some (false, s)

  -- The branches for the three kinds of entries.
  unfoldable pub add_entry :
      (Bool → Attempt r) → TargetInternal r → DirEntry → Watching r → Option (Watching r)
  unfolding add_child skip_self add_followed add_single
  add_entry recurse parent entry s =
      if entry.is_dir
      then if str_eq entry.name (codes ".") || str_eq entry.name (codes "..")
        then some s
        else add_child (recurse (skip_self parent entry.name)) parent.of_target entry.name s
      else if entry.is_file
      then if wants watch_files parent.of_target
        then add_child add_single parent.of_target entry.name s
        else some s
      else if entry.is_symlink
      then if parent.of_target.follow_symlinks
        then add_child (add_followed parent.of_target recurse) parent.of_target entry.name s
        else if wants watch_symlinks parent.of_target
        then add_child add_single parent.of_target entry.name s
        else some s
      else some s

  -- The body of the loop over the entries, with its two filters.
  unfoldable pub visit_entry :
      (Bool → Attempt r) → TargetInternal r → DirEntry → Watching r → Option (Watching r)
  unfolding add_entry
  visit_entry recurse parent entry s =
      if sw_pattern_matched r parent.compiled_ignore (some entry.name)
      then some s
      else if unmatched parent entry.name && not entry.is_dir
      then some s
      else add_entry recurse parent entry s

  unfoldable pub visit_all :
      (Bool → Attempt r) → TargetInternal r → List DirEntry → Watching r → Option (Watching r)
  unfolding visit_entry
  visit_all recurse parent [] s = some s
  visit_all recurse parent (entry ∷ entries) s = do
    s' ← visit_entry recurse parent entry s
    visit_all recurse parent entries s'

  -- What follows the loop.
  unfoldable pub add_self : Bool → TargetInternal r → Watching r → Option (Bool × Watching r)
  unfolding add_single
  add_self dont_add_self ti s = if dont_add_self then some (true, s) else add_single ti s

  -- The directory is opened and walked, its subdirectories by `recurse`.
  unfoldable pub walk : (Bool → Attempt r) → Bool → Attempt r
  unfolding visit_all add_self add_single
  walk recurse dont_add_self ti s =
      if ti.of_target.is_file
      then add_single ti s
      else elim (env.platform.dir_open ti.of_target.path) [
        | none ↦ some (false, s)
        | some entries ↦ (do s' ← visit_all recurse ti entries s; add_self dont_add_self ti s')
      ]

  unfoldable pub inotify_add_recursive_locked : ℕ → Bool → Attempt r
  unfolding walk
  inotify_add_recursive_locked zero dont_add_self ti s = none
  inotify_add_recursive_locked (suc fuel) dont_add_self ti s =
      walk (λ skip. inotify_add_recursive_locked fuel skip) dont_add_self ti s

  unfoldable pub inotify_handle_dynamic_mkdir :
      ℕ → Target → Bytes → Watching r → Option (Watching r)
  unfolding inotify_add_recursive_locked add_child sw_find_target_internal
  inotify_handle_dynamic_mkdir fuel parent name s =
      if parent.is_recursive
      then if is_some (sw_find_target_internal s.targets (join_path env.platform parent.path name))
        then some s
        else add_child (inotify_add_recursive_locked fuel false) parent name s
      else some s
