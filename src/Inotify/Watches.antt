-- ===== src/Inotify/Watches.antt =====
-- backend/backend_inotify.c: the table of watches; what adds and removes one, and what removes those of
-- a directory.
use swatcher.Base.{
  ℕ, ◌-◌, ◌+◌, Bool, true, false, not, ◌&&◌, filter, any, Option, none, some, List, [], ◌∷◌, ◌++◌,
  Bytes, ◌==◌, if◌then◌else◌, hash_find, hash_add, hash_del,
}
use swatcher.Platform.{Platform, snprintf, ends_with}
use swatcher.Types.{Target, Error}
use swatcher.Pattern.Compile.{Regex}
use swatcher.Core.World.{Resource, sw_malloc, sw_free, fail}
use swatcher.Core.Targets.{
  TargetInternal, TargetSystem, sw_find_target_internal, sw_add_target_internal,
  sw_remove_target_internal, sw_target_internal_create, sw_target_internal_destroy,
}
use swatcher.Core.Lifecycle.{Shared, free_target}
use swatcher.Inotify.Masks.{Mask, events_to_inotify_mask}

-- `swatcher_target_inotify`
pub record WatchEntry : Type 0 where
  pub wd : ℕ
  pub target : Target

-- A target has one entry at most, to which its internal struct points by `backend_data`; here it is
-- found by the target's path.
abbrev pub watch_key : WatchEntry → Bytes
watch_key e = e.target.path

-- What `inotify_add_watch` comes to: a descriptor, `ENOSPC`, or another error.
pub data WatchResult : Type 0 where
  watching : ℕ → WatchResult
  no_space refused : WatchResult

-- `swatcher_inotify` without the pending events and moves; the descriptors that the kernel watches, and
-- how often it was asked for one. `max_watches` only matters to a warning.
pub record SwatcherInotify : Type 0 where
  pub wd_to_target : List WatchEntry
  pub watch_count : ℕ
  pub kernel : List ℕ
  pub asked : ℕ

abbrev pub Watching : Regex → Type 0
Watching r = Shared r SwatcherInotify

-- What the operations ask of the system. The kernel's answer can differ at each call: a path that is
-- added again may get another descriptor, and one file by two paths gets one descriptor.
pub record WatchEnv : Type 0 where
  pub platform : Platform
  pub system : TargetSystem
  pub add_watch : ℕ → Bytes → Mask → WatchResult

-- The kernel watches the descriptor.
abbrev pub has_wd : ℕ → List ℕ → Bool
has_wd wd kernel = any (λ x. x == wd) kernel

-- `inotify_rm_watch`; also what the kernel has done when it reports `IN_IGNORED`
unfoldable pub rm_watch : ℕ → List ℕ → List ℕ
rm_watch wd kernel = filter (λ x. not (x == wd)) kernel

-- A descriptor that is given again is the same watch.
unfoldable pub watch_wd : ℕ → List ℕ → List ℕ
watch_wd wd kernel = if has_wd wd kernel then kernel else kernel ++ wd ∷ []

-- `path[plen - 1] == '/'` decides whether a slash is put between
unfoldable pub join_path : Platform → Bytes → Bytes → Bytes
join_path p dir name =
    if ends_with b'/' dir
    then snprintf p.path_max (dir ++ name)
    else snprintf p.path_max (dir ++ b'/' ∷ name)

-- `strncmp(tpath, dir_path, dir_len) == 0 && tpath[dir_len] == '/'`
unfoldable pub is_below : Bytes → Bytes → Bool
is_below [] [] = false
is_below [] (c ∷ path) = c == b'/'
is_below (a ∷ dir) [] = false
is_below (a ∷ dir) (c ∷ path) = a == c && is_below dir path

-- The entry's watch goes from the kernel and from the table.
unfoldable pub drop_watch : WatchEntry → SwatcherInotify → SwatcherInotify
unfolding rm_watch
drop_watch e ino = record ino {
  wd_to_target = hash_del watch_key e.target.path ino.wd_to_target;
  watch_count = ino.watch_count - 1;
  kernel = rm_watch e.wd ino.kernel;
}

unfoldable pub keep_watch : WatchEntry → SwatcherInotify → SwatcherInotify
unfolding watch_wd
keep_watch e ino = record ino {
  wd_to_target = hash_add ino.wd_to_target e;
  watch_count = ino.watch_count + 1;
  kernel = watch_wd e.wd ino.kernel;
}

-- The kernel is asked once more.
unfoldable pub ask : SwatcherInotify → SwatcherInotify
ask ino = record ino { asked = ino.asked + 1 }

module _ {r : Regex} where
  -- What follows the registration: the internal struct, which is made if there is none.
  unfoldable pub attach :
      TargetSystem → WatchEntry → Option (TargetInternal r) → Watching r → Bool × Watching r
  unfolding keep_watch drop_watch
  attach os e (some ti) s = (
    true,
    record s { data_ = keep_watch e s.data_; targets = sw_add_target_internal s.targets ti },
  )
  attach os e none s = elim (sw_target_internal_create r os e.target s.world) [
    | none ↦ (
      false,
      record s {
        data_ = drop_watch e (keep_watch e s.data_);
        world = sw_free Resource.watch s.world;
      },
    )
    | some (ti, w) ↦ (
      true,
      record s {
        data_ = keep_watch e s.data_;
        targets = sw_add_target_internal s.targets ti;
        world = w;
      },
    )
  ]

  -- The descriptor that the kernel gives, or its refusal.
  unfoldable pub register :
      WatchEnv → Target → Option (TargetInternal r) → Watching r → Bool × Watching r
  unfolding attach ask
  register env target ti s =
      elim (env.add_watch s.data_.asked target.path (events_to_inotify_mask target.events)) [
        | watching wd ↦
            attach env.system (record { wd = wd; target = target }) ti
              (record s { data_ = ask s.data_ })
        | no_space ↦ (
          false,
          record s {
            data_ = ask s.data_;
            world = sw_free Resource.watch (fail Error.watch_limit s.world);
          },
        )
        | refused ↦ (
          false,
          record s {
            data_ = ask s.data_;
            world = sw_free Resource.watch (fail Error.backend_init s.world);
          },
        )
      ]

  unfoldable pub inotify_add_single :
      WatchEnv → Target → Option (TargetInternal r) → Watching r → Bool × Watching r
  unfolding register
  inotify_add_single env target ti s = elim (sw_find_target_internal s.targets target.path) [
    | some found ↦ (false, record s { world = fail Error.target_exists s.world })
    | none ↦ elim (sw_malloc env.system.gives Resource.watch s.world) [
      | none ↦ (false, record s { world = fail Error.alloc s.world })
      | some w ↦ register env target ti (record s { world = w })
    ]
  ]

  -- The internal struct of an entry's target goes, if there is one.
  unfoldable pub forget_internal : Option (TargetInternal r) → Watching r → Watching r
  forget_internal none s = s
  forget_internal (some ti) s = record s {
    targets = sw_remove_target_internal s.targets ti;
    world = sw_target_internal_destroy (some ti) s.world;
  }

  -- The body of the loop in `inotify_remove_children` for an entry below the directory.
  unfoldable pub remove_child : WatchEntry → Watching r → Watching r
  unfolding drop_watch forget_internal
  remove_child e s =
      let s' =
        forget_internal (sw_find_target_internal s.targets e.target.path)
          (record s { data_ = drop_watch e s.data_ }) in
      record s' { world = sw_free Resource.watch (free_target s'.world) }

  -- The loop; `todo` is what the iteration has yet to visit.
  unfoldable pub remove_below : Bytes → List WatchEntry → Watching r → Watching r
  remove_below dir_path [] s = s
  remove_below dir_path (e ∷ todo) s =
      remove_below dir_path todo (if is_below dir_path e.target.path then remove_child e s else s)

  unfoldable pub inotify_remove_children : Bytes → Watching r → Watching r
  unfolding remove_below remove_child is_below
  inotify_remove_children dir_path s = remove_below dir_path s.data_.wd_to_target s

  -- The directory's own watch and target.
  unfoldable pub remove_own : TargetInternal r → Watching r → Watching r
  unfolding drop_watch
  remove_own ti s =
      let s' : Watching r = elim (hash_find watch_key ti.of_target.path s.data_.wd_to_target) [
        | none ↦ s
        | some e ↦ record s { data_ = drop_watch e s.data_; world = sw_free Resource.watch s.world }
      ] in
      record s' {
        targets = sw_remove_target_internal s'.targets ti;
        world = sw_target_internal_destroy (some ti) (free_target s'.world);
      }

  -- `inotify_handle_dynamic_rmdir` on the directory's path.
  unfoldable pub remove_directory : Bytes → Watching r → Watching r
  unfolding inotify_remove_children remove_own
  remove_directory dir_path s =
      let s' = inotify_remove_children dir_path s in
      elim (sw_find_target_internal s'.targets dir_path) [ none ↦ s' | some ti ↦ remove_own ti s' ]

  unfoldable pub inotify_handle_dynamic_rmdir : Platform → Target → Bytes → Watching r → Watching r
  unfolding remove_directory join_path
  inotify_handle_dynamic_rmdir p parent name s = remove_directory (join_path p parent.path name) s

  -- The target is given with its internal struct, if it has one.
  unfoldable pub inotify_remove_target :
      Target → Option (TargetInternal r) → Watching r → Bool × Watching r
  unfolding drop_watch
  inotify_remove_target target none s = (false, s)
  inotify_remove_target target (some ti) s =
      elim (hash_find watch_key target.path s.data_.wd_to_target) [
        | none ↦ (true, s)
        | some e ↦ (
          true,
          record s { data_ = drop_watch e s.data_; world = sw_free Resource.watch s.world },
        )
      ]
