-- ===== src/Core/Lifecycle.antt =====
-- core/swatcher.c over the interface of backend/backend.h. The mutex is held from each operation's
-- start to its end, so that the operations here run one after the other.
use swatcher.Base.{
  ℕ, Bool, true, false, ◌&&◌, ◌||◌, not, Option, none, some, List, [], ◌∷◌, Bytes, ◌==◌,
  if◌then◌else◌, is_some,
}
use swatcher.Types.{Target, Config, Error}
use swatcher.Pattern.Compile.{Regex}
use swatcher.Core.World.{Resource, World, sw_malloc, sw_free, sw_alloc_set, sw_alloc_clear, fail}
use swatcher.Core.Targets.{TargetInternal, sw_remove_target_internal, sw_target_internal_destroy}

-- What an operation of a backend can change: its data, the table of targets, and the world.
pub record Shared (r : Regex) (D : Type 0) : Type 0 where
  pub data_ : D
  pub targets : List (TargetInternal r)
  pub world : World

-- `swatcher_backend`, without the thread's function; `D` is what `backend_data` points at.
pub record Backend (r : Regex) (D : Type 0) : Type 0 where
  pub name : Bytes
  pub init : Config → World → Option D × World
  pub destroy : D → World → World
  pub add_target : TargetInternal r → Shared r D → Bool × Shared r D
  pub remove_target : Target → Option (TargetInternal r) → Shared r D → Bool × Shared r D
  pub add_target_recursive : Bool → TargetInternal r → Shared r D → Bool × Shared r D

-- `swatcher` with its `swatcher_internal`; `thread` says whether the pointer is not null.
pub record Watcher (r : Regex) (D : Type 0) : Type 0 where
  pub config : Config
  pub is_running : Bool
  pub backend : Backend r D
  pub backend_data : D
  pub thread : Bool
  pub targets : List (TargetInternal r)

-- What a call of this file depends on: the allocations that succeed (the mutex and the thread with the
-- system's part in them) and the table of backends.
pub record Setting (r : Regex) (D : Type 0) : Type 0 where
  pub gives : Resource → Bool
  pub find : Bytes → Option (Backend r D)
  pub default : Backend r D

-- `SWATCHER_WATCH_FILES` and `SWATCHER_WATCH_SYMLINKS`
abbrev pub watch_files : ℕ
watch_files = 1

abbrev pub watch_symlinks : ℕ
watch_symlinks = 4

-- `target->watch_options == SWATCHER_WATCH_FILES || ... || target->watch_patterns != NULL`
unfoldable pub dont_add_self : Target → Bool
dont_add_self target =
    target.watch_options == watch_files
    || target.watch_options == watch_symlinks
    || is_some target.watch_patterns

abbrev pub free_target : World → World
free_target w = sw_free Resource.target (sw_free Resource.target_path w)

module _ {r : Regex} {D : Type 0} (setting : Setting r D) where
  -- The allocator of the configuration, or none.
  unfoldable pub install : Config → World → World
  install config w = elim config.allocator [ some a ↦ sw_alloc_set a w | none ↦ sw_alloc_clear w ]

  -- The fields that are set before the backend starts, and its start.
  unfoldable pub init_backend : Config → Backend r D → World → Option (Watcher r D) × World
  init_backend config backend w = elim (backend.init config w).0 [
    | none ↦ (
      none,
      sw_free Resource.internal
          (sw_free Resource.mutex (fail Error.backend_init (backend.init config w).1)),
    )
    | some d ↦ (
      some (record {
        config = config;
        is_running = false;
        backend = backend;
        backend_data = d;
        thread = false;
        targets = [];
      }),
      (backend.init config w).1,
    )
  ]

  abbrev pub choose : Option Bytes → Option (Backend r D)
  choose none = some setting.default
  choose (some backend_name) = setting.find backend_name

  -- What follows the mutex.
  unfoldable pub pick_backend : Config → Option Bytes → World → Option (Watcher r D) × World
  pick_backend config backend_name w = elim (choose backend_name) [
    | none ↦
        (none, sw_free Resource.internal (sw_free Resource.mutex (fail Error.backend_not_found w)))
    | some backend ↦ init_backend config backend w
  ]

  -- What follows the allocation of the internal struct.
  unfoldable pub init_mutex : Config → Option Bytes → World → Option (Watcher r D) × World
  init_mutex config backend_name w = elim (sw_malloc setting.gives Resource.mutex w) [
    | none ↦ (none, sw_free Resource.internal (fail Error.mutex w))
    | some w' ↦ pick_backend config backend_name w'
  ]

  -- On a watcher that is not null.
  unfoldable pub init_watcher : Option Config → Option Bytes → World → Option (Watcher r D) × World
  init_watcher none backend_name w = (none, fail Error.null_arg w)
  init_watcher (some config) backend_name w =
      elim (sw_malloc setting.gives Resource.internal (install config w)) [
        | none ↦ (none, fail Error.alloc (install config w))
        | some w' ↦ init_mutex config backend_name w'
      ]

  -- `has_watcher` says whether `sw` is not null. What is left in the watcher after a failure is not
  -- read: its `_internal` is null.
  unfoldable pub swatcher_init_with_backend :
      Bool → Option Config → Option Bytes → World → Option (Watcher r D) × World
  unfolding init_watcher install init_mutex pick_backend init_backend
  swatcher_init_with_backend has_watcher config backend_name w =
      if has_watcher then init_watcher config backend_name w else (none, fail Error.null_arg w)

  -- The allocator that is installed before the watcher is allocated.
  unfoldable pub pre_install : Option Config → World → World
  pre_install none w = w
  pre_install (some config) w = elim config.allocator [ some a ↦ sw_alloc_set a w | none ↦ w ]

  -- What follows the allocation of the watcher.
  unfoldable pub create_with : Option (Watcher r D) × World → Option (Watcher r D) × World
  create_with (none, w) = (none, sw_free Resource.watcher w)
  create_with (some sw, w) = (some sw, w)

  unfoldable pub swatcher_create_with_backend :
      Option Config → Option Bytes → World → Option (Watcher r D) × World
  unfolding swatcher_init_with_backend pre_install create_with
  swatcher_create_with_backend config backend_name w =
      elim (sw_malloc setting.gives Resource.watcher (pre_install config w)) [
        | none ↦ (none, fail Error.alloc (pre_install config w))
        | some w' ↦ create_with (swatcher_init_with_backend true config backend_name w')
      ]

  -- A watcher that is null or not initialised is `none`.
  unfoldable pub swatcher_start : Option (Watcher r D) → World → Bool × Option (Watcher r D) × World
  swatcher_start none w = (false, none, fail Error.not_initialized w)
  swatcher_start (some sw) w = elim (sw_malloc setting.gives Resource.thread w) [
    | none ↦ (false, some (record sw { is_running = false; thread = false }), fail Error.thread w)
    | some w' ↦ (true, some (record sw { is_running = true; thread = true }), w')
  ]

module _ {r : Regex} {D : Type 0} where
  -- `sw_thread_join` waits for the thread, whose loop ends when it finds `running` false.
  unfoldable pub swatcher_stop : Option (Watcher r D) → World → Option (Watcher r D) × World
  swatcher_stop none w = (none, w)
  swatcher_stop (some sw) w =
      if sw.thread
      then (some (record sw { is_running = false; thread = false }), sw_free Resource.thread w)
      else (some (record sw { is_running = false }), w)

  abbrev pub shared : Watcher r D → World → Shared r D
  shared sw w = record { data_ = sw.backend_data; targets = sw.targets; world = w }

  abbrev pub put_back : Watcher r D → Bool × Shared r D → Bool × Option (Watcher r D) × World
  put_back sw (result, s) =
      (result, some (record sw { backend_data = s.data_; targets = s.targets }), s.world)

  -- The target is given with its internal struct, if it has one.
  unfoldable pub swatcher_add :
      Option (Watcher r D)
      → Option (Target × Option (TargetInternal r))
      → World
      → Bool × Option (Watcher r D) × World
  unfolding dont_add_self
  swatcher_add none target w = (false, none, fail Error.not_initialized w)
  swatcher_add (some sw) none w = (false, some sw, fail Error.null_arg w)
  swatcher_add (some sw) (some (target, none)) w = (false, some sw, fail Error.null_arg w)
  swatcher_add (some sw) (some (target, some ti)) w = put_back sw (
      if not target.is_file && target.is_recursive
      then sw.backend.add_target_recursive (dont_add_self target) ti (shared sw w)
      else sw.backend.add_target ti (shared sw w))

  unfoldable pub remove_internal : Option (TargetInternal r) → Shared r D → Shared r D
  remove_internal none s = s
  remove_internal (some ti) s = record s {
    targets = sw_remove_target_internal s.targets ti;
    world = sw_target_internal_destroy (some ti) s.world;
  }

  unfoldable pub swatcher_remove :
      Watcher r D → Target → Option (TargetInternal r) → World → Bool × Option (Watcher r D) × World
  unfolding remove_internal sw_remove_target_internal sw_target_internal_destroy
  swatcher_remove sw target ti w =
      let s = remove_internal ti (sw.backend.remove_target target ti (shared sw w)).1 in
      put_back sw (true, record s { world = free_target s.world })

  -- The loop over the targets.
  unfoldable pub remove_all : Backend r D → List (TargetInternal r) → Shared r D → Shared r D
  remove_all backend [] s = s
  remove_all backend (current ∷ rest) s =
      let removed = (backend.remove_target current.of_target (some current) s).1 in
      remove_all backend rest (record removed {
        targets = sw_remove_target_internal removed.targets current;
        world = sw_target_internal_destroy (some current) (free_target removed.world);
      })

  unfoldable pub swatcher_cleanup : Option (Watcher r D) → World → World
  unfolding remove_all sw_remove_target_internal sw_target_internal_destroy
  swatcher_cleanup none w = w
  swatcher_cleanup (some sw) w =
      let s = remove_all sw.backend sw.targets (shared sw w) in
      sw_free Resource.internal (sw_free Resource.mutex (sw.backend.destroy s.data_ s.world))

  -- A watcher that is null is `none`, and one that is not initialised `some none`.
  unfoldable pub swatcher_destroy : Option (Option (Watcher r D)) → World → World
  unfolding swatcher_stop swatcher_cleanup
  swatcher_destroy none w = w
  swatcher_destroy (some sw) w =
      let (stopped, w') = swatcher_stop sw w in
      sw_alloc_clear (sw_free Resource.watcher (swatcher_cleanup stopped w'))
