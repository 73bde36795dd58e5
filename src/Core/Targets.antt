-- ===== src/Core/Targets.antt =====
-- core/target.c, and the table of targets of internal/internal.h.
use swatcher.Base.{ℕ, Bool, Option, none, some, List, Bytes, hash_find, hash_add, hash_del, is_some}
use swatcher.Platform.{FileInfo}
use swatcher.Types.{Target, TargetDesc, Error}
use swatcher.Pattern.Compile.{Regex, CompiledPatterns, sw_patterns_compile}
use swatcher.Core.World.{Resource, World, sw_malloc, sw_free, fail}

-- `swatcher_target_internal`. The target's `_internal` and its own `target` point at each other, so
-- this stands for both; its path is the target's. The backend keeps its data on its side.
pub record TargetInternal (r : Regex) : Type 0 where
  pub of_target : Target
  pub compiled_callback : Option (CompiledPatterns r)
  pub compiled_watch : Option (CompiledPatterns r)
  pub compiled_ignore : Option (CompiledPatterns r)

abbrev pub internal_key : {r : Regex} → TargetInternal r → Bytes
internal_key ti = ti.of_target.path

-- What the system answers to `swatcher_target_create`: which allocations succeed (the last two for the
-- pattern lists), the normalised path, the file's information, and the time of day.
pub record TargetSystem : Type 0 where
  pub gives : Resource → Bool
  pub gives_patterns : Bool
  pub gives_array : Bool
  pub normalize : Bytes → Bool → Option Bytes
  pub stat : Bytes → Bool → Option FileInfo
  pub time : ℕ

module _ {r : Regex} where
  unfoldable pub sw_find_target_internal :
      List (TargetInternal r) → Bytes → Option (TargetInternal r)
  sw_find_target_internal targets path = hash_find internal_key path targets

  unfoldable pub swatcher_is_watched : List (TargetInternal r) → Bytes → Bool
  unfolding sw_find_target_internal
  swatcher_is_watched targets path = is_some (sw_find_target_internal targets path)

  unfoldable pub sw_add_target_internal :
      List (TargetInternal r) → TargetInternal r → List (TargetInternal r)
  sw_add_target_internal targets ti = hash_add targets ti

  unfoldable pub sw_remove_target_internal :
      List (TargetInternal r) → TargetInternal r → List (TargetInternal r)
  sw_remove_target_internal targets ti = hash_del internal_key ti.of_target.path targets

module _ (r : Regex) (os : TargetSystem) where
  -- `sw_patterns_compile` of one list. The memory of compiled patterns is not followed.
  abbrev pub compile : Option (List Bytes) → Option (CompiledPatterns r)
  compile patterns = (sw_patterns_compile r os.gives_patterns os.gives_array patterns).0

  unfoldable pub sw_target_internal_create : Target → World → Option (TargetInternal r × World)
  sw_target_internal_create target w = elim (sw_malloc os.gives Resource.target_internal w) [
    | none ↦ none
    | some w' ↦ some (
      record {
        of_target = target;
        compiled_callback = compile target.callback_patterns;
        compiled_watch = compile target.watch_patterns;
        compiled_ignore = compile target.ignore_patterns;
      },
      w',
    )
  ]

  -- The fields of the target: its path, what its file is, and the description's.
  unfoldable pub new_target : TargetDesc → Bytes → FileInfo → Target
  new_target desc path info = record {
    path = path;
    callback_patterns = desc.callback_patterns;
    watch_patterns = desc.watch_patterns;
    ignore_patterns = desc.ignore_patterns;
    is_recursive = desc.is_recursive;
    events = desc.events;
    watch_options = desc.watch_options;
    user_data = desc.user_data;
    last_event_time = os.time;
    is_symlink = info.is_symlink;
    is_file = info.is_file;
    is_directory = info.is_directory;
    follow_symlinks = desc.follow_symlinks;
    callback = desc.callback;
  }

  -- What follows the copy of the path.
  unfoldable pub finish_target : Target → World → Option (TargetInternal r) × World
  finish_target target w = elim (sw_target_internal_create target w) [
    | none ↦ (none, sw_free Resource.target (sw_free Resource.target_path (fail Error.alloc w)))
    | some (ti, w') ↦ (some ti, w')
  ]

  -- What follows the allocation of the target, in which the source puts the fields one by one.
  unfoldable pub fill_target : TargetDesc → World → Option (TargetInternal r) × World
  fill_target desc w = elim (os.normalize desc.path desc.follow_symlinks) [
    | none ↦ (none, sw_free Resource.target (fail Error.invalid_path w))
    | some normalized_path ↦ elim (os.stat normalized_path desc.follow_symlinks) [
      | none ↦ (none, sw_free Resource.target (fail Error.path_not_found w))
      | some info ↦ elim (sw_malloc os.gives Resource.target_path w) [
        | none ↦ (none, sw_free Resource.target (fail Error.alloc w))
        | some w' ↦ finish_target (new_target desc normalized_path info) w'
      ]
    ]
  ]

  unfoldable pub swatcher_target_create :
      Option TargetDesc → World → Option (TargetInternal r) × World
  unfolding sw_target_internal_create new_target finish_target fill_target
  swatcher_target_create none w = (none, fail Error.null_arg w)
  swatcher_target_create (some desc) w = elim (sw_malloc os.gives Resource.target w) [
    | none ↦ (none, fail Error.alloc w)
    | some w' ↦ fill_target desc w'
  ]

module _ {r : Regex} where
  -- The compiled patterns are freed by `sw_patterns_free`; their memory is not followed.
  unfoldable pub sw_target_internal_destroy : Option (TargetInternal r) → World → World
  sw_target_internal_destroy none w = w
  sw_target_internal_destroy (some ti) w = sw_free Resource.target_internal w

  -- A target with its internal struct, if it has one.
  unfoldable pub swatcher_target_destroy : Option (Option (TargetInternal r)) → World → World
  unfolding sw_target_internal_destroy
  swatcher_target_destroy none w = w
  swatcher_target_destroy (some ti) w =
      sw_free Resource.target (sw_free Resource.target_path (sw_target_internal_destroy ti w))
