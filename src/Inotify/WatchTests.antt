-- ===== src/Inotify/WatchTests.antt =====
-- The table of watches on small inputs.
use Prim.Native.Nat.{◌%◌}
use swatcher.Base.{
  ◌≡◌, refl, ℕ, ◌+◌, true, false, not, ◌&&◌, none, some, [], ◌∷◌, Bytes, codes, map, arith,
  if◌then◌else◌, ◌==◌, str_eq, hash_find, hash_del,
}
use swatcher.Platform.{FileInfo, snprintf, ends_with}
use swatcher.Platform.Sample.{sample}
use swatcher.Types.{Target, Error}
use swatcher.Pattern.Compile.{Regex}
use swatcher.Core.World.{World}
use swatcher.Core.Targets.{TargetInternal, sw_find_target_internal}
use swatcher.Inotify.Masks.{
  KernelFlag, Mask, all_flags, events_to_inotify_mask, inotify_to_swatcher_event,
}
use swatcher.Inotify.Watches.{
  watch_key, WatchResult, watching, no_space, Watching, WatchEnv, join_path, inotify_add_single,
  inotify_handle_dynamic_rmdir,
}
use swatcher.Inotify.Agree.{IsAgreed}
use swatcher.Inotify.Flags.{Translated, events_to_inotify_mask_lem, inotify_to_swatcher_event_lem}
use swatcher.Inotify.Single.{AddOutcome, inotify_add_single_lem}

events_to_inotify_mask_lem_example :
    events_to_inotify_mask 2 KernelFlag.access ≡ (not (2 % 256 == 0) && all_flags KernelFlag.access)
events_to_inotify_mask_lem_example = events_to_inotify_mask_lem 2 KernelFlag.access (omega arith)

-- A directory is made.
abbrev made : Mask
made KernelFlag.create = true
made KernelFlag.isdir = true
made flag = false

inotify_to_swatcher_event_lem_example : Translated made (inotify_to_swatcher_event made)
inotify_to_swatcher_event_lem_example = inotify_to_swatcher_event_lem made

abbrev pub no_regex : Regex
no_regex = record { Re = Bytes; re_compile = λ s. none; re_matchp = λ re s. none }

abbrev pub target : Bytes → Target
target path = record {
  path = path;
  callback_patterns = none;
  watch_patterns = none;
  ignore_patterns = none;
  is_recursive = true;
  events = 0xff;
  watch_options = 0;
  user_data = 0;
  last_event_time = 0;
  is_symlink = false;
  is_file = false;
  is_directory = true;
  follow_symlinks = false;
  callback = true;
}

-- The kernel can watch two directories. It gives a new descriptor each time to the one, and the same
-- descriptor always to the other.
abbrev pub add_watch : ℕ → Bytes → Mask → WatchResult
add_watch asked path mask =
    if str_eq path (codes "/r/d")
    then watching (10 + asked)
    else if str_eq path (codes "/r/e")
    then watching 2
    else no_space

abbrev a_file : FileInfo
a_file = record { is_file = true; is_directory = false; is_symlink = false; size = 3; mtime = 9 }

abbrev pub env : WatchEnv
env = record {
  platform = sample;
  system = record {
    gives = λ resource. true;
    gives_patterns = true;
    gives_array = true;
    normalize = λ path follow. some path;
    stat = λ path follow. some a_file;
    time = 1000;
  };
  add_watch = add_watch;
}

abbrev pub internal : Bytes → TargetInternal no_regex
internal path = record {
  of_target = target path;
  compiled_callback = none;
  compiled_watch = none;
  compiled_ignore = none;
}

abbrev pub empty : World
empty = record { g_alloc = none; last_error = Error.no_error; live = []; misfreed = [] }

abbrev pub both : Watching no_regex
both = record {
  data_ = record {
    wd_to_target =
        record { wd = 1; target = target (codes "/r/d") }
        ∷ record { wd = 2; target = target (codes "/r/e") }
        ∷ [];
    watch_count = 2;
    kernel = 1 ∷ 2 ∷ [];
    asked = 2;
  };
  targets = internal (codes "/r/d") ∷ internal (codes "/r/e") ∷ [];
  world = empty;
}

pub both-IsAgreed : IsAgreed both.data_ both.targets
unfolding hash_find str_eq
both-IsAgreed = record {
  keyed = (refl, (refl, tt));
  same_paths = refl;
  counted = omega arith;
  covered = λ wd there. ground (arith, there);
}

-- Only the other directory stays.
left_watched :
    let s' = inotify_handle_dynamic_rmdir sample (target (codes "/r")) (codes "d") both in
    map watch_key s'.data_.wd_to_target ≡ codes "/r/e" ∷ []
unfolding inotify_handle_dynamic_rmdir join_path ends_with snprintf hash_find str_eq
    sw_find_target_internal hash_del
left_watched = refl

abbrev none_watched : Watching no_regex
none_watched = record both {
  data_ = record { wd_to_target = []; watch_count = 0; kernel = []; asked = 0 };
  targets = [];
}

none_watched-IsAgreed : IsAgreed none_watched.data_ none_watched.targets
none_watched-IsAgreed = record {
  keyed = tt;
  same_paths = refl;
  counted = omega arith;
  covered = λ wd there. cc;
}

inotify_add_single_lem_example :
    AddOutcome env
      (target (codes "/r/e"))
      (some (internal (codes "/r/e")))
      none_watched
      (inotify_add_single env (target (codes "/r/e")) (some (internal (codes "/r/e"))) none_watched)
inotify_add_single_lem_example =
    inotify_add_single_lem env (target (codes "/r/e")) (some (internal (codes "/r/e"))) none_watched
      refl none_watched-IsAgreed (λ x same. ground (arith, same))
