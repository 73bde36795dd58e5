-- ===== src/Core/PollTests.antt =====
-- The addition of a target to the poll backend on a small system.
use swatcher.Base.{
  ◌≡◌, refl, true, false, none, some, List, [], ◌∷◌, ◌++◌, Bytes, codes, arith, inl, inr, Sure,
  hash_find,
}
use swatcher.Platform.{Platform}
use swatcher.Platform.Sample.{file_entry}
use swatcher.Types.{Target, Error}
use swatcher.Pattern.Compile.{Regex}
use swatcher.Rescan.Fuel.{FitsPaths}
use swatcher.Poll.Thread.{SwatcherPoll}
use swatcher.Core.World.{Resource, World, same}
use swatcher.Core.Holdings.{SameHoldings}
use swatcher.Core.Release.{held}
use swatcher.Core.PollBackend.{poll_destroy, poll_destroy_lem}
use swatcher.Core.Targets.{TargetInternal}
use swatcher.Core.Lifecycle.{Shared}
use swatcher.Core.PollTargets.{PollEnv, poll_add_target}
use swatcher.Core.PollAdded.{AddOutcome, poll_add_target_lem}

abbrev no_regex : Regex
no_regex = record { Re = Bytes; re_compile = λ s. none; re_matchp = λ re s. none }

abbrev target : Bytes → Target
target path = record {
  path = path;
  callback_patterns = none;
  watch_patterns = none;
  ignore_patterns = none;
  is_recursive = true;
  events = 0xff;
  watch_options = 0;
  user_data = 0;
  last_event_time = 0;
  is_symlink = false;
  is_file = false;
  is_directory = true;
  follow_symlinks = false;
  callback = true;
}

-- Every directory has one file.
abbrev small : Platform
small = record {
  path_max = 8;
  separator = b'/';
  stat = λ path follow. none;
  dir_open = λ path. some (file_entry (codes "f") ∷ []);
  time_now_ms = λ path. 0;
}

small-FitsPaths : FitsPaths small
small-FitsPaths dir entries h =
    let listed : file_entry (codes "f") ∷ [] ≡ entries = ground (arith, h) in
    rw (← listed) ((omega arith, inr (inl refl)), tt)

abbrev env : PollEnv no_regex
env = record {
  system = record {
    gives = λ resource. true;
    gives_patterns = true;
    gives_array = true;
    normalize = λ path follow. some path;
    stat = λ path follow. none;
    time = 1000;
  };
  scan_env = λ watched patterns. record {
    platform = small;
    config = record {
      poll_interval_ms = 50;
      enable_logging = false;
      coalesce_ms = 0;
      allocator = none;
      overflow_rescan = false;
      vcs_aware = false;
    };
    target = watched;
    patterns = patterns;
    time = 9;
    entry_memory = λ path. true;
    dir_memory = λ path. true;
    fresh_flag = true;
  };
  fuel = 8;
}

abbrev internal : Bytes → TargetInternal no_regex
internal path = record {
  of_target = target path;
  compiled_callback = none;
  compiled_watch = none;
  compiled_ignore = none;
}

-- One target is watched.
abbrev one : Shared no_regex SwatcherPoll
one = record {
  data_ = record { target = target (codes "/a"); snapshots = []; dir_mtimes = [] } ∷ [];
  targets = internal (codes "/a") ∷ [];
  world = record { g_alloc = none; last_error = Error.no_error; live = []; misfreed = [] };
}

poll_add_target_lem_example :
    Sure
      (AddOutcome env (target (codes "/b")) none one)
      (poll_add_target env (target (codes "/b")) none one)
unfolding hash_find
poll_add_target_lem_example =
    poll_add_target_lem env (target (codes "/b")) none one
      (record {
        own_target = refl;
        fits = small-FitsPaths;
        short = omega arith;
        fuel = omega arith;
      })
      refl (record { keyed = (refl, tt); same_paths = refl })
      (λ x same. absurd (ground (arith, same)))

-- Two targets, and the blocks in another order than they are freed in.
abbrev two_targets : SwatcherPoll
two_targets = one.data_ ++ one.data_

abbrev table_blocks : List Resource
table_blocks = Resource.watch ∷ Resource.backend_data ∷ Resource.watch ∷ []

abbrev holding_table : World
holding_table = record one.world { live = held none table_blocks ++ one.world.live }

poll_destroy_lem_example : SameHoldings (poll_destroy two_targets holding_table) one.world
unfolding same
poll_destroy_lem_example =
    poll_destroy_lem two_targets table_blocks one.world holding_table refl refl
      (record { blocks = refl; misfreed = refl; g_alloc = refl })
