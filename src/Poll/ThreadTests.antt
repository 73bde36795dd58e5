-- ===== src/Poll/ThreadTests.antt =====
-- The poll thread on a small system.
use swatcher.Base.{
  ◌≡◌, refl, ℕ, ◌+◌, ◌≤◌, ◌<◌, true, false, none, some, [], ◌∷◌, Bytes, codes, arith, inl, inr,
  Sure,
}
use swatcher.Platform.{Platform}
use swatcher.Platform.Sample.{file_entry}
use swatcher.Types.{Target}
use swatcher.Rescan.Fuel.{FitsPaths}
use swatcher.Pattern.Compile.{Regex}
use swatcher.Poll.State.{ScanEnv, ScanState}
use swatcher.Poll.Target.{poll_scan_target}
use swatcher.Poll.Fuel.{Fits}
use swatcher.Poll.Thread.{PollState, PollWorld, poll_thread_func}
use swatcher.Poll.Rounds.{IsSteady, poll_scan_target-Fits}
use swatcher.Poll.Stop.{poll_thread_func-Ends}

abbrev no_regex : Regex
no_regex = record { Re = Bytes; re_compile = λ s. none; re_matchp = λ re s. none }

abbrev target : Target
target = record {
  path = codes "/r";
  callback_patterns = none;
  watch_patterns = none;
  ignore_patterns = none;
  is_recursive = true;
  events = 0xff;
  watch_options = 0;
  user_data = 0;
  last_event_time = 0;
  is_symlink = false;
  is_file = false;
  is_directory = true;
  follow_symlinks = false;
  callback = true;
}

-- Every directory has one file.
abbrev small : Platform
small = record {
  path_max = 8;
  separator = b'/';
  stat = λ path follow. none;
  dir_open = λ path. some (file_entry (codes "f") ∷ []);
  time_now_ms = λ path. 0;
}

abbrev env_of : Target → ScanEnv no_regex
env_of watched = record {
  platform = small;
  config = record {
    poll_interval_ms = 50;
    enable_logging = false;
    coalesce_ms = 0;
    allocator = none;
    overflow_rescan = false;
    vcs_aware = false;
  };
  target = watched;
  patterns = none;
  time = 9;
  entry_memory = λ path. true;
  dir_memory = λ path. true;
  fresh_flag = true;
}

-- The thread is told to stop after 120 ms, and a round takes 30.
abbrev world : PollWorld no_regex
world = record {
  poll_interval_ms = 50;
  stop_at = 120;
  env_at = λ t watched. env_of watched;
  round_ms = λ t. 30;
  scan_fuel = 8;
}

small-FitsPaths : FitsPaths small
small-FitsPaths dir entries h =
    let listed : file_entry (codes "f") ∷ [] ≡ entries = ground (arith, h) in
    rw (← listed) ((omega arith, inr (inl refl)), tt)

world-IsSteady : IsSteady world 8
world-IsSteady = record {
  one_size = λ t watched. refl;
  own_target = λ t watched. refl;
  fits = λ t watched. small-FitsPaths;
  fuel = omega arith;
}

abbrev one : PollState
one = record {
  targets = record { target = target; snapshots = []; dir_mtimes = [] } ∷ [];
  vcs_cache = [];
  calls = [];
}

poll_thread_func-Ends_example :
    (t' : ℕ) × (s' : PollState) × (poll_thread_func world 200 0 one ≡ some (t', s'))
    × (120 ≤ t')
    × (t' < 120 + 100 + 30)
poll_thread_func-Ends_example =
    poll_thread_func-Ends world 30 8 200 0 one (λ u. omega arith) world-IsSteady
      ((omega arith, tt), tt) (omega arith) (omega arith)

abbrev start : ScanState
start = record {
  snapshots = [];
  dir_mtimes = record { path = codes "/r"; mtime = 3; cached_at = 0 } ∷ [];
  vcs_cache = [];
  last_event_time = 0;
  calls = [];
}

poll_scan_target-Fits_example :
    Sure (λ s'. Fits (env_of target) s'.dir_mtimes) (poll_scan_target (env_of target) 8 start)
poll_scan_target-Fits_example =
    poll_scan_target-Fits (env_of target) 8 start small-FitsPaths (omega arith) (omega arith)
      (omega arith, tt)
