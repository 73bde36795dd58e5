-- ===== src/Poll/Tests.antt =====
-- Tests of the poll backend, and the theorems at concrete inputs.
use swatcher.Base.{
  ◌≡◌, refl, true, false, Option, none, some, List, [], ◌∷◌, ◌++◌, Bytes, codes, count, one_if, All,
  hash_find, hash_set, hash_del, str_eq, arith,
}
use swatcher.Platform.{child_path, is_dot, basename}
use swatcher.Platform.Sample.{sample, sample_dir_open, sample_stat}
use swatcher.Types.{FsEvent, Call, bits, wanted}
use swatcher.Vcs.{pause}
use swatcher.Pattern.Compile.{Regex}
use swatcher.Poll.State.{
  FileSnapshot, ScanEnv, ScanState, snapshot_add, refresh, allowed, ignored, sub64,
}
use swatcher.Poll.Scan.{check_dir_mtime, record_file, scan_entry, scan_entries, scan_dir}
use swatcher.Poll.Target.{is_deleted, finish, poll_scan_target}
use swatcher.Poll.Initial.{poll_initial_snapshot}
use swatcher.Poll.Loud.{IsLoud}
use swatcher.Poll.Settle.{IsScanned, is_new}
use swatcher.Poll.Told.{tells_gone, tells_new, at_path, Justified}
use swatcher.Poll.Report.{finish_lem}

program : Unit {0}
unfolding poll_scan_target poll_initial_snapshot scan_dir scan_entries scan_entry record_file
    check_dir_mtime refresh snapshot_add allowed ignored hash_find hash_set hash_del str_eq
    child_path is_dot basename wanted bits pause sub64 sample_dir_open sample_stat
program = tt

abbrev no_regex : Regex
no_regex = record { Re = Bytes; re_compile = λ s. none; re_matchp = λ re s. none }

abbrev env : ScanEnv no_regex
env = record {
  platform = sample;
  config = record {
    poll_interval_ms = 100;
    enable_logging = false;
    coalesce_ms = 0;
    allocator = none;
    overflow_rescan = false;
    vcs_aware = false;
  };
  target = record {
    path = codes "/r";
    callback_patterns = none;
    watch_patterns = none;
    ignore_patterns = none;
    is_recursive = true;
    events = 0xff;
    watch_options = 0;
    user_data = 0;
    last_event_time = 0;
    is_symlink = false;
    is_file = false;
    is_directory = true;
    follow_symlinks = false;
    callback = true;
  };
  patterns = none;
  time = 9;
  entry_memory = λ path. true;
  dir_memory = λ path. true;
  fresh_flag = true;
}

abbrev file_a : FileSnapshot
file_a = record { path = codes "/r/a.txt"; mtime = 5; size = 3; seen = true; is_new = true }

abbrev file_b : FileSnapshot
file_b = record { path = codes "/r/sub/b.txt"; mtime = 6; size = 4; seen = true; is_new = true }

first_snapshot : poll_initial_snapshot env 3 ≡ some (file_a ∷ file_b ∷ [])
unfolding program
first_snapshot = refl

abbrev start : List FileSnapshot → ScanState
start snapshots = record {
  snapshots = snapshots;
  dir_mtimes = [];
  vcs_cache = [];
  last_event_time = 0;
  calls = [];
}

-- A file that has gone, of the size of one that has come.
abbrev old_b : FileSnapshot
old_b = record { path = codes "/r/old.txt"; mtime = 2; size = 4; seen = true; is_new = false }

events_of : Option ScanState → List (FsEvent × Option Bytes)
events_of none = []
events_of (some s) = names s.calls
  where
    names : List Call → List (FsEvent × Option Bytes)
    names [] = []
    names (c ∷ calls) = (c.event, c.event_name) ∷ names calls

renamed :
    events_of (poll_scan_target env 3 (start (record file_a { size = 2 } ∷ old_b ∷ [])))
    ≡ (FsEvent.modified, some (codes "/r/a.txt"))
      ∷ (FsEvent.moved, some (codes "/r/sub/b.txt"))
      ∷ []
unfolding program events_of
renamed = refl

env-IsLoud : IsLoud env
unfolding allowed
env-IsLoud = record { all_events = refl; no_pause = refl; no_filter = λ name. refl }

-- A table after the walk: `/r/old.txt` was not seen, `/r/sub/b.txt` is new.
abbrev walked : ScanState
walked = start (record old_b { seen = false } ∷ file_b ∷ [])

walked-IsScanned : IsScanned walked.snapshots
unfolding hash_find str_eq
walked-IsScanned = record { keyed = (refl, (refl, tt)); new_seen = λ k e h n. ground arith }

finish_lem_example :
    (added : List Call) × ((finish env walked).calls ≡ walked.calls ++ added)
    × All (Justified env walked.snapshots) added
    × ((j : Bytes) → count (tells_gone j) added ≡ one_if (at_path is_deleted j walked.snapshots))
    × ((j : Bytes) → count (tells_new j) added ≡ one_if (at_path is_new j walked.snapshots))
    × (count is_deleted (finish env walked).snapshots ≡ 0)
    × (count is_new (finish env walked).snapshots ≡ 0)
finish_lem_example = finish_lem env env-IsLoud walked walked-IsScanned
