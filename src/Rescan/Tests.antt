-- ===== src/Rescan/Tests.antt =====
-- Tests of the snapshots and their differences, and the theorems at concrete inputs.
use swatcher.Base.{
  ◌≡◌, ◌↔◌, refl, true, false, none, some, [], ◌∷◌, codes, In, inl, inr, arith, hash_find, str_eq,
}
use swatcher.Platform.{Platform, is_dot}
use swatcher.Platform.Sample.{sample, sample_dir_open, sample_stat, file_entry, dir_entry}
use swatcher.Types.{FsEvent, Target, plain_call}
use swatcher.Rescan.Walk.{RescanEntry, Snapshot, sw_rescan_snapshot}
use swatcher.Rescan.Diff.{sw_rescan_diff}
use swatcher.Rescan.Visible.{Visible}
use swatcher.Rescan.Exact.{sw_rescan_snapshot_iff}
use swatcher.Rescan.Fuel.{FitsPaths, sw_rescan_snapshot_ends, sw_rescan_snapshot_diverges}
use swatcher.Rescan.Calls.{Due, sw_rescan_diff_iff}

abbrev a_entry : RescanEntry
a_entry = record { path = codes "/r/a.txt"; mtime = 5; size = 3 }

abbrev b_entry : RescanEntry
b_entry = record { path = codes "/r/sub/b.txt"; mtime = 6; size = 4 }

abbrev both : Snapshot
both = a_entry ∷ b_entry ∷ []

snapshot_of_sample : sw_rescan_snapshot sample (λ _. true) 3 (codes "/r") true ≡ some both
unfolding sw_rescan_snapshot sample_dir_open sample_stat
snapshot_of_sample = refl

abbrev target : Target
target = record {
  path = codes "/r";
  callback_patterns = none;
  watch_patterns = none;
  ignore_patterns = none;
  is_recursive = true;
  events = 0xff;
  watch_options = 0;
  user_data = 0;
  last_event_time = 0;
  is_symlink = false;
  is_file = false;
  is_directory = true;
  follow_symlinks = false;
  callback = true;
}

-- A file has grown, and another has come.
grown :
    sw_rescan_diff b'/' (record a_entry { size = 2 } ∷ []) both (some target)
    ≡ plain_call FsEvent.modified (codes "/r") (codes "a.txt")
      ∷ plain_call FsEvent.created (codes "/r") (codes "b.txt")
      ∷ []
unfolding sw_rescan_diff plain_call
grown = refl

sw_rescan_snapshot_iff_example : In a_entry both ↔ Visible sample a_entry true (codes "/r")
sw_rescan_snapshot_iff_example =
    sw_rescan_snapshot_iff sample (λ _. true) 3 (codes "/r") true both a_entry (λ _. refl)
      snapshot_of_sample

-- A system with one empty directory.
abbrev small : Platform
small = record {
  path_max = 8;
  separator = b'/';
  stat = λ path follow. none;
  dir_open = λ path. some (file_entry (codes "f") ∷ []);
  time_now_ms = λ path. 0;
}

small-FitsPaths : FitsPaths small
small-FitsPaths dir entries h =
    let e : file_entry (codes "f") ∷ [] ≡ entries = ground arith in
    rw (← e) ((omega arith, inr (inl refl)), tt)

sw_rescan_snapshot_ends_example :
    (snapshot : Snapshot) × (sw_rescan_snapshot small (λ _. true) 7 (codes "/r") true
      ≡ some snapshot)
sw_rescan_snapshot_ends_example =
    sw_rescan_snapshot_ends small (λ _. true) (codes "/r") true 7 small-FitsPaths (omega arith)
      (omega arith)

-- A directory whose path fills a buffer of three bytes.
abbrev deep : Platform
deep = record small { path_max = 3; dir_open = λ path. some (dir_entry (codes "d") ∷ []) }

sw_rescan_snapshot_diverges_example :
    sw_rescan_snapshot deep (λ _. true) 100 (codes "/r") true ≡ none
unfolding is_dot str_eq
sw_rescan_snapshot_diverges_example =
    sw_rescan_snapshot_diverges deep (λ _. true) (codes "/r") (dir_entry (codes "d"))
      (dir_entry (codes "d") ∷ []) refl (inl refl) refl refl (omega arith) 100

sw_rescan_diff_iff_example :
    In
      (plain_call FsEvent.created (codes "/r") (codes "b.txt"))
      (sw_rescan_diff b'/' (a_entry ∷ []) both (some target))
    ↔ Due b'/' target (a_entry ∷ []) both (plain_call FsEvent.created (codes "/r") (codes "b.txt"))
unfolding hash_find str_eq
sw_rescan_diff_iff_example =
    sw_rescan_diff_iff b'/' target (a_entry ∷ []) both
      (plain_call FsEvent.created (codes "/r") (codes "b.txt")) refl (refl, tt) (refl, (refl, tt))
