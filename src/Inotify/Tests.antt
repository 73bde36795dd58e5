-- ===== src/Inotify/Tests.antt =====
-- The coalescing of events on small tables.
use swatcher.Base.{
  ◌≡◌, refl, ℕ, true, false, not, none, [], ◌∷◌, ◌++◌, Bytes, codes, filter, hash_find, str_eq,
  if◌then◌else◌, IsKeyed,
}
use swatcher.Platform.{snprintf}
use swatcher.Platform.Sample.{sample}
use swatcher.Types.{FsEvent, Target}
use swatcher.Poll.State.{sub64}
use swatcher.Inotify.Coalesce.{
  CoalesceEntry, coalesce_key, InotifyEnv, InotifyState, is_due, inotify_coalesce_flush,
  inotify_coalesce_add,
}
use swatcher.Inotify.Merge.{entry_after, inotify_coalesce_add_lem}
use swatcher.Inotify.Flush.{calls_of, inotify_coalesce_flush_lem}

abbrev target : Target
target = record {
  path = codes "/r";
  callback_patterns = none;
  watch_patterns = none;
  ignore_patterns = none;
  is_recursive = true;
  events = 0xff;
  watch_options = 0;
  user_data = 0;
  last_event_time = 0;
  is_symlink = false;
  is_file = false;
  is_directory = true;
  follow_symlinks = false;
  callback = true;
}

abbrev pub dispatch_env : InotifyEnv
dispatch_env = record {
  platform = sample;
  config = record {
    poll_interval_ms = 100;
    enable_logging = false;
    coalesce_ms = 50;
    allocator = none;
    overflow_rescan = false;
    vcs_aware = false;
  };
  now_ms = 1000;
  time = 7;
  entry_memory = λ path. true;
}

abbrev entry : Bytes → FsEvent → ℕ → CoalesceEntry
entry path event timestamp_ms = record {
  path = path;
  event = event;
  target = target;
  timestamp_ms = timestamp_ms;
  is_dir = false;
  old_path = [];
}

-- One entry is due and one is not.
abbrev pub two : InotifyState
two = record {
  pending_events =
      entry (codes "/r/a") FsEvent.created 900 ∷ entry (codes "/r/b") FsEvent.modified 990 ∷ [];
  vcs_cache = [];
  calls = [];
  event_times = [];
}

two-IsKeyed : IsKeyed coalesce_key two.pending_events
unfolding hash_find str_eq
two-IsKeyed = (refl, (refl, tt))

inotify_coalesce_add_lem_example :
    let done =
      inotify_coalesce_add dispatch_env (codes "/r/a") FsEvent.deleted target false none two in
    let after = done.pending_events in
    IsKeyed coalesce_key after
    × ((j : Bytes)
        → hash_find coalesce_key j after ≡ (
            if str_eq (codes "/r/a") j
            then entry_after dispatch_env
                (codes "/r/a")
                FsEvent.deleted
                target
                false
                none
                (hash_find coalesce_key (codes "/r/a") two.pending_events)
            else hash_find coalesce_key j two.pending_events))
unfolding snprintf
inotify_coalesce_add_lem_example =
    inotify_coalesce_add_lem dispatch_env (codes "/r/a") FsEvent.deleted target false none two refl
      two-IsKeyed

inotify_coalesce_flush_lem_example :
    let after = inotify_coalesce_flush dispatch_env false two in
    (after.pending_events ≡ filter (λ ce. not (is_due dispatch_env false ce)) two.pending_events)
    × (after.calls
        ≡ [] ++ calls_of dispatch_env (filter (is_due dispatch_env false) two.pending_events))
inotify_coalesce_flush_lem_example =
    inotify_coalesce_flush_lem dispatch_env false two refl two-IsKeyed

-- Only the entry that is due goes.
left_pending :
    filter (λ ce. not (is_due dispatch_env false ce)) two.pending_events
    ≡ entry (codes "/r/b") FsEvent.modified 990 ∷ []
unfolding is_due sub64
left_pending = refl
