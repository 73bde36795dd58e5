-- ===== src/Inotify/Coalesce.antt =====
-- backend/backend_inotify.c: `inotify_coalesce_dispatch`, `inotify_coalesce_flush`,
-- `inotify_coalesce_add` and `inotify_dispatch_event`.
use swatcher.Base.{
  ℕ, Bool, ◌||◌, Option, none, some, List, [], ◌∷◌, ◌++◌, Bytes, ltb, leb, if◌then◌else◌, hash_find,
  hash_add, hash_del, hash_set,
}
use swatcher.Platform.{Platform, snprintf, basename, ends_with}
use swatcher.Types.{FsEvent, Call, Target, Config}
use swatcher.Vcs.{VcsCache, pause}
use swatcher.Poll.State.{sub64}

-- `coalesce_entry`; an empty `old_path` means that there is none.
pub record CoalesceEntry : Type 0 where
  pub path : Bytes
  pub event : FsEvent
  pub target : Target
  pub timestamp_ms : ℕ
  pub is_dir : Bool
  pub old_path : Bytes

abbrev pub coalesce_key : CoalesceEntry → Bytes
coalesce_key ce = ce.path

-- What an operation reads: the system, the configuration, the monotonic clock and the time of day at
-- its moment, and which entries get memory.
pub record InotifyEnv : Type 0 where
  pub platform : Platform
  pub config : Config
  pub now_ms : ℕ
  pub time : ℕ
  pub entry_memory : Bytes → Bool

-- What it changes: the table of pending events, the cache of vcs.c, the calls of the callbacks, and the
-- writes of the targets' `last_event_time`, each with its target's path.
pub record InotifyState : Type 0 where
  pub pending_events : List CoalesceEntry
  pub vcs_cache : VcsCache
  pub calls : List Call
  pub event_times : List (Bytes × ℕ)

-- What the merge rules make of a pending event and a new one for the same path.
pub data Merge : Type 0 where
  forget touch turn_deleted replace : Merge

unfoldable pub merge_rule : FsEvent → FsEvent → Merge
merge_rule FsEvent.created FsEvent.deleted = Merge.forget
merge_rule FsEvent.created FsEvent.modified = Merge.touch
merge_rule FsEvent.modified FsEvent.modified = Merge.touch
merge_rule FsEvent.modified FsEvent.deleted = Merge.turn_deleted
merge_rule pending event = Merge.replace

-- `old_path ? old_path : ""`
abbrev pub or_empty : Option Bytes → Bytes
or_empty none = []
or_empty (some path) = path

-- `old_path[0] ? old_path : NULL`
abbrev pub or_null : Bytes → Option Bytes
or_null [] = none
or_null (c ∷ path) = some (c ∷ path)

module _ (env : InotifyEnv) where
  -- The call of a callback, and the time of the event.
  unfoldable pub call_back : Target → Call → InotifyState → InotifyState
  call_back target call s = record s {
    calls = s.calls ++ call ∷ [];
    event_times = s.event_times ++ (target.path, env.time) ∷ [];
  }

  unfoldable pub inotify_coalesce_dispatch : CoalesceEntry → InotifyState → InotifyState
  inotify_coalesce_dispatch ce s =
      if ce.target.callback
      then (let (paused, cache) = pause env.platform env.config s.vcs_cache ce.target.path in
          if paused
          then record s { vcs_cache = cache }
          else call_back ce.target
              (record {
                event = ce.event;
                target = ce.target.path;
                event_name = some (basename b'/' ce.path);
                info = some (record { old_path = or_null ce.old_path; is_dir = ce.is_dir });
              })
              (record s { vcs_cache = cache }))
      else s

  -- `now_ms - current->timestamp_ms >= (uint64_t)coalesce_ms`
  unfoldable pub is_due : Bool → CoalesceEntry → Bool
  is_due flush_all ce = flush_all || leb env.config.coalesce_ms (sub64 env.now_ms ce.timestamp_ms)

  -- The loop over the table.
  unfoldable pub flush_loop : Bool → List CoalesceEntry → InotifyState → InotifyState
  flush_loop flush_all [] s = s
  flush_loop flush_all (ce ∷ todo) s = flush_loop flush_all todo (
      if is_due flush_all ce
      then (let s' = inotify_coalesce_dispatch ce s in
          record s' { pending_events = hash_del coalesce_key ce.path s'.pending_events })
      else s)

  unfoldable pub inotify_coalesce_flush : Bool → InotifyState → InotifyState
  inotify_coalesce_flush flush_all s = flush_loop flush_all s.pending_events s

  -- An entry for a path that has none.
  abbrev pub new_entry : Bytes → FsEvent → Target → Bool → Option Bytes → CoalesceEntry
  new_entry full_path event target is_dir old_path = record {
    path = snprintf env.platform.path_max full_path;
    event = event;
    target = target;
    timestamp_ms = env.now_ms;
    is_dir = is_dir;
    old_path = snprintf env.platform.path_max (or_empty old_path);
  }

  abbrev pub touched : CoalesceEntry → CoalesceEntry
  touched existing = record existing { timestamp_ms = env.now_ms }

  abbrev pub turned : CoalesceEntry → CoalesceEntry
  turned existing = record existing { event = FsEvent.deleted; timestamp_ms = env.now_ms }

  abbrev pub replaced : FsEvent → Bool → Option Bytes → CoalesceEntry → CoalesceEntry
  replaced event is_dir old_path existing = record existing {
    event = event;
    timestamp_ms = env.now_ms;
    is_dir = is_dir;
    old_path = snprintf env.platform.path_max (or_empty old_path);
  }

  unfoldable pub merge_into :
      Merge → Bytes → FsEvent → Bool → Option Bytes → List CoalesceEntry → List CoalesceEntry
  merge_into Merge.forget full_path event is_dir old_path pending =
      hash_del coalesce_key full_path pending
  merge_into Merge.touch full_path event is_dir old_path pending =
      hash_set coalesce_key full_path touched pending
  merge_into Merge.turn_deleted full_path event is_dir old_path pending =
      hash_set coalesce_key full_path turned pending
  merge_into Merge.replace full_path event is_dir old_path pending =
      hash_set coalesce_key full_path (replaced event is_dir old_path) pending

  -- The table after `inotify_coalesce_add`.
  unfoldable pub add_pending :
      Bytes → FsEvent → Target → Bool → Option Bytes → List CoalesceEntry → List CoalesceEntry
  unfolding merge_rule merge_into
  add_pending full_path event target is_dir old_path pending =
      elim (hash_find coalesce_key full_path pending) [
        | none ↦
            if env.entry_memory full_path
            then hash_add pending (new_entry full_path event target is_dir old_path)
            else pending
        | some existing ↦
            merge_into (merge_rule existing.event event) full_path event is_dir old_path pending
      ]

  unfoldable pub inotify_coalesce_add :
      Bytes → FsEvent → Target → Bool → Option Bytes → InotifyState → InotifyState
  inotify_coalesce_add full_path event target is_dir old_path s = record s {
    pending_events = add_pending full_path event target is_dir old_path s.pending_events;
  }

  -- `full_path`, which always has a slash
  unfoldable pub full_path_of : Bytes → Bytes → Bytes
  full_path_of dir name =
      if ends_with b'/' dir
      then snprintf env.platform.path_max (dir ++ name)
      else snprintf env.platform.path_max (dir ++ b'/' ∷ name)

  unfoldable pub call_now :
      Target → FsEvent → Option Bytes → Bool → Option Bytes → InotifyState → InotifyState
  call_now target sw_event name is_dir old_path s =
      let (paused, cache) = pause env.platform env.config s.vcs_cache target.path in
      if paused
      then record s { vcs_cache = cache }
      else call_back target
          (record {
            event = sw_event;
            target = target.path;
            event_name = name;
            info = some (record { old_path = old_path; is_dir = is_dir });
          })
          (record s { vcs_cache = cache })

  unfoldable pub inotify_dispatch_event :
      Target → FsEvent → Option Bytes → Bool → Option Bytes → InotifyState → InotifyState
  unfolding full_path_of call_now
  inotify_dispatch_event target sw_event none is_dir old_path s =
      call_now target sw_event none is_dir old_path s
  inotify_dispatch_event target sw_event (some name) is_dir old_path s =
      if ltb 0 env.config.coalesce_ms
      then inotify_coalesce_add (full_path_of target.path name) sw_event target is_dir old_path s
      else call_now target sw_event (some name) is_dir old_path s
