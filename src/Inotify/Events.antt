-- ===== src/Inotify/Events.antt =====
-- backend/backend_inotify.c: the body of the loop of `inotify_thread_func` over the events that were read.
use swatcher.Base.{
  ℕ, Bool, true, false, not, ◌&&◌, ◌||◌, Option, none, some, List, [], ◌∷◌, ◌++◌, Bytes, ◌==◌,
  ◌>>=◌, if◌then◌else◌, is_some, hash_find, hash_add, hash_del,
}
use swatcher.Types.{FsEvent, Call, Target, wanted}
use swatcher.Pattern.Compile.{Regex, sw_pattern_matched}
use swatcher.Core.Targets.{TargetInternal, sw_find_target_internal}
use swatcher.Rescan.Walk.{sw_rescan_snapshot}
use swatcher.Rescan.Diff.{sw_rescan_diff}
use swatcher.Inotify.Masks.{KernelFlag, Mask, inotify_to_swatcher_event}
use swatcher.Inotify.Coalesce.{InotifyState, inotify_dispatch_event}
use swatcher.Inotify.Watches.{
  WatchEntry, Watching, rm_watch, join_path, inotify_handle_dynamic_rmdir,
}
use swatcher.Inotify.Recursive.{inotify_handle_dynamic_mkdir}
use swatcher.Inotify.Thread.{
  MovePending, move_key, KernelEvent, ThreadEnv, ThreadState, inotify_rescan_all,
}

-- `HASH_FIND_INT`: of two entries with one descriptor, the one that was added last.
unfoldable pub find_wd : ℕ → List WatchEntry → Option WatchEntry
find_wd wd [] = none
find_wd wd (e ∷ es) =
    let later = find_wd wd es in
    if is_some later then later else if e.wd == wd then some e else none

-- The kernel has dropped the watch; the table is left as it is.
unfoldable pub forget_watch : {r : Regex} → ℕ → Watching r → Watching r
unfolding rm_watch
forget_watch wd w = record w { data_ = record w.data_ { kernel = rm_watch wd w.data_.kernel } }

-- `sw_event == SWATCHER_EVENT_NONE`
unfoldable pub is_nothing : FsEvent → Bool
is_nothing FsEvent.nothing = true
is_nothing event = false

-- `(mask & (flag | IN_ISDIR)) == (flag | IN_ISDIR)`
abbrev pub has_dir : KernelFlag → Mask → Bool
has_dir flag mask = mask flag && mask KernelFlag.isdir

-- `mp ? mp->path : NULL`
abbrev pub old_path_of : Option MovePending → Option Bytes
old_path_of none = none
old_path_of (some mp) = some mp.path

-- The call for an overflow, which has neither a name nor more data.
abbrev pub overflow_call : Target → Call
overflow_call target = record {
  event = FsEvent.overflow;
  target = target.path;
  event_name = none;
  info = none;
}

unfoldable pub overflow_calls : List WatchEntry → List Call
overflow_calls [] = []
overflow_calls (e ∷ es) =
    if e.target.callback then overflow_call e.target ∷ overflow_calls es else overflow_calls es

abbrev pub call_all : List Call → InotifyState → InotifyState
call_all calls d = record d { calls = d.calls ++ calls }

module _ (env : ThreadEnv) where
  -- What is in each directory is reported as created: the old snapshot is null.
  unfoldable pub rescan_calls : List WatchEntry → Option (List Call)
  unfolding sw_rescan_snapshot sw_rescan_diff
  rescan_calls [] = some []
  rescan_calls (e ∷ es) = do
    rest ← rescan_calls es
    elim e.target.is_directory [
      | false ↦ some rest
      | true ↦ (do
        snap ←
            sw_rescan_snapshot env.watch.platform env.dispatch.entry_memory env.fuel e.target.path
              e.target.is_recursive
        some (sw_rescan_diff env.watch.platform.separator [] snap (some e.target) ++ rest))
    ]

  -- The calls that the overflow is told by, then, if the configuration asks for it, those of the rescan.
  unfoldable pub tell_overflow : InotifyState → List WatchEntry → Option InotifyState
  unfolding overflow_calls rescan_calls
  tell_overflow d table =
      let told = call_all (overflow_calls table) d in
      elim env.dispatch.config.overflow_rescan [
        | false ↦ some told
        | true ↦ (do calls ← rescan_calls table; some (call_all calls told))
      ]

  -- A pending move is kept; without memory nothing is.
  unfoldable pub buffer_move : Target → KernelEvent → List MovePending → List MovePending
  buffer_move target event moves = elim event.name [
    | none ↦ moves
    | some name ↦
        if not (event.cookie == 0) && env.move_memory
        then hash_add moves (record {
          cookie = event.cookie;
          path = join_path env.watch.platform target.path name;
          target = target;
          is_dir = event.mask KernelFlag.isdir;
          timestamp_ms = env.dispatch.now_ms;
        })
        else moves
  ]

module _ {r : Regex} (env : ThreadEnv) where
  -- `!compiled_callback || sw_pattern_matched(compiled_callback, name)`, where the name can be null. The
  -- internal struct of a watched target is in the table of targets.
  unfoldable pub passes : List (TargetInternal r) → Target → Option Bytes → Bool
  passes targets target name = elim (sw_find_target_internal targets target.path) [
    | none ↦ true
    | some ti ↦ not (is_some ti.compiled_callback) || sw_pattern_matched r ti.compiled_callback name
  ]

  unfoldable pub handle_overflow : ThreadState r → Option (ThreadState r)
  unfolding tell_overflow inotify_rescan_all
  handle_overflow s = do
    w ← inotify_rescan_all env s.watching
    d ← tell_overflow env s.dispatched w.data_.wd_to_target
    some (record s { watching = w; dispatched = d })

  -- A directory that appears under a watched one.
  unfoldable pub follow_mkdir : Target → KernelEvent → Watching r → Option (Watching r)
  unfolding inotify_handle_dynamic_mkdir
  follow_mkdir target event w = elim event.name [
    | none ↦ some w
    | some name ↦
        if has_dir KernelFlag.create event.mask || has_dir KernelFlag.moved_to event.mask
        then inotify_handle_dynamic_mkdir env.watch env.fuel target name w
        else some w
  ]

  -- One that goes.
  unfoldable pub follow_rmdir : Target → KernelEvent → Watching r → Watching r
  unfolding inotify_handle_dynamic_rmdir
  follow_rmdir target event w = elim event.name [
    | none ↦ w
    | some name ↦
        if has_dir KernelFlag.delete event.mask || has_dir KernelFlag.moved_from event.mask
        then inotify_handle_dynamic_rmdir env.watch.platform target name w
        else w
  ]

  -- The second half of a move, with the first half if that is pending.
  unfoldable pub pair_move : Target → KernelEvent → ThreadState r → ThreadState r
  unfolding passes
  pair_move target event s =
      let first : Option MovePending =
        if event.cookie == 0
        then none
        else hash_find move_key (event.cookie ∷ []) s.pending_moves in
      let s' = record s {
        pending_moves =
            if is_some first
            then hash_del move_key (event.cookie ∷ []) s.pending_moves
            else s.pending_moves;
      } in
      if is_some event.name
        && wanted target.events FsEvent.moved
        && passes s.watching.targets target event.name
      then record s' {
        dispatched =
            inotify_dispatch_event env.dispatch target FsEvent.moved event.name
              (event.mask KernelFlag.isdir) (old_path_of first) s.dispatched;
      }
      else s'

  unfoldable pub report_event : Target → KernelEvent → ThreadState r → ThreadState r
  unfolding passes
  report_event target event s =
      let sw_event = inotify_to_swatcher_event event.mask in
      if not (is_nothing sw_event)
        && wanted target.events sw_event
        && passes s.watching.targets target event.name
      then record s {
        dispatched =
            inotify_dispatch_event env.dispatch target sw_event event.name
              (event.mask KernelFlag.isdir) none s.dispatched;
      }
      else s

  -- What follows the changes of the watches.
  unfoldable pub deliver : Target → KernelEvent → ThreadState r → ThreadState r
  unfolding buffer_move pair_move report_event
  deliver target event s =
      if event.mask KernelFlag.moved_from
      then record s { pending_moves = buffer_move env target event s.pending_moves }
      else if event.mask KernelFlag.moved_to
      then pair_move target event s
      else report_event target event s

  unfoldable pub handle_watched : Target → KernelEvent → ThreadState r → Option (ThreadState r)
  unfolding follow_mkdir follow_rmdir deliver
  handle_watched target event s = do
    w ← follow_mkdir target event s.watching
    some (deliver target event (record s { watching = follow_rmdir target event w }))

  unfoldable pub handle_event : KernelEvent → ThreadState r → Option (ThreadState r)
  unfolding handle_overflow handle_watched find_wd forget_watch
  handle_event event s =
      if event.mask KernelFlag.q_overflow
      then handle_overflow s
      else if event.mask KernelFlag.ignored
      then some (record s { watching = forget_watch event.wd s.watching })
      else elim (find_wd event.wd s.watching.data_.wd_to_target) [
        | none ↦ some s
        | some e ↦ handle_watched e.target event s
      ]

  unfoldable pub handle_events : List KernelEvent → ThreadState r → Option (ThreadState r)
  unfolding handle_event
  handle_events [] s = some s
  handle_events (event ∷ events) s = do s' ← handle_event event s; handle_events events s'
