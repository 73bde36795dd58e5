-- ===== src/Inotify/Thread.antt =====
-- backend/backend_inotify.c: `inotify_thread_func` without its waiting: the pending moves, the table of
-- watches on an overflow, and what is done for one event of the kernel.
use swatcher.Base.{
  ℕ, zero, suc, ◌+◌, Bool, true, false, not, ◌&&◌, Option, none, some, List, [], ◌∷◌, Bytes, codes,
  ltb, leb, ◌>>=◌, if◌then◌else◌, str_eq, is_some, hash_del, ◌||◌,
}
use swatcher.Platform.{DirEntry, basename}
use swatcher.Types.{FsEvent, Target, wanted}
use swatcher.Pattern.Compile.{Regex}
use swatcher.Core.Targets.{sw_find_target_internal}
use swatcher.Poll.State.{sub64}
use swatcher.Inotify.Masks.{Mask}
use swatcher.Inotify.Coalesce.{
  InotifyEnv, InotifyState, inotify_coalesce_flush, inotify_dispatch_event,
}
use swatcher.Inotify.Watches.{WatchEntry, Watching, WatchEnv, join_path}
use swatcher.Inotify.Recursive.{inotify_handle_dynamic_mkdir}

-- `move_pending`
pub record MovePending : Type 0 where
  pub cookie : ℕ
  pub path : Bytes
  pub target : Target
  pub is_dir : Bool
  pub timestamp_ms : ℕ

-- The key is the number's four bytes; here it stands alone in a list.
abbrev pub move_key : MovePending → Bytes
move_key mp = mp.cookie ∷ []

-- `inotify_event`; there is no name when `len` is 0.
pub record KernelEvent : Type 0 where
  pub wd : ℕ
  pub mask : Mask
  pub cookie : ℕ
  pub name : Option Bytes

-- What the thread reads: for the watches and for the dispatch (on one system), whether a pending move
-- gets memory, and the fuel of the two walks.
pub record ThreadEnv : Type 0 where
  pub watch : WatchEnv
  pub dispatch : InotifyEnv
  pub move_memory : Bool
  pub fuel : ℕ

pub record ThreadState (r : Regex) : Type 0 where
  pub watching : Watching r
  pub pending_moves : List MovePending
  pub dispatched : InotifyState

module _ (env : ThreadEnv) where
  -- `coalesce_ms > 0 ? coalesce_ms : 100`
  abbrev pub expire_ms : ℕ
  expire_ms = if ltb 0 env.dispatch.config.coalesce_ms then env.dispatch.config.coalesce_ms else 100

  unfoldable pub is_expired : MovePending → Bool
  is_expired mp = leb expire_ms (sub64 env.dispatch.now_ms mp.timestamp_ms)

  -- A move whose second half did not come is a removal.
  unfoldable pub report_expired : MovePending → InotifyState → InotifyState
  report_expired mp d =
      if mp.target.callback && wanted mp.target.events FsEvent.deleted
      then inotify_dispatch_event env.dispatch mp.target FsEvent.deleted
          (some (basename b'/' mp.path)) mp.is_dir none d
      else d

-- The watch at a place of the table.
unfoldable pub watch_at : ℕ → List WatchEntry → Option WatchEntry
watch_at i [] = none
watch_at zero (e ∷ es) = some e
watch_at (suc i) (e ∷ es) = watch_at i es

module _ {r : Regex} (env : ThreadEnv) where
  -- The loop over the pending moves.
  unfoldable pub expire_loop : List MovePending → ThreadState r → ThreadState r
  unfolding report_expired
  expire_loop [] s = s
  expire_loop (mp ∷ todo) s = expire_loop todo (
      if is_expired env mp
      then record s {
        dispatched = report_expired env mp s.dispatched;
        pending_moves = hash_del move_key (move_key mp) s.pending_moves;
      }
      else s)

  unfoldable pub expire_moves : ThreadState r → ThreadState r
  expire_moves s = expire_loop s.pending_moves s

  -- What each turn of the thread does before it reads.
  unfoldable pub tick : ThreadState r → ThreadState r
  tick s =
      let s' = expire_moves s in
      if ltb 0 env.dispatch.config.coalesce_ms
      then record s' { dispatched = inotify_coalesce_flush env.dispatch false s'.dispatched }
      else s'

  -- What the thread does when it ends.
  unfoldable pub shut_down : ThreadState r → ThreadState r
  shut_down s =
      if ltb 0 env.dispatch.config.coalesce_ms
      then record s { dispatched = inotify_coalesce_flush env.dispatch true s.dispatched }
      else s

  -- The second half of `inotify_rescan_all`'s body, for an entry.
  unfoldable pub rescan_child : Target → DirEntry → Watching r → Option (Watching r)
  rescan_child current entry w =
      if not entry.is_dir || str_eq entry.name (codes ".") || str_eq entry.name (codes "..")
      then some w
      else if is_some
          (sw_find_target_internal w.targets (join_path env.watch.platform current.path entry.name))
      then some w
      else inotify_handle_dynamic_mkdir env.watch env.fuel current entry.name w

  unfoldable pub rescan_children : Target → List DirEntry → Watching r → Option (Watching r)
  rescan_children current [] w = some w
  rescan_children current (entry ∷ entries) w = do
    w' ← rescan_child current entry w
    rescan_children current entries w'

  unfoldable pub rescan_target : Target → Watching r → Option (Watching r)
  rescan_target current w =
      if current.is_recursive && current.is_directory
      then elim (env.watch.platform.dir_open current.path) [
        | none ↦ some w
        | some entries ↦ rescan_children current entries w
      ]
      else some w

  -- `HASH_ITER` over a table that grows at its end: the next place is looked up before the body.
  unfoldable pub rescan_from : ℕ → ℕ → Watching r → Option (Watching r)
  rescan_from zero i w = none
  rescan_from (suc fuel) i w = elim (watch_at i w.data_.wd_to_target) [
    | none ↦ some w
    | some e ↦ (do
      w' ← rescan_target e.target w
      elim (watch_at (i + 1) w.data_.wd_to_target) [
        | none ↦ some w'
        | some next ↦ rescan_from fuel (i + 1) w'
      ])
  ]

  unfoldable pub inotify_rescan_all : Watching r → Option (Watching r)
  inotify_rescan_all w = rescan_from env.fuel 0 w
