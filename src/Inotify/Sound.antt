-- ===== src/Inotify/Sound.antt =====
-- backend/backend_inotify.c: whatever events come, the tables belong together.
use mathlib.Core.Path.{subst}
use swatcher.Base.{
  ◌≡◌, ℕ, zero, suc, ◌+◌, not, ◌&&◌, ◌||◌, some, List, [], ◌∷◌, codes, arith, Within, Within->>=,
  Within-if, str_eq, is_some, Option-cases, Bool-cases, sym, inl, inr,
}
use swatcher.Platform.{DirEntry}
use swatcher.Types.{Target}
use swatcher.Pattern.Compile.{Regex}
use swatcher.Core.Holdings.{IsPaired}
use swatcher.Core.Targets.{sw_find_target_internal}
use swatcher.Inotify.Masks.{KernelFlag}
use swatcher.Inotify.Watches.{Watching, join_path}
use swatcher.Inotify.Agree.{IsAgreed, rm_watch-IsAgreed}
use swatcher.Inotify.Subtree.{inotify_handle_dynamic_rmdir_lem}
use swatcher.Inotify.Frees.{inotify_handle_dynamic_rmdir-g_alloc}
use swatcher.Inotify.Growth.{Kept, inotify_handle_dynamic_mkdir-IsAgreed}
use swatcher.Inotify.Thread.{
  KernelEvent, ThreadEnv, ThreadState, watch_at, rescan_child, rescan_children, rescan_target,
  rescan_from, inotify_rescan_all,
}
use swatcher.Inotify.Events.{
  find_wd, tell_overflow, handle_overflow, has_dir, forget_watch, follow_mkdir, follow_rmdir,
  pair_move, report_event, deliver, handle_watched, handle_event, handle_events,
}

module _ {r : Regex} (env : ThreadEnv) where
  abbrev Held : Watching r → Type 0
  Held = Kept env.watch

  abbrev Sound : ThreadState r → Type 0
  Sound s = Held s.watching

  rescan_child-Held :
      (current : Target) (entry : DirEntry) (w : Watching r)
      → Held w
      → Within Held (rescan_child env current entry w)
  unfolding rescan_child
  rescan_child-Held current entry w held =
      Within-if Held
        (not entry.is_dir || str_eq entry.name (codes ".") || str_eq entry.name (codes ".."))
        (some w) _ held
        (Within-if Held
          (is_some (
            sw_find_target_internal w.targets
              (join_path env.watch.platform current.path entry.name)))
          (some w) _ held
          (inotify_handle_dynamic_mkdir-IsAgreed env.watch env.fuel current entry.name w held))

  rescan_children-Held :
      (current : Target) (entries : List DirEntry) (w : Watching r)
      → Held w
      → Within Held (rescan_children env current entries w)
  unfolding rescan_children
  rescan_children-Held current [] w held = held
  rescan_children-Held current (entry ∷ entries) w held =
      Within->>= Held (rescan_child env current entry w) (rescan_children env current entries)
        (rescan_child-Held current entry w held) (rescan_children-Held current entries)

  rescan_target-Held :
      (current : Target) (w : Watching r) → Held w → Within Held (rescan_target env current w)
  unfolding rescan_target
  rescan_target-Held current w held =
      Within-if Held (current.is_recursive && current.is_directory) _ (some w)
        (elim (Option-cases (env.watch.platform.dir_open current.path)) [
          | inl closed ↦ rw closed held
          | inr (entries, opened) ↦ rw opened (rescan_children-Held current entries w held)
        ])
        held

  rescan_from-Held : (fuel i : ℕ) (w : Watching r) → Held w → Within Held (rescan_from env fuel i w)
  unfolding rescan_from
  rescan_from-Held zero i w held = tt
  rescan_from-Held (suc fuel) i w held = elim (Option-cases (watch_at i w.data_.wd_to_target)) [
    | inl past ↦ rw (past, rescan_from) held
    | inr (e, here) ↦
        rw (here, rescan_from)
          (Within->>= Held (rescan_target env e.target w) _ (rescan_target-Held e.target w held)
            (λ w' held'. elim (Option-cases (watch_at (i + 1) w.data_.wd_to_target)) [
              | inl last ↦ rw last held'
              | inr (next, more) ↦ rw more (rescan_from-Held fuel (i + 1) w' held')
            ]))
  ]

  follow_mkdir-Held :
      (target : Target) (event : KernelEvent) (w : Watching r)
      → Held w
      → Within Held (follow_mkdir env target event w)
  unfolding follow_mkdir
  follow_mkdir-Held target event w held = elim (Option-cases event.name) [
    | inl unnamed ↦ rw unnamed held
    | inr (name, named) ↦ rw named (
        Within-if Held
          (has_dir KernelFlag.create event.mask || has_dir KernelFlag.moved_to event.mask) _
          (some w) (inotify_handle_dynamic_mkdir-IsAgreed env.watch env.fuel target name w held)
          held)
  ]

  follow_rmdir-Held :
      (target : Target) (event : KernelEvent) (w : Watching r)
      → Held w
      → Held (follow_rmdir env target event w)
  unfolding follow_rmdir
  follow_rmdir-Held target event w (paired, agreed) = elim (Option-cases event.name) [
    | inl unnamed ↦ rw (unnamed, follow_rmdir) (paired, agreed)
    | inr (name, named) ↦
        elim (Bool-cases
          (has_dir KernelFlag.delete event.mask || has_dir KernelFlag.moved_from event.mask)) [
            | inl goes ↦
                rw (named, goes, follow_rmdir)
                  (
                    rw (inotify_handle_dynamic_rmdir-g_alloc env.watch.platform target name w)
                        paired,
                    (inotify_handle_dynamic_rmdir_lem env.watch.platform target name w agreed).0,
                  )
            | inr stays ↦ rw (named, stays, follow_rmdir) (paired, agreed)
          ]
  ]

  deliver-watching :
      (target : Target) (event : KernelEvent) (s : ThreadState r)
      → (deliver env target event s).watching ≡ s.watching
  unfolding deliver pair_move report_event
  deliver-watching target event s = ground arith

  handle_watched-Sound :
      (target : Target) (event : KernelEvent) (s : ThreadState r)
      → Sound s
      → Within Sound (handle_watched env target event s)
  unfolding handle_watched
  handle_watched-Sound target event s sound =
      Within->>= Sound (follow_mkdir env target event s.watching) _
        (follow_mkdir-Held target event s.watching sound)
        (λ w held.
          subst Held
            (sym (
              deliver-watching target event
                (record s { watching = follow_rmdir env target event w })))
            (follow_rmdir-Held target event w held))

  handle_overflow-Sound : (s : ThreadState r) → Sound s → Within Sound (handle_overflow env s)
  unfolding handle_overflow inotify_rescan_all
  handle_overflow-Sound s sound =
      Within->>= Sound (inotify_rescan_all env s.watching) _
        (rescan_from-Held env.fuel 0 s.watching sound)
        (λ w held. elim (Option-cases (tell_overflow env s.dispatched w.data_.wd_to_target)) [
          | inl none_told ↦ rw none_told tt
          | inr (d, told) ↦ rw told held
        ])

  handle_event-Sound :
      (event : KernelEvent) (s : ThreadState r) → Sound s → Within Sound (handle_event env event s)
  unfolding handle_event forget_watch
  handle_event-Sound event s sound =
      Within-if Sound (event.mask KernelFlag.q_overflow) _ _ (handle_overflow-Sound s sound) (
        Within-if Sound (event.mask KernelFlag.ignored) _ _
          (sound.0, rm_watch-IsAgreed event.wd s.watching.data_ s.watching.targets sound.1)
          (elim (Option-cases (find_wd event.wd s.watching.data_.wd_to_target)) [
            | inl unknown ↦ rw unknown sound
            | inr (e, found) ↦ rw found (handle_watched-Sound e.target event s sound)
          ]))

  -- Whatever the kernel reports, in whatever order, and whether directories come, go or the queue
  -- overflows: if the fuel is enough, the tables still belong together after the events of a read.
  pub handle_events-IsAgreed :
      (events : List KernelEvent) (s : ThreadState r)
      → IsPaired s.watching.world.g_alloc × IsAgreed s.watching.data_ s.watching.targets
      → Within
          (λ s'.
            IsPaired s'.watching.world.g_alloc × IsAgreed s'.watching.data_ s'.watching.targets)
          (handle_events env events s)
  unfolding handle_events
  handle_events-IsAgreed [] s sound = sound
  handle_events-IsAgreed (event ∷ events) s sound =
      Within->>= Sound (handle_event env event s) (handle_events env events)
        (handle_event-Sound event s sound) (handle_events-IsAgreed events)
