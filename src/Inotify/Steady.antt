-- ===== src/Inotify/Steady.antt =====
-- backend/backend_inotify.c: the loop of `inotify_thread_func` over the events that were read returns, and
-- the tables belong together.
use swatcher.Base.{
  ◌≡◌, refl, ℕ, ◌<◌, true, false, ◌||◌, List, [], ◌∷◌, Bytes, All, is_some, is_some->>=, is_some-if,
  Sure, Sure-Within, Option-cases, inl, inr,
}
use swatcher.Types.{Target}
use swatcher.Pattern.Compile.{Regex}
use swatcher.Core.Holdings.{IsPaired}
use swatcher.Core.Targets.{sw_find_target_internal}
use swatcher.Inotify.Masks.{KernelFlag}
use swatcher.Inotify.Watches.{Watching, join_path}
use swatcher.Inotify.Agree.{IsAgreed}
use swatcher.Inotify.Recursive.{inotify_add_recursive_locked, inotify_handle_dynamic_mkdir}
use swatcher.Inotify.Depth.{Descends, add_child-is_some, inotify_add_recursive_locked-is_some}
use swatcher.Inotify.Thread.{KernelEvent, ThreadEnv, ThreadState}
use swatcher.Inotify.Events.{
  find_wd, has_dir, follow_mkdir, handle_watched, handle_event, handle_events,
}
use swatcher.Inotify.Sound.{handle_events-IsAgreed}

-- The directories end: their numbers fall on the way down, and all are below the fuel.
pub record Ends (env : ThreadEnv) (rank : Bytes → ℕ) : Type 0 where
  pub descends : Descends env.watch rank
  pub lower : (path : Bytes) → rank path < env.fuel

-- The queue did not overflow.
abbrev pub IsCalm : List KernelEvent → Type 0
IsCalm events = All (λ event. event.mask KernelFlag.q_overflow ≡ false) events

module _ {r : Regex} (env : ThreadEnv) (rank : Bytes → ℕ) (ends : Ends env rank) where
  inotify_handle_dynamic_mkdir-is_some :
      (parent : Target) (name : Bytes) (w : Watching r)
      → is_some (inotify_handle_dynamic_mkdir env.watch env.fuel parent name w) ≡ true
  unfolding inotify_handle_dynamic_mkdir
  inotify_handle_dynamic_mkdir-is_some parent name w =
      is_some-if parent.is_recursive _ _
        (λ recursive.
          is_some-if
            (is_some
              (sw_find_target_internal w.targets (join_path env.watch.platform parent.path name)))
            _ _ (λ old. refl)
            (λ new.
              add_child-is_some env.watch rank
                (inotify_add_recursive_locked env.watch env.fuel false) env.fuel parent name w
                (λ ti s lt.
                  inotify_add_recursive_locked-is_some env.watch rank env.fuel false ti s
                    ends.descends lt)
                (λ path at. ends.lower path)))
        (λ flat. refl)

  follow_mkdir-is_some :
      (target : Target) (event : KernelEvent) (w : Watching r)
      → is_some (follow_mkdir env target event w) ≡ true
  unfolding follow_mkdir
  follow_mkdir-is_some target event w = elim (Option-cases event.name) [
    | inl unnamed ↦ rw unnamed refl
    | inr (name, named) ↦ rw named (
        is_some-if (has_dir KernelFlag.create event.mask || has_dir KernelFlag.moved_to event.mask)
          _ _ (λ appears. inotify_handle_dynamic_mkdir-is_some target name w) (λ other. refl))
  ]

  handle_event-is_some :
      (event : KernelEvent) (s : ThreadState r)
      → event.mask KernelFlag.q_overflow ≡ false
      → is_some (handle_event env event s) ≡ true
  unfolding handle_event handle_watched
  handle_event-is_some event s calm =
      is_some-if (event.mask KernelFlag.q_overflow) _ _ (λ full. cc (full, calm))
        (λ fits.
          is_some-if (event.mask KernelFlag.ignored) _ _ (λ gone. refl)
            (λ there. elim (Option-cases (find_wd event.wd s.watching.data_.wd_to_target)) [
              | inl unknown ↦ rw unknown refl
              | inr (e, found) ↦ rw found (
                  is_some->>= (follow_mkdir env e.target event s.watching) _
                    (follow_mkdir-is_some e.target event s.watching) (λ w. refl))
            ]))

  handle_events-is_some :
      (events : List KernelEvent) (s : ThreadState r)
      → IsCalm events
      → is_some (handle_events env events s) ≡ true
  unfolding handle_events
  handle_events-is_some [] s calm = refl
  handle_events-is_some (event ∷ events) s (first, calm) =
      is_some->>= (handle_event env event s) (handle_events env events)
        (handle_event-is_some event s first) (λ s'. handle_events-is_some events s' calm)

  -- Whatever the kernel reports but an overflow of its queue, in whatever order, and whether directories
  -- come or go: the loop over the events of a read returns, and the tables of watches and targets and the
  -- count of watches still belong together, no descriptor being watched that is not in the table. They
  -- did before, the allocator has both functions or neither, the directories have numbers that fall on
  -- the way down, and the fuel is above all of them.
  pub handle_events_lem :
      (events : List KernelEvent) (s : ThreadState r)
      → IsCalm events
      → IsPaired s.watching.world.g_alloc × IsAgreed s.watching.data_ s.watching.targets
      → Sure
          (λ s'.
            IsPaired s'.watching.world.g_alloc × IsAgreed s'.watching.data_ s'.watching.targets)
          (handle_events env events s)
  handle_events_lem events s calm held =
      Sure-Within _ (handle_events env events s) (handle_events-is_some events s calm)
        (handle_events-IsAgreed env events s held)
