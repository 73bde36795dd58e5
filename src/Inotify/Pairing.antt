-- ===== src/Inotify/Pairing.antt =====
-- backend/backend_inotify.c: the two halves of a move, and the first halves that stay alone.
use swatcher.Base.{
  ◌≡◌, refl, ◌∙◌, ℕ, Bool, true, false, ◌&&◌, Option, none, some, List, [], ◌∷◌, ◌++◌, Bytes, ◌==◌,
  ltb, leb, arith, if◌then◌else◌, append-nil, Bool-cases, Option-cases, inl, inr, hash_find,
  hash_add, hash_del, hash_del-middle, hash_find-middle,
}
use swatcher.Platform.{basename}
use swatcher.Types.{FsEvent, Target, wanted}
use swatcher.Pattern.Compile.{Regex, sw_pattern_matched}
use swatcher.Core.Targets.{TargetInternal, internal_key, sw_find_target_internal}
use swatcher.Poll.State.{sub64}
use swatcher.Inotify.Masks.{KernelFlag, Mask}
use swatcher.Inotify.Coalesce.{
  InotifyState, call_back, call_now, add_pending, full_path_of, inotify_coalesce_add,
  inotify_dispatch_event,
}
use swatcher.Inotify.Flush.{pause_off}
use swatcher.Inotify.Watches.{WatchEntry, join_path}
use swatcher.Inotify.Thread.{MovePending, move_key, KernelEvent, ThreadEnv, ThreadState}
use swatcher.Inotify.Events.{
  find_wd, buffer_move, passes, follow_mkdir, follow_rmdir, pair_move, deliver, handle_watched,
  handle_event, handle_events,
}

-- The masks of the two halves of a file's move.
abbrev pub from_mask : Mask
from_mask KernelFlag.moved_from = true
from_mask KernelFlag.access = false
from_mask flag = false

abbrev pub to_mask : Mask
to_mask KernelFlag.moved_to = true
to_mask KernelFlag.access = false
to_mask flag = false

abbrev pub half : Mask → ℕ → ℕ → Bytes → KernelEvent
half mask wd cookie name = record { wd = wd; mask = mask; cookie = cookie; name = some name }

module _ (env : ThreadEnv) where
  -- The first half as it is kept.
  abbrev pub first_half : Target → ℕ → Bytes → MovePending
  first_half target cookie name = record {
    cookie = cookie;
    path = join_path env.watch.platform target.path name;
    target = target;
    is_dir = false;
    timestamp_ms = env.dispatch.now_ms;
  }

  -- An event that is reported: a pending event for the full path, if events are coalesced, or one call
  -- of the callback.
  abbrev pub told : Target → FsEvent → Bytes → Bool → Option Bytes → InotifyState → InotifyState
  told target event name is_dir old_path d =
      if ltb 0 env.dispatch.config.coalesce_ms
      then record d {
        pending_events =
            add_pending env.dispatch (full_path_of env.dispatch target.path name) event target
              is_dir old_path d.pending_events;
      }
      else record d {
        calls =
            d.calls
            ++ record {
              event = event;
              target = target.path;
              event_name = some name;
              info = some (record { old_path = old_path; is_dir = is_dir });
            }
              ∷ [];
        event_times = d.event_times ++ (target.path, env.dispatch.time) ∷ [];
      }

  dispatch-told :
      (target : Target) (event : FsEvent) (name : Bytes) (is_dir : Bool) (old_path : Option Bytes)
      (d : InotifyState)
      → env.dispatch.config.vcs_aware ≡ false
      → inotify_dispatch_event env.dispatch target event (some name) is_dir old_path d
        ≡ told target event name is_dir old_path d
  unfolding inotify_dispatch_event inotify_coalesce_add call_now call_back
  dispatch-told target event name is_dir old_path d off =
      elim (Bool-cases (ltb 0 env.dispatch.config.coalesce_ms)) [
        | inl coalesces ↦ rw (inotify_dispatch_event, coalesces) refl
        | inr direct ↦
            rw (inotify_dispatch_event, direct, pause_off env.dispatch target.path d off) refl
      ]

  -- The first half has waited as long as the window for coalescing, or 100 ms where there is none.
  abbrev pub is_late : MovePending → Bool
  is_late mp =
      leb (if ltb 0 env.dispatch.config.coalesce_ms then env.dispatch.config.coalesce_ms else 100)
        (sub64 env.dispatch.now_ms mp.timestamp_ms)

  -- What is reported of late first halves: each is a removal of the old name.
  abbrev pub removals : List MovePending → InotifyState → InotifyState
  removals [] d = d
  removals (mp ∷ rest) d = removals rest (
      if mp.target.callback && wanted mp.target.events FsEvent.deleted
      then told mp.target FsEvent.deleted (basename b'/' mp.path) mp.is_dir none d
      else d)

module _ {r : Regex} (env : ThreadEnv) where
  handle_first_half :
      (e : WatchEntry) (cookie : ℕ) (name : Bytes) (s : ThreadState r)
      → find_wd e.wd s.watching.data_.wd_to_target ≡ some e
      → (cookie == 0) ≡ false
      → env.move_memory ≡ true
      → handle_event env (half from_mask e.wd cookie name) s
        ≡ some (record s {
          pending_moves = hash_add s.pending_moves (first_half env e.target cookie name);
        })
  unfolding handle_event handle_watched follow_mkdir follow_rmdir deliver buffer_move
  handle_first_half e cookie name s known nonzero memory = rw (known, nonzero, memory) refl

  handle_second_half :
      (e : WatchEntry) (mp : MovePending) (name : Bytes) (s : ThreadState r)
      → find_wd e.wd s.watching.data_.wd_to_target ≡ some e
      → (mp.cookie == 0) ≡ false
      → hash_find move_key (move_key mp) s.pending_moves ≡ some mp
      → handle_event env (half to_mask e.wd mp.cookie name) s
        ≡ some (record s {
          pending_moves = hash_del move_key (move_key mp) s.pending_moves;
          dispatched =
              if wanted e.target.events FsEvent.moved
                && passes env s.watching.targets e.target (some name)
              then inotify_dispatch_event env.dispatch e.target FsEvent.moved
                  (some name)
                  false
                  (some mp.path)
                  s.dispatched
              else s.dispatched;
        })
  unfolding handle_event handle_watched follow_mkdir follow_rmdir deliver pair_move
  handle_second_half e mp name s known nonzero pending = rw (known, nonzero, pending) (ground arith)

  -- The name is one that the target's callback asks for: there are no callback patterns, or it matches.
  abbrev pub is_heard : List (TargetInternal r) → Target → Bytes → Bool
  is_heard targets target name = elim (hash_find internal_key target.path targets) [
    | none ↦ true
    | some ti ↦ elim ti.compiled_callback [
      | none ↦ true
      | some patterns ↦ sw_pattern_matched r (some patterns) (some name)
    ]
  ]

  passes-heard :
      (targets : List (TargetInternal r)) (target : Target) (name : Bytes)
      → passes env targets target (some name) ≡ is_heard targets target name
  unfolding passes sw_find_target_internal
  passes-heard targets target name =
      elim (Option-cases (hash_find internal_key target.path targets)) [
        | inl absent ↦ ground (arith, absent)
        | inr (ti, found) ↦ elim (Option-cases ti.compiled_callback) [
          | inl free ↦ ground (arith, found, free)
          | inr (patterns, listed) ↦ ground (arith, found, listed)
        ]
      ]

  -- A file's move within what is watched: its two halves, with no other event between, leave the pending
  -- moves as they were and are reported once, as a move from the old path, if the target it came to asks
  -- for moves and the new name is one that its callback asks for: by one call, or by a pending event if
  -- events are coalesced. Otherwise nothing changes. The cookie is not 0 and not pending, the first half
  -- gets memory, and there is no pause for version control.
  pub handle_events_move :
      (from to : WatchEntry) (cookie : ℕ) (old new : Bytes) (s : ThreadState r)
      → find_wd from.wd s.watching.data_.wd_to_target ≡ some from
      → find_wd to.wd s.watching.data_.wd_to_target ≡ some to
      → (cookie == 0) ≡ false
      → env.move_memory ≡ true
      → hash_find move_key (cookie ∷ []) s.pending_moves ≡ none
      → env.dispatch.config.vcs_aware ≡ false
      → handle_events env (half from_mask from.wd cookie old ∷ half to_mask to.wd cookie new ∷ []) s
        ≡ some (record s {
          dispatched =
              if wanted to.target.events FsEvent.moved && is_heard s.watching.targets to.target new
              then told env to.target FsEvent.moved new false
                  (some (join_path env.watch.platform from.target.path old))
                  s.dispatched
              else s.dispatched;
        })
  unfolding handle_events
  handle_events_move from to cookie old new s known_from known_to nonzero memory fresh off =
      let mp = first_half env from.target cookie old in
      let s' : ThreadState r = record s { pending_moves = hash_add s.pending_moves mp } in
      let second =
        handle_second_half to mp new s' known_to nonzero
          (hash_find-middle move_key s.pending_moves [] mp fresh) in
      let gone : hash_del move_key (cookie ∷ []) (hash_add s.pending_moves mp) ≡ s.pending_moves =
        hash_del-middle move_key s.pending_moves [] mp fresh ∙ append-nil s.pending_moves in
      rw
        (
          handle_first_half from cookie old s known_from nonzero memory,
          second,
          gone,
          passes-heard s.watching.targets to.target new,
          dispatch-told env to.target FsEvent.moved new false
              (some (join_path env.watch.platform from.target.path old)) s.dispatched off,
        )
        refl
