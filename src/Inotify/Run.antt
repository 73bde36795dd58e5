-- ===== src/Inotify/Run.antt =====
-- backend/backend_inotify.c: `inotify_thread_func` from its start to its end. Each turn of its loop meets
-- the system as it is then, and reads the events that wait; there are none when the wait times out.
use mathlib.Core.Path.{subst}
use swatcher.Base.{
  ◌≡◌, refl, ap, ◌∙◌, ℕ, Bytes, true, Option, some, List, [], ◌∷◌, All, ltb, arith, ◌>>=◌, Sure,
  Sure->>=, sym, Bool-cases, inl, inr, str_eq, str_eq_refl, hash_del,
}
use swatcher.Pattern.Compile.{Regex}
use swatcher.Core.Holdings.{IsPaired}
use swatcher.Inotify.Coalesce.{
  CoalesceEntry, coalesce_key, InotifyEnv, InotifyState, inotify_coalesce_dispatch, is_due,
  flush_loop, inotify_coalesce_flush,
}
use swatcher.Inotify.Flush.{dispatch-pending}
use swatcher.Inotify.Agree.{IsAgreed}
use swatcher.Inotify.Thread.{
  MovePending, KernelEvent, ThreadEnv, ThreadState, is_expired, expire_loop, expire_moves, tick,
  shut_down,
}
use swatcher.Inotify.Events.{handle_events}
use swatcher.Inotify.Steady.{Ends, IsCalm, handle_events_lem}

pub record Turn : Type 0 where
  pub env : ThreadEnv
  pub events : List KernelEvent

module _ {r : Regex} where
  unfoldable pub take_turn : Turn → ThreadState r → Option (ThreadState r)
  unfolding tick handle_events
  take_turn turn s = handle_events turn.env turn.events (tick turn.env s)

  -- The turns while the thread runs, and its end.
  unfoldable pub inotify_thread_func :
      List Turn → ThreadEnv → ThreadState r → Option (ThreadState r)
  unfolding take_turn shut_down
  inotify_thread_func [] last s = some (shut_down last s)
  inotify_thread_func (turn ∷ turns) last s = do
    s' ← take_turn turn s
    inotify_thread_func turns last s'

-- The queue does not overflow, and the directories end.
abbrev pub IsSteady : Turn → Type 0
IsSteady turn = (rank : Bytes → ℕ) × Ends turn.env rank × IsCalm turn.events

-- A flush of everything leaves nothing, whatever paths stand in the table.
flush_loop_all :
    (env : InotifyEnv) (todo : List CoalesceEntry) (s : InotifyState)
    → s.pending_events ≡ todo
    → (flush_loop env true todo s).pending_events ≡ []
unfolding flush_loop is_due hash_del
flush_loop_all env [] s at = at
flush_loop_all env (ce ∷ todo) s at =
    let d = inotify_coalesce_dispatch env ce s in
    let s' : InotifyState = record d {
      pending_events = hash_del coalesce_key ce.path d.pending_events;
    } in
    let first : str_eq (coalesce_key ce) ce.path ≡ true = str_eq_refl ce.path in
    flush_loop_all env todo s'
      (ap (hash_del coalesce_key ce.path) (dispatch-pending env ce s ∙ at) ∙ ground (arith, first))

module _ {r : Regex} where
  abbrev Held : ThreadState r → Type 0
  Held s = IsPaired s.watching.world.g_alloc × IsAgreed s.watching.data_ s.watching.targets

  expire_loop-watching :
      (env : ThreadEnv) (todo : List MovePending) (s : ThreadState r)
      → (expire_loop env todo s).watching ≡ s.watching
  unfolding expire_loop
  expire_loop-watching env [] s = refl
  expire_loop-watching env (mp ∷ todo) s = elim (Bool-cases (is_expired env mp)) [
    | inl due ↦ rw (due, expire_loop) (expire_loop-watching env todo _)
    | inr early ↦ rw (early, expire_loop) (expire_loop-watching env todo s)
  ]

  tick-watching : (env : ThreadEnv) (s : ThreadState r) → (tick env s).watching ≡ s.watching
  unfolding tick expire_moves
  tick-watching env s = elim (Bool-cases (ltb 0 env.dispatch.config.coalesce_ms)) [
    | inl coalesces ↦ rw (coalesces, tick) (expire_loop-watching env s.pending_moves s)
    | inr direct ↦ rw (direct, tick) (expire_loop-watching env s.pending_moves s)
  ]

  shut_down-watching :
      (env : ThreadEnv) (s : ThreadState r) → (shut_down env s).watching ≡ s.watching
  unfolding shut_down
  shut_down-watching env s = ground arith

  shut_down-pending :
      (env : ThreadEnv) (s : ThreadState r)
      → ltb 0 env.dispatch.config.coalesce_ms ≡ true
      → (shut_down env s).dispatched.pending_events ≡ []
  unfolding shut_down inotify_coalesce_flush
  shut_down-pending env s coalesces =
      rw (coalesces, shut_down)
        (flush_loop_all env.dispatch s.dispatched.pending_events s.dispatched refl)

  take_turn-IsAgreed :
      (turn : Turn) (s : ThreadState r) → IsSteady turn → Held s → Sure Held (take_turn turn s)
  unfolding take_turn
  take_turn-IsAgreed turn s (rank, ends, calm) held =
      handle_events_lem turn.env rank ends turn.events (tick turn.env s) calm (
        subst (λ w. IsPaired w.world.g_alloc × IsAgreed w.data_ w.targets)
          (sym (tick-watching turn.env s)) held)

  -- The thread from its start to its end, with any turns in which the queue does not overflow, each on
  -- the system and with the answers of the kernel as they are then: it ends, the tables belong together
  -- when it does, and no coalesced event is left pending. They belonged together at the start, the
  -- allocator has both functions or neither, at each turn the directories have numbers that fall on the
  -- way down with the fuel above all of them, and events are coalesced.
  pub inotify_thread_func_lem :
      (turns : List Turn) (last : ThreadEnv) (s : ThreadState r)
      → All IsSteady turns
      → ltb 0 last.dispatch.config.coalesce_ms ≡ true
      → IsPaired s.watching.world.g_alloc × IsAgreed s.watching.data_ s.watching.targets
      → Sure
          (λ s'.
            IsPaired s'.watching.world.g_alloc
            × IsAgreed s'.watching.data_ s'.watching.targets
            × (s'.dispatched.pending_events ≡ []))
          (inotify_thread_func turns last s)
  unfolding inotify_thread_func
  inotify_thread_func_lem [] last s steady coalesces held =
      let held' : Held (shut_down last s) =
        subst (λ w. IsPaired w.world.g_alloc × IsAgreed w.data_ w.targets)
          (sym (shut_down-watching last s)) held in
      (held'.0, held'.1, shut_down-pending last s coalesces)
  inotify_thread_func_lem (turn ∷ turns) last s (here, there) coalesces held =
      Sure->>= _ (take_turn turn s) (inotify_thread_func turns last)
        (take_turn-IsAgreed turn s here held)
        (λ s' held'. inotify_thread_func_lem turns last s' there coalesces held')
