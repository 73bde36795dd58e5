-- ===== src/Inotify/Flush.antt =====
-- backend/backend_inotify.c: what `inotify_coalesce_flush` leaves in the table, and whom it calls.
use mathlib.Core.Path.{subst}
use swatcher.Base.{
  ◌≡◌, refl, sym, ap, ◌∙◌, Bool, false, not, some, List, [], ◌∷◌, ◌++◌, Bytes, append_assoc,
  append-nil, filter, if◌then◌else◌, arith, inl, inr, Bool-cases, hash_del, IsKeyed,
  IsKeyed-hash_del, find_before, hash_del-middle,
}
use swatcher.Platform.{basename}
use swatcher.Types.{Call}
use swatcher.Vcs.{pause}
use swatcher.Inotify.Coalesce.{
  CoalesceEntry, coalesce_key, InotifyEnv, InotifyState, or_null, call_back,
  inotify_coalesce_dispatch, is_due, flush_loop, inotify_coalesce_flush,
}

module _ (env : InotifyEnv) where
  -- The call for an entry.
  abbrev pub entry_call : CoalesceEntry → Call
  entry_call ce = record {
    event = ce.event;
    target = ce.target.path;
    event_name = some (basename b'/' ce.path);
    info = some (record { old_path = or_null ce.old_path; is_dir = ce.is_dir });
  }

  -- One call for each entry whose target has a callback.
  abbrev pub calls_of : List CoalesceEntry → List Call
  calls_of [] = []
  calls_of (ce ∷ rest) = if ce.target.callback then entry_call ce ∷ calls_of rest else calls_of rest

  pub dispatch-pending :
      (ce : CoalesceEntry) (s : InotifyState)
      → (inotify_coalesce_dispatch env ce s).pending_events ≡ s.pending_events
  unfolding inotify_coalesce_dispatch call_back
  dispatch-pending ce s = ground arith

  pub pause_off :
      (path : Bytes) (s : InotifyState)
      → env.config.vcs_aware ≡ false
      → pause env.platform env.config s.vcs_cache path ≡ (false, s.vcs_cache)
  unfolding pause
  pause_off path s h = ground arith

  dispatch-calls :
      (ce : CoalesceEntry) (s : InotifyState)
      → env.config.vcs_aware ≡ false
      → (inotify_coalesce_dispatch env ce s).calls ≡ s.calls ++ calls_of (ce ∷ [])
  unfolding inotify_coalesce_dispatch call_back
  dispatch-calls ce s off = elim (Bool-cases ce.target.callback) [
    | inl called ↦ rw (called, pause_off ce.target.path s off, inotify_coalesce_dispatch) refl
    | inr silent ↦ rw (silent, inotify_coalesce_dispatch) (sym (append-nil s.calls))
  ]

  calls_of-cons :
      (ce : CoalesceEntry) (rest : List CoalesceEntry)
      → calls_of (ce ∷ rest) ≡ calls_of (ce ∷ []) ++ calls_of rest
  calls_of-cons ce rest = ground arith

  calls_of-dispatch :
      (ce : CoalesceEntry) (rest : List CoalesceEntry) (s : InotifyState)
      → env.config.vcs_aware ≡ false
      → (inotify_coalesce_dispatch env ce s).calls ++ calls_of rest
        ≡ s.calls ++ calls_of (ce ∷ rest)
  calls_of-dispatch ce rest s off =
      ap (λ calls. calls ++ calls_of rest) (dispatch-calls ce s off)
      ∙ append_assoc s.calls (calls_of (ce ∷ [])) (calls_of rest)
      ∙ ap (λ calls. s.calls ++ calls) (sym (calls_of-cons ce rest))

  -- What the loop over `todo` leaves and calls when `kept` stands before it in the table.
  abbrev pub Flushed :
      Bool → List CoalesceEntry → List CoalesceEntry → InotifyState → InotifyState → Type 0
  Flushed flush_all kept todo s s' =
      (s'.pending_events ≡ kept ++ filter (λ ce. not (is_due env flush_all ce)) todo)
      × (s'.calls ≡ s.calls ++ calls_of (filter (is_due env flush_all) todo))

  flush_loop-Flushed :
      (flush_all : Bool) (kept todo : List CoalesceEntry) (s : InotifyState)
      → env.config.vcs_aware ≡ false
      → s.pending_events ≡ kept ++ todo
      → IsKeyed coalesce_key (kept ++ todo)
      → Flushed flush_all kept todo s (flush_loop env flush_all todo s)
  unfolding flush_loop
  flush_loop-Flushed flush_all kept [] s off at keyed = (at, sym (append-nil s.calls))
  flush_loop-Flushed flush_all kept (ce ∷ todo) s off at keyed =
      elim (Bool-cases (is_due env flush_all ce)) [
        | inl due ↦
            let d = inotify_coalesce_dispatch env ce s in
            let s' : InotifyState = record d {
              pending_events = hash_del coalesce_key ce.path d.pending_events;
            } in
            let gone =
              hash_del-middle coalesce_key kept todo ce
                (find_before coalesce_key kept todo ce keyed) in
            let at' : s'.pending_events ≡ kept ++ todo =
              ap (hash_del coalesce_key ce.path) (dispatch-pending ce s ∙ at) ∙ gone in
            let keyed' =
              subst (IsKeyed coalesce_key) gone
                (IsKeyed-hash_del coalesce_key ce.path (kept ++ ce ∷ todo) keyed) in
            let ih = flush_loop-Flushed flush_all kept todo s' off at' keyed' in
            rw (due, flush_loop)
              (ih.0, ih.1 ∙ calls_of-dispatch ce (filter (is_due env flush_all) todo) s off)
        | inr early ↦
            let later = append_assoc kept (ce ∷ []) todo in
            let ih =
              flush_loop-Flushed flush_all (kept ++ ce ∷ []) todo s off (at ∙ sym later)
                (subst (IsKeyed coalesce_key) (sym later) keyed) in
            rw (early, flush_loop)
              (
                ih.0
                    ∙ append_assoc kept (ce ∷ []) (filter (λ x. not (is_due env flush_all x)) todo),
                ih.1,
              )
      ]

  -- With no path twice in the table and no pauses for version control, a flush removes exactly the
  -- entries that are due (all of them if it is told so), keeps the others in their order, and calls once,
  -- in the order of the table, for each removed entry whose target has a callback.
  pub inotify_coalesce_flush_lem :
      (flush_all : Bool) (s : InotifyState)
      → env.config.vcs_aware ≡ false
      → IsKeyed coalesce_key s.pending_events
      → let after = inotify_coalesce_flush env flush_all s in
        (after.pending_events ≡ filter (λ ce. not (is_due env flush_all ce)) s.pending_events)
        × (after.calls ≡ s.calls ++ calls_of (filter (is_due env flush_all) s.pending_events))
  unfolding inotify_coalesce_flush
  inotify_coalesce_flush_lem flush_all s off keyed =
      flush_loop-Flushed flush_all [] s.pending_events s off refl keyed
