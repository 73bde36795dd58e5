-- ===== src/Inotify/Merge.antt =====
-- backend/backend_inotify.c: `inotify_coalesce_add` as an operation on a map from paths to entries.
use swatcher.Base.{
  ◌≡◌, refl, ap, ◌∙◌, Bool, Option, none, some, List, Bytes, if◌then◌else◌, arith, inl, inr,
  Option-cases, Bool-cases, hash_find, hash_add, str_eq, str_eq_iff, IsKeyed, hash_find-add,
  IsKeyed-hash_add, hash_find-del_self, hash_find-del_ne, IsKeyed-hash_del, hash_find-set,
  IsKeyed-hash_set,
}
use swatcher.Platform.{snprintf}
use swatcher.Types.{FsEvent, Target}
use swatcher.Inotify.Coalesce.{
  CoalesceEntry, coalesce_key, InotifyEnv, InotifyState, Merge, merge_rule, merge_into, new_entry,
  touched, turned, replaced, add_pending, inotify_coalesce_add,
}

module _ (env : InotifyEnv) (path : Bytes) (event : FsEvent) (target : Target) (is_dir : Bool)
    (old_path : Option Bytes) where
  -- What becomes of the entry of an event's path.
  abbrev pub merged : Merge → CoalesceEntry → Option CoalesceEntry
  merged Merge.forget e = none
  merged Merge.touch e = some (touched env e)
  merged Merge.turn_deleted e = some (turned env e)
  merged Merge.replace e = some (replaced env event is_dir old_path e)

  -- The same from the pending event and the new one.
  abbrev pub merged_events : FsEvent → FsEvent → CoalesceEntry → Option CoalesceEntry
  merged_events FsEvent.created FsEvent.deleted e = none
  merged_events FsEvent.created FsEvent.modified e = some (record e { timestamp_ms = env.now_ms })
  merged_events FsEvent.modified FsEvent.modified e = some (record e { timestamp_ms = env.now_ms })
  merged_events FsEvent.modified FsEvent.deleted e =
      some (record e { event = FsEvent.deleted; timestamp_ms = env.now_ms })
  merged_events pending new e = some (replaced env event is_dir old_path e)

  merged-merge_rule :
      (pending new : FsEvent) (e : CoalesceEntry)
      → merged (merge_rule pending new) e ≡ merged_events pending new e
  unfolding merge_rule
  merged-merge_rule FsEvent.created FsEvent.deleted e = refl
  merged-merge_rule FsEvent.created FsEvent.modified e = refl
  merged-merge_rule FsEvent.created new e = refl
  merged-merge_rule FsEvent.modified FsEvent.modified e = refl
  merged-merge_rule FsEvent.modified FsEvent.deleted e = refl
  merged-merge_rule FsEvent.modified new e = refl
  merged-merge_rule pending new e = refl

  abbrev pub entry_after : Option CoalesceEntry → Option CoalesceEntry
  entry_after none =
      if env.entry_memory path then some (new_entry env path event target is_dir old_path) else none
  entry_after (some e) = merged_events e.event event e

  merge_into-find :
      (rule : Merge) (pending : List CoalesceEntry) (e : CoalesceEntry) (j : Bytes)
      → IsKeyed coalesce_key pending
      → hash_find coalesce_key path pending ≡ some e
      → hash_find coalesce_key j (merge_into env rule path event is_dir old_path pending)
        ≡ (if str_eq path j then merged rule e else hash_find coalesce_key j pending)
  unfolding merge_into
  merge_into-find Merge.forget pending e j keyed h = ground (
    arith,
    hash_find-del_self coalesce_key path pending keyed,
    hash_find-del_ne coalesce_key path j pending,
    str_eq_iff path j,
  )
  merge_into-find Merge.touch pending e j keyed h = ground (
    arith,
    hash_find-set coalesce_key path j (touched env) pending (λ x. refl),
    str_eq_iff path j,
    Option-cases (hash_find coalesce_key j pending),
  )
  merge_into-find Merge.turn_deleted pending e j keyed h = ground (
    arith,
    hash_find-set coalesce_key path j (turned env) pending (λ x. refl),
    str_eq_iff path j,
    Option-cases (hash_find coalesce_key j pending),
  )
  merge_into-find Merge.replace pending e j keyed h = ground (
    arith,
    hash_find-set coalesce_key path j (replaced env event is_dir old_path) pending (λ x. refl),
    str_eq_iff path j,
    Option-cases (hash_find coalesce_key j pending),
  )

  merge_into-IsKeyed :
      (rule : Merge) (pending : List CoalesceEntry)
      → IsKeyed coalesce_key pending
      → IsKeyed coalesce_key (merge_into env rule path event is_dir old_path pending)
  unfolding merge_into
  merge_into-IsKeyed Merge.forget pending keyed = IsKeyed-hash_del coalesce_key path pending keyed
  merge_into-IsKeyed Merge.touch pending keyed =
      IsKeyed-hash_set coalesce_key path (touched env) pending (λ x. refl) keyed
  merge_into-IsKeyed Merge.turn_deleted pending keyed =
      IsKeyed-hash_set coalesce_key path (turned env) pending (λ x. refl) keyed
  merge_into-IsKeyed Merge.replace pending keyed =
      IsKeyed-hash_set coalesce_key path (replaced env event is_dir old_path) pending (λ x. refl)
        keyed

  -- A path without an entry.
  new_entry-find :
      (pending : List CoalesceEntry) (j : Bytes)
      → snprintf env.platform.path_max path ≡ path
      → hash_find coalesce_key path pending ≡ none
      → hash_find coalesce_key j
          (hash_add pending (new_entry env path event target is_dir old_path))
        ≡ (if str_eq path j
            then some (new_entry env path event target is_dir old_path)
            else hash_find coalesce_key j pending)
  new_entry-find pending j fits h =
      let new = new_entry env path event target is_dir old_path in
      let found = hash_find-add coalesce_key j pending new in
      let same : str_eq (snprintf env.platform.path_max path) j ≡ str_eq path j =
        ap (λ x. str_eq x j) fits in
      ground (arith, found, same, str_eq_iff path j)

  no_memory-find :
      (pending : List CoalesceEntry) (j : Bytes)
      → hash_find coalesce_key path pending ≡ none
      → hash_find coalesce_key j pending
        ≡ (if str_eq path j then none else hash_find coalesce_key j pending)
  no_memory-find pending j h = ground (arith, str_eq_iff path j)

  -- For a path that fits in its buffer, in a table with no path twice: after an event is added no path
  -- is there twice, the entry of the event's path is what the merge rules make of the one that was
  -- there (a creation and a deletion cancel each other; a modification after a creation or a
  -- modification only renews the time; a modification and a deletion are a deletion; any other event
  -- replaces), or a new one if there is memory, and every other path has the entry that it had.
  pub inotify_coalesce_add_lem :
      (s : InotifyState)
      → snprintf env.platform.path_max path ≡ path
      → IsKeyed coalesce_key s.pending_events
      → let after = (inotify_coalesce_add env path event target is_dir old_path s).pending_events in
        IsKeyed coalesce_key after
        × ((j : Bytes)
            → hash_find coalesce_key j after ≡ (
                if str_eq path j
                then entry_after (hash_find coalesce_key path s.pending_events)
                else hash_find coalesce_key j s.pending_events))
  unfolding inotify_coalesce_add add_pending
  inotify_coalesce_add_lem s fits keyed =
      elim (Option-cases (hash_find coalesce_key path s.pending_events)) [
        | inr (e, h) ↦
            rw (h, add_pending)
              (
                merge_into-IsKeyed (merge_rule e.event event) s.pending_events keyed,
                λ j.
                    merge_into-find (merge_rule e.event event) s.pending_events e j keyed h
                    ∙ ap
                        (λ found.
                          if str_eq path j
                          then found
                          else hash_find coalesce_key j s.pending_events)
                        (merged-merge_rule e.event event e),
              )
        | inl h ↦ elim (Bool-cases (env.entry_memory path)) [
          | inl got ↦
              rw (h, got, add_pending)
                (
                  IsKeyed-hash_add coalesce_key s.pending_events
                      (new_entry env path event target is_dir old_path) (rw fits h) keyed,
                  λ j. new_entry-find s.pending_events j fits h,
                )
          | inr missing ↦
              rw (h, missing, add_pending) (keyed, λ j. no_memory-find s.pending_events j h)
        ]
      ]
