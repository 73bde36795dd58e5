-- ===== src/Rescan/Calls.antt =====
-- core/rescan.c: what `sw_rescan_diff` reports, against a description path by path.
use swatcher.Base.{
  ℕ, ◌≡◌, ◌↔◌, refl, true, ◌||◌, not, Option, none, some, [], ◌∷◌, ◌++◌, Bytes, ◌==◌, if◌then◌else◌,
  hash_find, IsKeyed, IsKeyed-All, hash_find-key, str_eq, In, In-append_left, In-append_right,
  In-append_split, All, arith, inl, inr, Bool-cases, Option-cases,
}
use swatcher.Platform.{basename}
use swatcher.Types.{FsEvent, Call, Target, wanted, plain_call}
use swatcher.Rescan.Walk.{RescanEntry, Snapshot, entry_key}
use swatcher.Rescan.Diff.{report, changed, new_calls, old_calls, diff_new, diff_old, sw_rescan_diff}

-- What became of one path between two snapshots.
abbrev pub change : Option RescanEntry → Option RescanEntry → Option FsEvent
change none none = none
change none (some new) = some FsEvent.created
change (some old) none = some FsEvent.deleted
change (some old) (some new) =
    if not (old.mtime == new.mtime) || not (old.size == new.size)
    then some FsEvent.modified
    else none

module _ (separator : ℕ) (target : Target) where
  -- A call that is due: an event that the target wants, at a path that the snapshots differ at.
  abbrev pub Due : Snapshot → Snapshot → Call → Type 0
  Due old_snap new_snap call =
      (k : Bytes) × (event : FsEvent) × (change (hash_find entry_key k old_snap)
          (hash_find entry_key k new_snap)
        ≡ some event)
      × (wanted target.events event ≡ true)
      × (call ≡ plain_call event target.path (basename separator k))

  In-report :
      (event : FsEvent) (e : RescanEntry) (call : Call)
      → In call (report separator target event e)
      → (wanted target.events event ≡ true)
        × (call ≡ plain_call event target.path (basename separator e.path))
  unfolding report
  In-report event e call h = ground arith

  report-In :
      (event : FsEvent) (e : RescanEntry)
      → wanted target.events event ≡ true
      → In
          (plain_call event target.path (basename separator e.path))
          (report separator target event e)
  unfolding report
  report-In event e h = rw h (inl refl)

  module _ (old_snap new_snap : Snapshot) (e : RescanEntry) where
    new_calls_absent :
        hash_find entry_key e.path old_snap ≡ none
        → new_calls separator target old_snap e ≡ report separator target FsEvent.created e
    unfolding new_calls
    new_calls_absent h = rw (h, new_calls) refl

    new_calls_found :
        (o : RescanEntry)
        → hash_find entry_key e.path old_snap ≡ some o
        → new_calls separator target old_snap e ≡ (
            if changed separator target o e then report separator target FsEvent.modified e else [])
    unfolding new_calls
    new_calls_found o h = rw (h, new_calls) refl

    old_calls_absent :
        hash_find entry_key e.path new_snap ≡ none
        → old_calls separator target new_snap e ≡ report separator target FsEvent.deleted e
    unfolding old_calls
    old_calls_absent h = rw (h, old_calls) refl

    old_calls_found :
        (n : RescanEntry)
        → hash_find entry_key e.path new_snap ≡ some n
        → old_calls separator target new_snap e ≡ []
    unfolding old_calls
    old_calls_found n h = rw (h, old_calls) refl

    new_calls-Due :
        (call : Call)
        → hash_find entry_key e.path new_snap ≡ some e
        → In call (new_calls separator target old_snap e)
        → Due old_snap new_snap call
    unfolding changed
    new_calls-Due call found h = elim (Option-cases (hash_find entry_key e.path old_snap)) [
      | inl gone ↦
          let (due, eq) = In-report FsEvent.created e call (rw (new_calls_absent gone) at h) in
          (e.path, FsEvent.created, rw (gone, found) refl, due, eq)
      | inr (o, kept) ↦ elim (Bool-cases (changed separator target o e)) [
        | inl c ↦
            let (due, eq) =
              In-report FsEvent.modified e call (rw (new_calls_found o kept, c) at h) in
            (e.path, FsEvent.modified, rw (kept, found, c) refl, due, eq)
        | inr c ↦ absurd (rw (new_calls_found o kept, c) at h)
      ]
    ]

    old_calls-Due :
        (call : Call)
        → hash_find entry_key e.path old_snap ≡ some e
        → In call (old_calls separator target new_snap e)
        → Due old_snap new_snap call
    old_calls-Due call kept h = elim (Option-cases (hash_find entry_key e.path new_snap)) [
      | inl gone ↦
          let (due, eq) = In-report FsEvent.deleted e call (rw (old_calls_absent gone) at h) in
          (e.path, FsEvent.deleted, rw (gone, kept) refl, due, eq)
      | inr (n, found) ↦ absurd (rw (old_calls_found n found) at h)
    ]

  diff_new-Due :
      (old_snap new_snap rest : Snapshot) (call : Call)
      → All (λ e. hash_find entry_key e.path new_snap ≡ some e) rest
      → In call (diff_new separator target old_snap rest)
      → Due old_snap new_snap call
  unfolding diff_new
  diff_new-Due old new [] call found h = absurd h
  diff_new-Due old new (e ∷ rest) call found h =
      elim (In-append_split call (new_calls separator target old e) _ h) [
        | inl here ↦ new_calls-Due old new e call found.0 here
        | inr later ↦ diff_new-Due old new rest call found.1 later
      ]

  diff_old-Due :
      (old_snap new_snap rest : Snapshot) (call : Call)
      → All (λ e. hash_find entry_key e.path old_snap ≡ some e) rest
      → In call (diff_old separator target new_snap rest)
      → Due old_snap new_snap call
  unfolding diff_old
  diff_old-Due old new [] call found h = absurd h
  diff_old-Due old new (e ∷ rest) call found h =
      elim (In-append_split call (old_calls separator target new e) _ h) [
        | inl here ↦ old_calls-Due old new e call found.0 here
        | inr later ↦ diff_old-Due old new rest call found.1 later
      ]

  -- The calls for the entry that is found under a key are among the loop's.
  In-diff_new :
      (old_snap rest : Snapshot) (k : Bytes) (e : RescanEntry) (call : Call)
      → hash_find entry_key k rest ≡ some e
      → In call (new_calls separator target old_snap e)
      → In call (diff_new separator target old_snap rest)
  unfolding diff_new hash_find
  In-diff_new old [] k e call h c = absurd (ground arith)
  In-diff_new old (x ∷ rest) k e call h c = elim (Bool-cases (str_eq x.path k)) [
    | inl here ↦
        let same : x ≡ e = ground arith in
        In-append_left call (new_calls separator target old x) _ (rw same c)
    | inr other ↦ In-append_right call _ _ (In-diff_new old rest k e call (rw (other) at h) c)
  ]

  In-diff_old :
      (new_snap rest : Snapshot) (k : Bytes) (e : RescanEntry) (call : Call)
      → hash_find entry_key k rest ≡ some e
      → In call (old_calls separator target new_snap e)
      → In call (diff_old separator target new_snap rest)
  unfolding diff_old hash_find
  In-diff_old new [] k e call h c = absurd (ground arith)
  In-diff_old new (x ∷ rest) k e call h c = elim (Bool-cases (str_eq x.path k)) [
    | inl here ↦
        let same : x ≡ e = ground arith in
        In-append_left call (old_calls separator target new x) _ (rw same c)
    | inr other ↦ In-append_right call _ _ (In-diff_old new rest k e call (rw (other) at h) c)
  ]

  Due-In :
      (old_snap new_snap : Snapshot) (call : Call)
      → Due old_snap new_snap call
      → In call (
          diff_new separator target old_snap new_snap
          ++ diff_old separator target new_snap old_snap)
  unfolding changed
  Due-In old new call (k, event, changes, due, eq) =
      elim (Option-cases (hash_find entry_key k new)) [
        | inl gone ↦ elim (Option-cases (hash_find entry_key k old)) [
          | inl never ↦ absurd (ground (arith, changes))
          | inr (o, kept) ↦
              let key : o.path ≡ k = hash_find-key entry_key k old o kept in
              let is_deleted : event ≡ FsEvent.deleted = ground arith in
              In-append_right call (diff_new separator target old new) _ (
                In-diff_old new old k o call kept (
                  rw (old_calls_absent old new o (rw (key, gone)), eq, is_deleted, ← key)
                    (report-In FsEvent.deleted o (rw (← is_deleted) due))))
        ]
        | inr (n, found) ↦
            let key : n.path ≡ k = hash_find-key entry_key k new n found in
            In-append_left call (diff_new separator target old new) _ (
              In-diff_new old new k n call found (elim (Option-cases (hash_find entry_key k old)) [
                | inl never ↦
                    let is_created : event ≡ FsEvent.created = ground arith in
                    rw (new_calls_absent old new n (rw (key, never)), eq, is_created, ← key)
                      (report-In FsEvent.created n (rw (← is_created) due))
                | inr (o, kept) ↦ elim (Bool-cases (changed separator target o n)) [
                  | inl c ↦
                      let is_modified : event ≡ FsEvent.modified = ground arith in
                      rw (new_calls_found old new n o (rw (key, kept)), c, eq, is_modified, ← key)
                        (report-In FsEvent.modified n (rw (← is_modified) due))
                  | inr c ↦ absurd (ground arith)
                ]
              ]))
      ]

-- Between two keyed snapshots, and for a target with a callback, the calls are exactly those that are
-- due: for each path at which the snapshots differ, the one event that the change is, with the path's
-- last component, if the target wants the event.
pub sw_rescan_diff_iff :
    (separator : ℕ) (target : Target) (old_snap new_snap : Snapshot) (call : Call)
    → target.callback ≡ true
    → IsKeyed entry_key old_snap
    → IsKeyed entry_key new_snap
    → In call (sw_rescan_diff separator old_snap new_snap (some target))
      ↔ Due separator target old_snap new_snap call
unfolding sw_rescan_diff
sw_rescan_diff_iff sep target old new call set old_keyed new_keyed = rw set (
  λ h. elim (In-append_split call (diff_new sep target old new) _ h) [
    | inl l ↦ diff_new-Due sep target old new new call (IsKeyed-All entry_key new new_keyed) l
    | inr r ↦ diff_old-Due sep target old new old call (IsKeyed-All entry_key old old_keyed) r
  ],
  Due-In sep target old new call,
)
