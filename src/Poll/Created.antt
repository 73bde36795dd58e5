-- ===== src/Poll/Created.antt =====
-- backend/backend_poll.c: the last loop of `poll_scan_target`, and the account of a whole scan.
use swatcher.Base.{
  ◌+◌, ◌≡◌, refl, ◌∙◌, true, false, none, some, List, [], ◌∷◌, Bytes, if◌then◌else◌, count, arith,
  one_if, ◌==◌, ltb, hash_find, hash_set, IsKeyed-hash_set, hash_find-set, hash_find-key,
  count-hash_set, count_none, str_eq, str_eq_iff, Option-cases, Bool-cases, inl, inr, ltb→le,
}
use swatcher.Types.{FsEvent, bits}
use swatcher.Pattern.Compile.{Regex}
use swatcher.Poll.State.{FileSnapshot, snapshot_key, ScanEnv, ScanState}
use swatcher.Poll.Target.{clear_new, is_deleted, announce, detect_moves, report_created, finish}
use swatcher.Poll.Loud.{calls_of, IsLoud, emit_event-snapshots, calls_of-emit_event}
use swatcher.Poll.Settle.{Table, IsScanned, is_new}
use swatcher.Poll.Moves.{
  Accounts, Accounts-refl, Accounts-trans, settle_deleted-Accounts, covered_later, empty_find,
  moved_calls, deleted_calls, created_calls,
}

module _ {r : Regex} (env : ScanEnv r) (loud : IsLoud env) where
  pub announce-snapshots :
      (snap : FileSnapshot) (s : ScanState)
      → (announce env snap s).snapshots ≡ hash_set snapshot_key snap.path clear_new s.snapshots
  unfolding announce
  announce-snapshots snap s =
      rw ((emit_event-snapshots env FsEvent.created snap.path false none s).0) refl

  announce-calls :
      (e : FsEvent) (snap : FileSnapshot) (s : ScanState)
      → calls_of e (announce env snap s) ≡ calls_of e s + one_if (bits FsEvent.created == bits e)
  unfolding announce
  announce-calls e snap s = calls_of-emit_event env e FsEvent.created snap.path false none s loud

  module _ (snap : FileSnapshot) (s : ScanState) (ok : IsScanned s.snapshots)
      (found : hash_find snapshot_key snap.path s.snapshots ≡ some snap)
      (new : snap.is_new ≡ true) where
    cleared_at :
        (k : Bytes)
        → hash_find snapshot_key k (announce env snap s).snapshots
          ≡ elim (hash_find snapshot_key k s.snapshots) [
            | none ↦ none
            | some e ↦ some (if str_eq snap.path k then clear_new e else e)
          ]
    cleared_at k =
        rw (announce-snapshots snap s)
          (hash_find-set snapshot_key snap.path k clear_new s.snapshots (λ e. refl))

    pub announce-Accounts : Accounts s (announce env snap s)
    unfolding bits
    announce-Accounts =
        let seen : snap.seen ≡ true = ok.new_seen snap.path snap found new in
        record {
          scanned = record {
            keyed = rw (announce-snapshots snap s) (
                IsKeyed-hash_set snapshot_key snap.path clear_new s.snapshots (λ e. refl) ok.keyed);
            new_seen = λ k e h n. ground (arith, cleared_at k, ok.new_seen k e);
          };
          deletions = ground (
            arith,
            announce-snapshots snap s,
            announce-calls FsEvent.moved snap s,
            announce-calls FsEvent.deleted snap s,
            count-hash_set snapshot_key is_deleted snap.path clear_new s.snapshots snap found,
          );
          creations = ground (
            arith,
            announce-snapshots snap s,
            announce-calls FsEvent.moved snap s,
            announce-calls FsEvent.created snap s,
            count-hash_set snapshot_key is_new snap.path clear_new s.snapshots snap found,
          );
        }

    -- What is new after the step was new before, elsewhere, and no deleted entry has come up.
    announce_left :
        (j : Bytes) (e : FileSnapshot)
        → hash_find snapshot_key j (announce env snap s).snapshots ≡ some e
        → e.is_new ≡ true
        → (hash_find snapshot_key j s.snapshots ≡ some e) × (str_eq snap.path j ≡ false)
    announce_left j e h n = ground (arith, cleared_at j)

    announce_deleted :
        count is_deleted (announce env snap s).snapshots ≡ count is_deleted s.snapshots
    announce_deleted =
        let seen : snap.seen ≡ true = ok.new_seen snap.path snap found new in
        ground (
          arith,
          announce-snapshots snap s,
          count-hash_set snapshot_key is_deleted snap.path clear_new s.snapshots snap found,
        )

  abbrev CoversNew : List FileSnapshot → Table → Type 0
  CoversNew todo t =
      (j : Bytes) (e : FileSnapshot)
      → hash_find snapshot_key j t ≡ some e
      → e.is_new ≡ true
      → (x : FileSnapshot) × (hash_find snapshot_key j todo ≡ some x)

  call_out : FileSnapshot → ScanState → ScanState
  call_out snap s = elim (hash_find snapshot_key snap.path s.snapshots) [
    | none ↦ s
    | some now ↦ if now.is_new then announce env now s else s
  ]

  -- What one step keeps.
  abbrev Keeps : List FileSnapshot → ScanState → ScanState → Type 0
  Keeps todo s t =
      Accounts s t
      × CoversNew todo t.snapshots
      × (count is_deleted t.snapshots ≡ count is_deleted s.snapshots)

  -- Where the visited entry is gone or not new, the rest of the list covers what is new.
  covers_rest :
      (snap : FileSnapshot) (todo : List FileSnapshot) (t : Table)
      → ((now : FileSnapshot) → hash_find snapshot_key snap.path t ≡ some now → now.is_new ≡ false)
      → CoversNew (snap ∷ todo) t
      → CoversNew todo t
  unfolding hash_find
  covers_rest snap todo t old cover j e h n = elim (Bool-cases (str_eq snap.path j)) [
    | inr other ↦ let (x, there) = cover j e h n in (x, ground arith)
    | inl same ↦
        let at : hash_find snapshot_key snap.path t ≡ some e =
          ground (arith, str_eq_iff snap.path j) in
        absurd (ground (arith, old e at))
  ]

  call_out_old :
      (snap : FileSnapshot) (s : ScanState)
      → ((now : FileSnapshot)
          → hash_find snapshot_key snap.path s.snapshots ≡ some now
          → now.is_new ≡ false)
      → call_out snap s ≡ s
  unfolding call_out
  call_out_old snap s old = elim (Option-cases (hash_find snapshot_key snap.path s.snapshots)) [
    | inl gone ↦ ground arith
    | inr (now, found) ↦ ground (arith, old now found)
  ]

  call_out-Keeps :
      (snap : FileSnapshot) (todo : List FileSnapshot) (s : ScanState)
      → IsScanned s.snapshots
      → CoversNew (snap ∷ todo) s.snapshots
      → Keeps todo s (call_out snap s)
  unfolding call_out
  call_out-Keeps snap todo s ok cover =
      elim (Option-cases (hash_find snapshot_key snap.path s.snapshots)) [
        | inl gone ↦ unchanged (λ now found. absurd (ground (arith, gone, found)))
        | inr (now, found) ↦ elim (Bool-cases now.is_new) [
          | inr old ↦ unchanged (λ now' found'. ground (arith, found, found', old))
          | inl new ↦ announced now found new
        ]
      ]
    where
      unchanged :
          ((now : FileSnapshot)
            → hash_find snapshot_key snap.path s.snapshots ≡ some now
            → now.is_new ≡ false)
          → Keeps todo s (call_out snap s)
      unchanged old =
          rw (call_out_old snap s old)
            (Accounts-refl s ok, covers_rest snap todo s.snapshots old cover, refl)

      announced :
          (now : FileSnapshot)
          → hash_find snapshot_key snap.path s.snapshots ≡ some now
          → now.is_new ≡ true
          → Keeps todo s (call_out snap s)
      announced now found new =
          let key : now.path ≡ snap.path =
            hash_find-key snapshot_key snap.path s.snapshots now found in
          let at : hash_find snapshot_key now.path s.snapshots ≡ some now =
            ground (arith, key, found) in
          let step : call_out snap s ≡ announce env now s = ground (arith, found, new) in
          rw step (
            announce-Accounts now s ok at new,
            λ j e h n.
                let (before, other) = announce_left now s ok at new j e h n in
                let (x, there) = cover j e before n in later j x there (rw key at other),
            announce_deleted now s ok at new,
          )
        where
          later :
              (j : Bytes) (x : FileSnapshot)
              → hash_find snapshot_key j (snap ∷ todo) ≡ some x
              → str_eq snap.path j ≡ false
              → (y : FileSnapshot) × (hash_find snapshot_key j todo ≡ some y)
          later j x there other = covered_later env loud snap todo j x there other

  report_created-Accounts :
      (todo : List FileSnapshot) (s : ScanState)
      → IsScanned s.snapshots
      → CoversNew todo s.snapshots
      → Accounts s (report_created env todo s)
        × (count is_new (report_created env todo s).snapshots ≡ 0)
        × (count is_deleted (report_created env todo s).snapshots ≡ count is_deleted s.snapshots)
  unfolding report_created call_out
  report_created-Accounts [] s ok cover = (
    Accounts-refl s ok,
    count_none snapshot_key is_new s.snapshots ok.keyed (λ j e h. elim (Bool-cases e.is_new) [
      | inr old ↦ old
      | inl n ↦ absurd (empty_find env loud j (cover j e h n).0 (cover j e h n).1)
    ]),
    refl,
  )
  report_created-Accounts (snap ∷ todo) s ok cover =
      let (first, later, same) = call_out-Keeps snap todo s ok cover in
      let (rest, none_left, same') =
        report_created-Accounts todo (call_out snap s) first.scanned later in
      (Accounts-trans first rest, none_left, same' ∙ same)

  detect_moves-Accounts :
      (s : ScanState)
      → IsScanned s.snapshots
      → Accounts s (detect_moves env s) × (count is_deleted (detect_moves env s).snapshots ≡ 0)
  unfolding detect_moves
  detect_moves-Accounts s ok = elim (Bool-cases (ltb 0 (count is_deleted s.snapshots))) [
    | inl some_deleted ↦
        rw some_deleted (settle_deleted-Accounts env loud s.snapshots s ok (λ j e h d. (e, h)))
    | inr all_there ↦ rw all_there (Accounts-refl s ok, omega (arith, ltb→le 0 _ all_there))
  ]

  -- For a target that wants every event, once a scan has marked the table, each path at most once and
  -- what is new as seen: every deleted entry is reported by one call, of a move or of a deletion, and
  -- every new entry by one, of a move or of a creation. Afterwards no deleted and no new entry is left.
  pub finish-Accounts :
      (s : ScanState)
      → IsScanned s.snapshots
      → (moved_calls (finish env s) + deleted_calls (finish env s)
          ≡ moved_calls s + deleted_calls s + count is_deleted s.snapshots)
        × (moved_calls (finish env s) + created_calls (finish env s)
            ≡ moved_calls s + created_calls s + count is_new s.snapshots)
        × (count is_deleted (finish env s).snapshots ≡ 0)
        × (count is_new (finish env s).snapshots ≡ 0)
        × IsScanned (finish env s).snapshots
  unfolding finish
  finish-Accounts s ok =
      let (moves, none_deleted) = detect_moves-Accounts s ok in
      let (creations, none_new, same) =
        report_created-Accounts (detect_moves env s).snapshots (detect_moves env s) moves.scanned
          (λ j e h n. (e, h)) in
      let whole = Accounts-trans moves creations in
      (
        omega (arith, whole.deletions, same, none_deleted),
        omega (arith, whole.creations, none_new),
        same ∙ none_deleted,
        none_new,
        whole.scanned,
      )
