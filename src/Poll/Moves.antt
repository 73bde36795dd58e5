-- ===== src/Poll/Moves.antt =====
-- backend/backend_poll.c: after a scan every deleted entry and every new one is reported once, as one
-- end of a move or alone.
use swatcher.Base.{
  ℕ, ◌+◌, ◌≡◌, refl, true, false, none, some, List, [], ◌∷◌, Bytes, if◌then◌else◌, count, arith,
  one_if, ◌==◌, hash_find, hash_find-key, count_none, str_eq, str_eq_iff, Option-cases, Bool-cases,
  inl, inr,
}
use swatcher.Types.{FsEvent, bits}
use swatcher.Pattern.Compile.{Regex}
use swatcher.Poll.State.{FileSnapshot, snapshot_key, ScanEnv, ScanState}
use swatcher.Poll.Target.{is_deleted, find_candidate, settle, settle_deleted}
use swatcher.Poll.Loud.{calls_of, IsLoud, emit_event-snapshots, calls_of-emit_event}
use swatcher.Poll.Settle.{
  Table, IsScanned, is_new, find_candidate_found, after, Settles, Settles-none, Settles-some,
}

abbrev pub moved_calls : ScanState → ℕ
moved_calls = calls_of FsEvent.moved

abbrev pub deleted_calls : ScanState → ℕ
deleted_calls = calls_of FsEvent.deleted

abbrev pub created_calls : ScanState → ℕ
created_calls = calls_of FsEvent.created

-- Deletions and losses of a flag are accounted for by calls.
pub record Accounts (s t : ScanState) : Type 0 where
  pub scanned : IsScanned t.snapshots
  pub deletions :
      moved_calls t + deleted_calls t + count is_deleted t.snapshots
      ≡ moved_calls s + deleted_calls s + count is_deleted s.snapshots
  pub creations :
      moved_calls t + created_calls t + count is_new t.snapshots
      ≡ moved_calls s + created_calls s + count is_new s.snapshots

pub Accounts-refl : (s : ScanState) → IsScanned s.snapshots → Accounts s s
Accounts-refl s ok = record { scanned = ok; deletions = refl; creations = refl }

pub Accounts-trans : {s t u : ScanState} → Accounts s t → Accounts t u → Accounts s u
Accounts-trans a b = record {
  scanned = b.scanned;
  deletions = omega (arith, a.deletions, b.deletions);
  creations = omega (arith, a.creations, b.creations);
}

module _ {r : Regex} (env : ScanEnv r) (loud : IsLoud env) where
  pub settle-snapshots :
      (gone : FileSnapshot) (s : ScanState)
      → (settle env gone s).snapshots
        ≡ after (find_candidate gone.size s.snapshots) gone s.snapshots
  unfolding settle
  settle-snapshots gone s = elim (Option-cases (find_candidate gone.size s.snapshots)) [
    | inl alone ↦
        ground (arith, (emit_event-snapshots env FsEvent.deleted gone.path false none s).0)
    | inr (c, paired) ↦
        ground (arith, (emit_event-snapshots env FsEvent.moved c.path false (some gone.path) s).0)
  ]

  settle-Settles :
      (gone : FileSnapshot) (s : ScanState)
      → IsScanned s.snapshots
      → hash_find snapshot_key gone.path s.snapshots ≡ some gone
      → is_deleted gone ≡ true
      → Settles
          (find_candidate gone.size s.snapshots)
          gone
          s.snapshots
          (settle env gone s).snapshots
  settle-Settles gone s ok found deleted =
      rw settle-snapshots (elim (Option-cases (find_candidate gone.size s.snapshots)) [
        | inl alone ↦ rw alone (Settles-none s.snapshots gone ok found deleted)
        | inr (c, paired) ↦
            let (at_c, new, sized) = find_candidate_found gone.size s.snapshots c ok.keyed paired in
            rw paired (Settles-some s.snapshots gone ok found deleted c at_c new)
      ])

  settle-calls :
      (e : FsEvent) (gone : FileSnapshot) (s : ScanState)
      → calls_of e (settle env gone s)
        ≡ calls_of e s + elim (find_candidate gone.size s.snapshots) [
          | none ↦ one_if (bits FsEvent.deleted == bits e)
          | some c ↦ one_if (bits FsEvent.moved == bits e)
        ]
  unfolding settle
  settle-calls e gone s = elim (Option-cases (find_candidate gone.size s.snapshots)) [
    | inl alone ↦
        rw (alone, settle, calls_of-emit_event env e FsEvent.deleted gone.path false none s loud)
          refl
    | inr (c, paired) ↦
        rw
          (
            paired,
            settle,
            calls_of-emit_event env e FsEvent.moved c.path false (some gone.path) s loud,
          )
          refl
  ]

  pub settle-Accounts :
      (gone : FileSnapshot) (s : ScanState)
      → IsScanned s.snapshots
      → hash_find snapshot_key gone.path s.snapshots ≡ some gone
      → is_deleted gone ≡ true
      → Accounts s (settle env gone s)
  unfolding bits
  settle-Accounts gone s ok found deleted =
      let step = settle-Settles gone s ok found deleted in
      record {
        scanned = step.scanned;
        deletions = ground (
          arith,
          step.deleted_count,
          settle-calls FsEvent.moved gone s,
          settle-calls FsEvent.deleted gone s,
        );
        creations = ground (
          arith,
          step.new_count,
          settle-calls FsEvent.moved gone s,
          settle-calls FsEvent.created gone s,
        );
      }

  -- Every deleted entry of the table is yet to be visited.
  abbrev Covers : List FileSnapshot → Table → Type 0
  Covers todo t =
      (j : Bytes) (e : FileSnapshot)
      → hash_find snapshot_key j t ≡ some e
      → is_deleted e ≡ true
      → (x : FileSnapshot) × (hash_find snapshot_key j todo ≡ some x)

  -- The visit of one entry.
  visit : FileSnapshot → ScanState → ScanState
  visit snap s = elim (hash_find snapshot_key snap.path s.snapshots) [
    | none ↦ s
    | some now ↦ if is_deleted now then settle env now s else s
  ]

  pub empty_find : (j : Bytes) (x : FileSnapshot) → hash_find snapshot_key j [] ≡ some x → ⊥
  unfolding hash_find
  empty_find j x h = ground arith

  pub covered_later :
      (snap : FileSnapshot) (todo : List FileSnapshot) (j : Bytes) (x : FileSnapshot)
      → hash_find snapshot_key j (snap ∷ todo) ≡ some x
      → str_eq snap.path j ≡ false
      → (y : FileSnapshot) × (hash_find snapshot_key j todo ≡ some y)
  unfolding hash_find
  covered_later snap todo j x h other = (x, ground arith)

  -- An entry that is still to be deleted lies elsewhere than the one visited.
  lies_elsewhere :
      (snap : FileSnapshot) (t : Table) (j : Bytes) (e : FileSnapshot)
      → hash_find snapshot_key j t ≡ some e
      → is_deleted e ≡ true
      → ((now : FileSnapshot)
          → hash_find snapshot_key snap.path t ≡ some now
          → is_deleted now ≡ false)
      → str_eq snap.path j ≡ false
  lies_elsewhere snap t j e h d kept = elim (Bool-cases (str_eq snap.path j)) [
    | inr other ↦ other
    | inl same ↦
        let at : hash_find snapshot_key snap.path t ≡ some e =
          ground (arith, str_eq_iff snap.path j) in
        absurd (ground (arith, kept e at))
  ]

  visit-Accounts :
      (snap : FileSnapshot) (todo : List FileSnapshot) (s : ScanState)
      → IsScanned s.snapshots
      → Covers (snap ∷ todo) s.snapshots
      → Accounts s (visit snap s) × Covers todo (visit snap s).snapshots
  unfolding visit
  visit-Accounts snap todo s ok cover =
      elim (Option-cases (hash_find snapshot_key snap.path s.snapshots)) [
        | inl gone ↦
            rw (gone, visit)
              (
                Accounts-refl s ok,
                λ j e h d.
                    let (x, there) = cover j e h d in
                    covered_later snap todo j x there (
                      lies_elsewhere snap s.snapshots j e h d
                        (λ now found. absurd (ground (arith, gone, found)))),
              )
        | inr (now, found) ↦
            let key : now.path ≡ snap.path =
              hash_find-key snapshot_key snap.path s.snapshots now found in
            let at : hash_find snapshot_key now.path s.snapshots ≡ some now = ground arith in
            elim (Bool-cases (is_deleted now)) [
              | inr kept ↦
                  rw (found, visit, kept)
                    (
                      Accounts-refl s ok,
                      λ j e h d.
                          let (x, there) = cover j e h d in
                          covered_later snap todo j x there (
                            lies_elsewhere snap s.snapshots j e h d
                              (λ now' found'. ground (arith, found, found', kept))),
                    )
              | inl deleted ↦
                  rw (found, visit, deleted)
                    (
                      settle-Accounts now s ok at deleted,
                      λ j e h d.
                          let (before, other) = (settle-Settles now s ok at deleted).left j e h d in
                          let (x, there) = cover j e before d in
                          covered_later snap todo j x there (rw key at other),
                    )
            ]
      ]

  pub settle_deleted-Accounts :
      (todo : List FileSnapshot) (s : ScanState)
      → IsScanned s.snapshots
      → Covers todo s.snapshots
      → Accounts s (settle_deleted env todo s)
        × (count is_deleted (settle_deleted env todo s).snapshots ≡ 0)
  unfolding settle_deleted visit
  settle_deleted-Accounts [] s ok cover = (
    Accounts-refl s ok,
    count_none snapshot_key is_deleted s.snapshots ok.keyed (λ j e h.
        elim (Bool-cases (is_deleted e)) [
          | inr kept ↦ kept
          | inl d ↦ absurd (nothing_found j e h d)
        ]),
  )
    where
      nothing_found :
          (j : Bytes) (e : FileSnapshot)
          → hash_find snapshot_key j s.snapshots ≡ some e
          → is_deleted e ≡ true
          → ⊥
      nothing_found j e h d = empty_find j (cover j e h d).0 (cover j e h d).1
  settle_deleted-Accounts (snap ∷ todo) s ok cover =
      let (first, later) = visit-Accounts snap todo s ok cover in
      let (rest, none_left) = settle_deleted-Accounts todo (visit snap s) first.scanned later in
      (Accounts-trans first rest, none_left)
