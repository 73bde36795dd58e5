-- ===== src/Poll/Report.antt =====
-- backend/backend_poll.c: what is reported after a scan.
use swatcher.Base.{
  ◌≡◌, ap, ◌∙◌, some, List, [], ◌∷◌, ◌++◌, Bytes, All, count, count-append, arith, one_if, ltb,
  hash_find, hash_find-key, Option-cases, Bool-cases, inl, inr,
}
use swatcher.Types.{Call}
use swatcher.Pattern.Compile.{Regex}
use swatcher.Poll.State.{FileSnapshot, snapshot_key, ScanEnv, ScanState}
use swatcher.Poll.Target.{
  is_deleted, find_candidate, settle, settle_deleted, announce, detect_moves, report_created,
  finish,
}
use swatcher.Poll.Loud.{IsLoud}
use swatcher.Poll.Settle.{IsScanned, is_new}
use swatcher.Poll.Created.{finish-Accounts}
use swatcher.Poll.Told.{tells_gone, tells_new, at_path, Justified, Tells, Tells-refl, Tells-trans}
use swatcher.Poll.Flags.{none_at}
use swatcher.Poll.Steps.{settle_alone-Tells, settle_pair-Tells, announce-Tells}

module _ {r : Regex} (env : ScanEnv r) (loud : IsLoud env) where
  settle_deleted-Tells :
      (todo : List FileSnapshot) (s : ScanState)
      → IsScanned s.snapshots
      → Tells env s (settle_deleted env todo s)
  unfolding settle_deleted
  settle_deleted-Tells [] s ok = Tells-refl env s ok
  settle_deleted-Tells (snap ∷ todo) s ok =
      elim (Option-cases (hash_find snapshot_key snap.path s.snapshots)) [
        | inl gone ↦ rw (settle_deleted, gone) (settle_deleted-Tells todo s ok)
        | inr (now, found) ↦ elim (Bool-cases (is_deleted now)) [
          | inr kept ↦ rw (settle_deleted, found, kept) (settle_deleted-Tells todo s ok)
          | inl deleted ↦
              let key : now.path ≡ snap.path =
                hash_find-key snapshot_key snap.path s.snapshots now found in
              let at : hash_find snapshot_key now.path s.snapshots ≡ some now =
                ap (λ k. hash_find snapshot_key k s.snapshots) key ∙ found in
              let first : Tells env s (settle env now s) =
                elim (Option-cases (find_candidate now.size s.snapshots)) [
                  | inl alone ↦ settle_alone-Tells env loud now s ok at deleted alone
                  | inr (c, paired) ↦ settle_pair-Tells env loud now c s ok at deleted paired
                ] in
              rw (settle_deleted, found, deleted)
                (Tells-trans env s (settle env now s) (settle_deleted env todo (settle env now s))
                  first (settle_deleted-Tells todo (settle env now s) first.scanned))
        ]
      ]

  report_created-Tells :
      (todo : List FileSnapshot) (s : ScanState)
      → IsScanned s.snapshots
      → Tells env s (report_created env todo s)
  unfolding report_created announce
  report_created-Tells [] s ok = Tells-refl env s ok
  report_created-Tells (snap ∷ todo) s ok =
      elim (Option-cases (hash_find snapshot_key snap.path s.snapshots)) [
        | inl gone ↦ rw (report_created, gone) (report_created-Tells todo s ok)
        | inr (now, found) ↦ elim (Bool-cases now.is_new) [
          | inr old ↦ rw (report_created, found, old) (report_created-Tells todo s ok)
          | inl new ↦
              let key : now.path ≡ snap.path =
                hash_find-key snapshot_key snap.path s.snapshots now found in
              let at : hash_find snapshot_key now.path s.snapshots ≡ some now =
                ap (λ k. hash_find snapshot_key k s.snapshots) key ∙ found in
              let first = announce-Tells env loud now s ok at new in
              rw (report_created, found, new)
                (Tells-trans env s (announce env now s)
                  (report_created env todo (announce env now s)) first
                  (report_created-Tells todo (announce env now s) first.scanned))
        ]
      ]

  detect_moves-Tells : (s : ScanState) → IsScanned s.snapshots → Tells env s (detect_moves env s)
  unfolding detect_moves
  detect_moves-Tells s ok = elim (Bool-cases (ltb 0 (count is_deleted s.snapshots))) [
    | inl some_deleted ↦ rw some_deleted (settle_deleted-Tells s.snapshots s ok)
    | inr all_there ↦ rw all_there (Tells-refl env s ok)
  ]

  finish-Tells : (s : ScanState) → IsScanned s.snapshots → Tells env s (finish env s)
  unfolding finish
  finish-Tells s ok =
      let moves = detect_moves-Tells s ok in
      let found = detect_moves env s in
      Tells-trans env s found (report_created env found.snapshots found) moves
        (report_created-Tells found.snapshots found moves.scanned)

  -- For a target that wants every event, with no callback patterns and no pause for version control, once
  -- a scan has marked the table, each path at most once and what is new as seen: at each path, the calls
  -- made tell once that it is gone if a deleted entry stood there, and else not; and once that something
  -- came there if a new entry stood there, and else not. Each call made is a move from a deleted entry to
  -- a new one of its size, the deletion of a deleted entry, or the creation of a new one. Afterwards no
  -- deleted and no new entry is left.
  pub finish_lem :
      (s : ScanState)
      → IsScanned s.snapshots
      → (added : List Call) × ((finish env s).calls ≡ s.calls ++ added)
        × All (Justified env s.snapshots) added
        × ((j : Bytes) → count (tells_gone j) added ≡ one_if (at_path is_deleted j s.snapshots))
        × ((j : Bytes) → count (tells_new j) added ≡ one_if (at_path is_new j s.snapshots))
        × (count is_deleted (finish env s).snapshots ≡ 0)
        × (count is_new (finish env s).snapshots ≡ 0)
  finish_lem s ok =
      let told = finish-Tells s ok in
      let (_, _, no_deleted, no_new, _) = finish-Accounts env loud s ok in
      (
        told.added,
        told.appended,
        told.justified,
        λ j. omega (
          arith,
          told.gone j,
          ap (count (tells_gone j)) told.appended,
          count-append (tells_gone j) s.calls told.added,
          ap one_if (none_at is_deleted j (finish env s).snapshots no_deleted),
        ),
        λ j. omega (
          arith,
          told.come j,
          ap (count (tells_new j)) told.appended,
          count-append (tells_new j) s.calls told.added,
          ap one_if (none_at is_new j (finish env s).snapshots no_new),
        ),
        no_deleted,
        no_new,
      )
