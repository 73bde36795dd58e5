-- ===== src/Poll/Target.antt =====
-- backend/backend_poll.c: `poll_scan_target`, which scans a target and reports what was created, moved
-- and deleted.
use swatcher.Base.{
  ℕ, Bool, false, ◌&&◌, not, Option, none, some, List, [], ◌∷◌, ltb, ◌==◌, if◌then◌else◌, hash_find,
  hash_set, hash_del, map, count,
}
use swatcher.Types.{FsEvent}
use swatcher.Pattern.Compile.{Regex}
use swatcher.Poll.State.{
  FileSnapshot, snapshot_key, ScanEnv, ScanState, emit_event, snapshot_add, refresh,
}
use swatcher.Poll.Scan.{scan_path}

-- The flags before a scan.
abbrev pub clear_flags : FileSnapshot → FileSnapshot
clear_flags snap = record snap { seen = false; is_new = false }

abbrev pub clear_new : FileSnapshot → FileSnapshot
clear_new snap = record snap { is_new = false }

-- `!snap->seen && !snap->is_new`
abbrev pub is_deleted : FileSnapshot → Bool
is_deleted snap = not snap.seen && not snap.is_new

-- The inner loop of the move detection: the first new entry of this size.
unfoldable pub find_candidate : ℕ → List FileSnapshot → Option FileSnapshot
find_candidate size [] = none
find_candidate size (candidate ∷ rest) =
    if candidate.is_new && candidate.size == size then some candidate else find_candidate size rest

module _ {r : Regex} (env : ScanEnv r) where
  -- A deleted entry: a move if a candidate has its size, else a deletion; and it goes.
  unfoldable pub settle : FileSnapshot → ScanState → ScanState
  settle snap s =
      let s' : ScanState = elim (find_candidate snap.size s.snapshots) [
        | none ↦ emit_event env FsEvent.deleted snap.path false none s
        | some candidate ↦
            let moved = emit_event env FsEvent.moved candidate.path false (some snap.path) s in
            record moved {
              snapshots = hash_set snapshot_key candidate.path clear_new moved.snapshots;
            }
      ] in
      record s' { snapshots = hash_del snapshot_key snap.path s'.snapshots }

  -- The loop over the table; `todo` is what the iteration has yet to visit, and the flags are read from
  -- the table as it stands by then.
  unfoldable pub settle_deleted : List FileSnapshot → ScanState → ScanState
  settle_deleted [] s = s
  settle_deleted (snap ∷ todo) s =
      settle_deleted todo (elim (hash_find snapshot_key snap.path s.snapshots) [
        | none ↦ s
        | some now ↦ if is_deleted now then settle now s else s
      ])

  -- An entry that is still new was created.
  unfoldable pub announce : FileSnapshot → ScanState → ScanState
  announce snap s =
      let s' = emit_event env FsEvent.created snap.path false none s in
      record s' { snapshots = hash_set snapshot_key snap.path clear_new s'.snapshots }

  -- The last loop, over the table as it stands at each entry.
  unfoldable pub report_created : List FileSnapshot → ScanState → ScanState
  report_created [] s = s
  report_created (snap ∷ todo) s =
      report_created todo (elim (hash_find snapshot_key snap.path s.snapshots) [
        | none ↦ s
        | some now ↦ if now.is_new then announce now s else s
      ])

  -- The move detection, which runs only if something was deleted.
  unfoldable pub detect_moves : ScanState → ScanState
  detect_moves s = if ltb 0 (count is_deleted s.snapshots) then settle_deleted s.snapshots s else s

  -- Everything after `scan_path`.
  unfoldable pub finish : ScanState → ScanState
  finish s = report_created (detect_moves s).snapshots (detect_moves s)

  -- The branch for a target that is a file.
  unfoldable pub scan_file : ScanState → ScanState
  scan_file s =
      let path = env.target.path in
      elim (env.platform.stat path env.target.follow_symlinks) [
        | some info ↦ elim (hash_find snapshot_key path s.snapshots) [
          | none ↦ emit_event env FsEvent.created path false none (record s {
            snapshots = snapshot_add env path info.mtime info.size env.fresh_flag s.snapshots;
          })
          | some snap ↦ refresh env snap info s
        ]
        | none ↦ elim (hash_find snapshot_key path s.snapshots) [
          | none ↦ s
          | some snap ↦
              let s' = emit_event env FsEvent.deleted path false none s in
              record s' { snapshots = hash_del snapshot_key path s'.snapshots }
        ]
      ]

  unfoldable pub poll_scan_target : ℕ → ScanState → Option ScanState
  unfolding scan_path finish detect_moves settle_deleted report_created settle announce
      find_candidate scan_file emit_event
  poll_scan_target fuel s =
      let cleared : ScanState = record s { snapshots = map clear_flags s.snapshots } in
      if env.target.is_file
      then some (scan_file cleared)
      else elim (scan_path env fuel env.target.is_recursive env.target.path cleared) [
        | none ↦ none
        | some s' ↦ some (finish s')
      ]
