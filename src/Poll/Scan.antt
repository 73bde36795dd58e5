-- ===== src/Poll/Scan.antt =====
-- backend/backend_poll.c: `scan_path`. The recursion into subdirectories runs on fuel, and `none` means
-- that it ran out.
use swatcher.Base.{
  ℕ, zero, suc, Bool, true, false, ◌&&◌, ◌||◌, not, Option, none, some, List, [], ◌∷◌, Bytes, ltb,
  ◌==◌, if◌then◌else◌, hash_find, hash_add, hash_set,
}
use swatcher.Platform.{Platform, DirEntry, FileInfo, child_path, is_dot, is_direct_child}
use swatcher.Pattern.Compile.{Regex}
use swatcher.Poll.State.{
  FileSnapshot, snapshot_key, DirMtime, dir_key, ScanEnv, ScanState, sub64, allowed, ignored,
  snapshot_add, refresh,
}

module _ {r : Regex} (env : ScanEnv r) where
  abbrev p : Platform
  p = env.platform

  -- The cached time of a directory against the one that `sw_stat` gives: must the directory be listed?
  unfoldable pub check_dir_mtime : Bytes → ScanState → Bool × ScanState
  check_dir_mtime dir_path s = elim (p.stat dir_path env.target.follow_symlinks) [
    | none ↦ (true, s)
    | some dir_info ↦
        let now = p.time_now_ms dir_path in
        elim (hash_find dir_key dir_path s.dir_mtimes) [
          | some cached ↦
              if cached.mtime == dir_info.mtime
              then (not (ltb 1500 (sub64 now cached.cached_at)), s)
              else (
                true,
                record s {
                  dir_mtimes =
                      hash_set dir_key dir_path
                        (λ e. record e { mtime = dir_info.mtime; cached_at = now }) s.dir_mtimes;
                },
              )
          | none ↦
              if env.dir_memory dir_path
              then (
                true,
                record s {
                  dir_mtimes =
                      hash_add s.dir_mtimes
                        (record { path = dir_path; mtime = dir_info.mtime; cached_at = now });
                },
              )
              else (true, s)
        ]
  ]

  -- A file that the listing shows: new, or known and seen again.
  unfoldable pub record_file : Bytes → FileInfo → ScanState → ScanState
  record_file path info s = elim (hash_find snapshot_key path s.snapshots) [
    | none ↦ record s { snapshots = snapshot_add env path info.mtime info.size true s.snapshots }
    | some snap ↦ refresh env snap info s
  ]

  -- The listing loop's body for one entry; `scan` is the recursive call.
  unfoldable pub scan_entry :
      (Bytes → ScanState → Option ScanState)
      → Bytes
      → Bool
      → DirEntry
      → ScanState
      → Option ScanState
  scan_entry scan dir_path recursive entry s =
      if is_dot entry.name || ignored env entry.name
      then some s
      else (let child = child_path p dir_path entry.name in
          if entry.is_dir && recursive
          then scan child s
          else if entry.is_dir || not (allowed env (λ ti. ti.compiled_watch) entry.name)
          then some s
          else elim (p.stat child env.target.follow_symlinks) [
            | none ↦ some s
            | some info ↦ some (record_file child info s)
          ])

  unfoldable pub scan_entries :
      (Bytes → ScanState → Option ScanState)
      → Bytes
      → Bool
      → List DirEntry
      → ScanState
      → Option ScanState
  scan_entries scan dir_path recursive [] s = some s
  scan_entries scan dir_path recursive (entry ∷ entries) s =
      elim (scan_entry scan dir_path recursive entry s) [
        | none ↦ none
        | some s' ↦ scan_entries scan dir_path recursive entries s'
      ]

  -- The loop over the known files of a directory that has not changed.
  unfoldable pub restat : Bytes → List FileSnapshot → ScanState → ScanState
  restat dir_path [] s = s
  restat dir_path (snap ∷ rest) s = restat dir_path rest (
      if is_direct_child p.separator dir_path snap.path
      then elim (p.stat snap.path env.target.follow_symlinks) [
        | none ↦ s
        | some info ↦ refresh env snap info s
      ]
      else s)

  -- The loop over its known subdirectories.
  unfoldable pub scan_subdirs :
      (Bytes → ScanState → Option ScanState) → Bytes → List DirMtime → ScanState → Option ScanState
  scan_subdirs scan dir_path [] s = some s
  scan_subdirs scan dir_path (dm ∷ rest) s =
      elim (if is_direct_child p.separator dir_path dm.path then scan dm.path s else some s) [
        | none ↦ none
        | some s' ↦ scan_subdirs scan dir_path rest s'
      ]

  -- What follows the check of the directory's time.
  unfoldable pub scan_dir :
      (Bytes → ScanState → Option ScanState) → Bool → Bytes → Bool × ScanState → Option ScanState
  scan_dir scan recursive dir_path (true, s) = elim (p.dir_open dir_path) [
    | none ↦ some s
    | some entries ↦ scan_entries scan dir_path recursive entries s
  ]
  scan_dir scan recursive dir_path (false, s) =
      let s' = restat dir_path s.snapshots s in
      if recursive then scan_subdirs scan dir_path s'.dir_mtimes s' else some s'

  unfoldable pub scan_path : ℕ → Bool → Bytes → ScanState → Option ScanState
  scan_path zero recursive dir_path s = none
  scan_path (suc fuel) recursive dir_path s =
      scan_dir (scan_path fuel true) recursive dir_path (check_dir_mtime dir_path s)
