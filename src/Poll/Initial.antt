-- ===== src/Poll/Initial.antt =====
-- backend/backend_poll.c: the first snapshot of a target, which emits nothing.
use swatcher.Base.{
  ℕ, zero, suc, Bool, true, ◌&&◌, ◌||◌, not, Option, none, some, List, [], ◌∷◌, Bytes,
  if◌then◌else◌,
}
use swatcher.Platform.{DirEntry, child_path, is_dot}
use swatcher.Pattern.Compile.{Regex}
use swatcher.Poll.State.{FileSnapshot, ScanEnv, allowed, ignored, snapshot_add}

module _ {r : Regex} (env : ScanEnv r) where
  abbrev Snapshots : Type 0
  Snapshots = List FileSnapshot

  unfoldable pub initial_entry :
      (Bytes → Snapshots → Option Snapshots)
      → Bytes
      → Bool
      → DirEntry
      → Snapshots
      → Option Snapshots
  initial_entry scan dir_path recursive entry snapshots =
      if is_dot entry.name || ignored env entry.name
      then some snapshots
      else (let child = child_path env.platform dir_path entry.name in
          if entry.is_dir && recursive
          then scan child snapshots
          else if entry.is_dir || not (allowed env (λ ti. ti.compiled_watch) entry.name)
          then some snapshots
          else elim (env.platform.stat child env.target.follow_symlinks) [
            | none ↦ some snapshots
            | some info ↦
                some (snapshot_add env child info.mtime info.size env.fresh_flag snapshots)
          ])

  unfoldable pub initial_entries :
      (Bytes → Snapshots → Option Snapshots)
      → Bytes
      → Bool
      → List DirEntry
      → Snapshots
      → Option Snapshots
  initial_entries scan dir_path recursive [] snapshots = some snapshots
  initial_entries scan dir_path recursive (entry ∷ entries) snapshots =
      elim (initial_entry scan dir_path recursive entry snapshots) [
        | none ↦ none
        | some snapshots' ↦ initial_entries scan dir_path recursive entries snapshots'
      ]

  unfoldable pub initial_scan_path : ℕ → Bool → Bytes → Snapshots → Option Snapshots
  initial_scan_path zero recursive dir_path snapshots = none
  initial_scan_path (suc fuel) recursive dir_path snapshots =
      elim (env.platform.dir_open dir_path) [
        | none ↦ some snapshots
        | some entries ↦
            initial_entries (initial_scan_path fuel true) dir_path recursive entries snapshots
      ]

  -- On the empty table of a new target.
  unfoldable pub poll_initial_snapshot : ℕ → Option Snapshots
  unfolding initial_scan_path initial_entries initial_entry
  poll_initial_snapshot fuel =
      if env.target.is_file
      then elim (env.platform.stat env.target.path env.target.follow_symlinks) [
        | none ↦ some []
        | some info ↦ some (snapshot_add env env.target.path info.mtime info.size env.fresh_flag [])
      ]
      else initial_scan_path fuel env.target.is_recursive env.target.path []
