-- ===== src/Rescan/Walk.antt =====
-- core/rescan.c: `rescan_walk` and `sw_rescan_snapshot`. The recursion into subdirectories runs on
-- fuel, and `none` means that it ran out.
use swatcher.Base.{
  ℕ, zero, suc, Bool, true, ◌&&◌, Option, none, some, List, [], ◌∷◌, Bytes, if◌then◌else◌, hash_add,
}
use swatcher.Platform.{Platform, DirEntry, child_path, is_dot}

-- `sw_rescan_entry`, keyed by its path
pub record RescanEntry : Type 0 where
  pub path : Bytes
  pub mtime : ℕ
  pub size : ℕ

abbrev pub Snapshot : Type 0
Snapshot = List RescanEntry

abbrev pub entry_key : RescanEntry → Bytes
entry_key e = e.path

-- `gets_memory` says whether the two allocations for the entry of a path succeed.
module _ (p : Platform) (gets_memory : Bytes → Bool) where
  -- The loop's body for one entry; `walk` is the recursive call.
  unfoldable pub rescan_entry :
      (Bytes → Snapshot → Option Snapshot) → Bytes → Bool → DirEntry → Snapshot → Option Snapshot
  rescan_entry walk dir_path recursive entry snapshot =
      if is_dot entry.name
      then some snapshot
      else (let child = child_path p dir_path entry.name in
          if entry.is_dir && recursive
          then walk child snapshot
          else if entry.is_dir
          then some snapshot
          else elim (p.stat child true) [
            | none ↦ some snapshot
            | some info ↦
                if gets_memory child
                then some (
                    hash_add snapshot
                      (record { path = child; mtime = info.mtime; size = info.size }))
                else some snapshot
          ])

  unfoldable pub rescan_entries :
      (Bytes → Snapshot → Option Snapshot)
      → Bytes
      → Bool
      → List DirEntry
      → Snapshot
      → Option Snapshot
  rescan_entries walk dir_path recursive [] snapshot = some snapshot
  rescan_entries walk dir_path recursive (entry ∷ entries) snapshot =
      elim (rescan_entry walk dir_path recursive entry snapshot) [
        | none ↦ none
        | some snapshot' ↦ rescan_entries walk dir_path recursive entries snapshot'
      ]

  unfoldable pub rescan_walk : ℕ → Bool → Bytes → Snapshot → Option Snapshot
  rescan_walk zero recursive dir_path snapshot = none
  rescan_walk (suc fuel) recursive dir_path snapshot = elim (p.dir_open dir_path) [
    | none ↦ some snapshot
    | some entries ↦ rescan_entries (rescan_walk fuel true) dir_path recursive entries snapshot
  ]

  unfoldable pub sw_rescan_snapshot : ℕ → Bytes → Bool → Option Snapshot
  unfolding rescan_walk rescan_entries rescan_entry child_path is_dot
  sw_rescan_snapshot fuel root_path recursive = rescan_walk fuel recursive root_path []
