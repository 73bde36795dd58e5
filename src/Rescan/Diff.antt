-- ===== src/Rescan/Diff.antt =====
-- core/rescan.c: `sw_rescan_diff`, as the list of the callback's calls.
use swatcher.Base.{
  ℕ, Bool, ◌||◌, not, Option, none, some, List, [], ◌∷◌, ◌++◌, ◌==◌, if◌then◌else◌, hash_find,
  str_eq,
}
use swatcher.Platform.{basename}
use swatcher.Types.{FsEvent, Call, Target, wanted, plain_call}
use swatcher.Rescan.Walk.{RescanEntry, Snapshot, entry_key}

module _ (separator : ℕ) (target : Target) where
  -- One call if the target wants the event.
  unfoldable pub report : FsEvent → RescanEntry → List Call
  report event e =
      if wanted target.events event
      then plain_call event target.path (basename separator e.path) ∷ []
      else []

  unfoldable pub changed : RescanEntry → RescanEntry → Bool
  changed old new = not (old.mtime == new.mtime) || not (old.size == new.size)

  -- The body of the loop over the new snapshot.
  unfoldable pub new_calls : Snapshot → RescanEntry → List Call
  unfolding changed
  new_calls old_snap ne = elim (hash_find entry_key ne.path old_snap) [
    | none ↦ report FsEvent.created ne
    | some old ↦ if changed old ne then report FsEvent.modified ne else []
  ]

  -- The body of the loop over the old snapshot.
  unfoldable pub old_calls : Snapshot → RescanEntry → List Call
  old_calls new_snap oe = elim (hash_find entry_key oe.path new_snap) [
    | none ↦ report FsEvent.deleted oe
    | some found ↦ []
  ]

  unfoldable pub diff_new : Snapshot → Snapshot → List Call
  diff_new old_snap [] = []
  diff_new old_snap (ne ∷ rest) = new_calls old_snap ne ++ diff_new old_snap rest

  unfoldable pub diff_old : Snapshot → Snapshot → List Call
  diff_old new_snap [] = []
  diff_old new_snap (oe ∷ rest) = old_calls new_snap oe ++ diff_old new_snap rest

-- A null target is `none`. A null snapshot is an empty table.
unfoldable pub sw_rescan_diff : ℕ → Snapshot → Snapshot → Option Target → List Call
unfolding diff_new diff_old new_calls old_calls report wanted plain_call basename hash_find str_eq
sw_rescan_diff separator old_snap new_snap none = []
sw_rescan_diff separator old_snap new_snap (some target) =
    if target.callback
    then diff_new separator target old_snap new_snap ++ diff_old separator target new_snap old_snap
    else []
