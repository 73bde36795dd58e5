-- ===== src/Vcs/Detect.antt =====
-- core/vcs.c: `check_vcs_dir`, `sw_vcs_detect_root`, `sw_vcs_is_locked` and `sw_vcs_should_pause`. The
-- static cache is an argument, and comes back beside the result.
use swatcher.Base.{
  ℕ, zero, suc, ◌+◌, Bool, true, false, ◌&&◌, ◌||◌, Option, none, some, List, [], ◌∷◌, ◌++◌, Bytes,
  codes, length, ltb, ◌==◌, if◌then◌else◌, starts_with, is_some,
}
use swatcher.Platform.{Platform, snprintf, strrchr_at}
use swatcher.Types.{Config}

pub data VcsType : Type 0 where
  no_vcs git hg svn : VcsType

-- `vcs_cache_entry`
pub record VcsEntry : Type 0 where
  pub path : Bytes
  pub vcs_root : Bytes
  pub type : VcsType

abbrev pub VcsCache : Type 0
VcsCache = List VcsEntry

-- `VCS_CACHE_MAX`
abbrev pub vcs_cache_max : ℕ
vcs_cache_max = 32

-- `type != VCS_NONE`
abbrev pub is_vcs : VcsType → Bool
is_vcs VcsType.no_vcs = false
is_vcs VcsType.git = true
is_vcs VcsType.hg = true
is_vcs VcsType.svn = true

-- `vcs_cache[vcs_cache_count - 1].vcs_root`
abbrev pub last_root : VcsCache → Option Bytes
last_root [] = none
last_root (e ∷ []) = some e.vcs_root
last_root (_ ∷ e ∷ cache) = last_root (e ∷ cache)

module _ (p : Platform) where
  -- `snprintf(check, SW_PATH_MAX, "%s%c...", dir, sw_path_separator())`, and a directory stands there.
  unfoldable pub has_directory : Bytes → Bytes → Bool
  has_directory dir name = elim (p.stat (snprintf p.path_max (dir ++ p.separator ∷ name)) true) [
    | none ↦ false
    | some info ↦ info.is_directory
  ]

  unfoldable pub check_vcs_dir : Bytes → VcsType
  check_vcs_dir dir =
      if has_directory dir (codes ".git")
      then VcsType.git
      else if has_directory dir (codes ".hg")
      then VcsType.hg
      else if has_directory dir (codes ".svn")
      then VcsType.svn
      else VcsType.no_vcs

  -- `path[plen] == sw_path_separator() || path[plen] == '\0'`, once the prefix is read
  unfoldable pub ends_component : Bytes → Bytes → Bool
  ends_component [] [] = true
  ends_component [] (c ∷ _) = c == p.separator
  ends_component (_ ∷ _) [] = false
  ends_component (_ ∷ e) (_ ∷ s) = ends_component e s

  unfoldable pub cache_covers : VcsEntry → Bytes → Bool
  cache_covers entry path = starts_with entry.path path && ends_component entry.path path

  -- The loop over the cache: the first entry that covers the path.
  unfoldable pub cache_find : VcsCache → Bytes → Option VcsEntry
  cache_find [] path = none
  cache_find (entry ∷ cache) path =
      if cache_covers entry path then some entry else cache_find cache path

  -- The loop upwards: `none` where the fuel ran out, and `some none` where no directory on the way is
  -- under version control.
  unfoldable pub walk_up : ℕ → Bytes → Option (Option (VcsType × Bytes))
  walk_up zero dir = none
  walk_up (suc fuel) dir = elim (check_vcs_dir dir) [
    | VcsType.no_vcs ↦ elim (strrchr_at p.separator dir) [
      | none ↦ some none
      | some ([], after) ↦ some none
      | some (c ∷ before, after) ↦ walk_up fuel (c ∷ before)
    ]
    | type ↦ some (some (type, dir))
  ]

  -- What follows the loop: a find and a failure are cached while there is room, and a find is returned
  -- as the last cached root.
  unfoldable pub remember : VcsCache → Bytes → Option (VcsType × Bytes) → Option Bytes × VcsCache
  remember cache path none =
      if ltb (length cache) vcs_cache_max
      then (
        none,
        cache
            ++ record { path = snprintf p.path_max path; vcs_root = []; type = VcsType.no_vcs }
              ∷ [],
      )
      else (none, cache)
  remember cache path (some (type, dir)) =
      if ltb (length cache) vcs_cache_max
      then (let entry : VcsEntry = record {
        path = snprintf p.path_max path;
        vcs_root = snprintf p.path_max dir;
        type = type;
      } in
          (last_root (cache ++ entry ∷ []), cache ++ entry ∷ []))
      else (last_root cache, cache)

  -- On a path that is not null, with fuel for the loop.
  unfoldable pub detect_root : ℕ → VcsCache → Bytes → Option (Option Bytes × VcsCache)
  detect_root fuel cache path = elim (cache_find cache path) [
    | some entry ↦ some (if is_vcs entry.type then some entry.vcs_root else none, cache)
    | none ↦ elim (walk_up fuel (snprintf p.path_max path)) [
      | none ↦ none
      | some found ↦ some (remember cache path found)
    ]
  ]

  -- The loop takes a byte at least off the path each round.
  unfoldable pub sw_vcs_detect_root : VcsCache → Bytes → Option (Option Bytes × VcsCache)
  unfolding detect_root
  sw_vcs_detect_root cache path = detect_root (length path + 1) cache path

  unfoldable pub has_file : Bytes → Bytes → Bytes → Bool
  has_file root dir name =
      is_some
        (p.stat (snprintf p.path_max (root ++ p.separator ∷ (dir ++ p.separator ∷ name))) true)

  unfoldable pub sw_vcs_is_locked : Option Bytes → Bool
  sw_vcs_is_locked none = false
  sw_vcs_is_locked (some root) =
      has_file root (codes ".git") (codes "index.lock")
      || has_file root (codes ".hg") (codes "wlock")
      || has_file root (codes ".svn") (codes "wc.db.lock")

  -- A null configuration is `none`.
  unfoldable pub sw_vcs_should_pause : Option Config → VcsCache → Bytes → Option (Bool × VcsCache)
  sw_vcs_should_pause none cache target_path = some (false, cache)
  sw_vcs_should_pause (some config) cache target_path =
      if config.vcs_aware
      then elim (sw_vcs_detect_root cache target_path) [
        | none ↦ none
        | some (vcs_root, cache') ↦ some (sw_vcs_is_locked vcs_root, cache')
      ]
      else some (false, cache)

  -- The same for a caller: the flag, and the cache that is left. The fuel never runs out.
  unfoldable pub pause : Config → VcsCache → Bytes → Bool × VcsCache
  unfolding sw_vcs_should_pause
  pause config cache target_path = elim (sw_vcs_should_pause (some config) cache target_path) [
    | none ↦ (false, cache)
    | some r ↦ r
  ]
