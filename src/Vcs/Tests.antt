-- ===== src/Vcs/Tests.antt =====
-- Tests of the search for a repository, and the theorems at concrete inputs.
use swatcher.Base.{
  ℕ, ◌≡◌, ◌↔◌, ◌≤◌, refl, Bool, true, false, Option, none, some, [], ◌∷◌, Bytes, codes, length,
  arith, starts_with,
}
use swatcher.Platform.{Platform, snprintf, strrchr_at}
use swatcher.Platform.Sample.{sample, sample_stat, a_directory}
use swatcher.Types.{Config}
use swatcher.Vcs.Detect.{
  VcsType, VcsEntry, VcsCache, last_root, cache_find, cache_covers, ends_component, walk_up,
  check_vcs_dir, has_directory, remember, sw_vcs_detect_root, sw_vcs_is_locked, sw_vcs_should_pause,
  has_file,
}
use swatcher.Vcs.Search.{Nearest}
use swatcher.Vcs.Above.{IsNearest, sw_vcs_detect_root-IsNearest}
use swatcher.Vcs.Cache.{Grows, length-sw_vcs_detect_root, sw_vcs_detect_root_again}
use swatcher.Vcs.Full.{sw_vcs_detect_root_full}
use swatcher.Vcs.Pause.{sw_vcs_should_pause-IsNearest}

program : Unit {0}
unfolding has_directory check_vcs_dir ends_component cache_covers cache_find walk_up remember
    sw_vcs_detect_root has_file sw_vcs_is_locked sw_vcs_should_pause snprintf strrchr_at starts_with
    sample_stat
program = tt

abbrev found_entry : VcsEntry
found_entry = record { path = codes "/r/sub"; vcs_root = codes "/r"; type = VcsType.git }

finds_above :
    sw_vcs_detect_root sample [] (codes "/r/sub") ≡ some (some (codes "/r"), found_entry ∷ [])
unfolding program
finds_above = refl

locked : sw_vcs_is_locked sample (some (codes "/r")) ≡ true
unfolding program
locked = refl

sw_vcs_detect_root-IsNearest_example :
    (root : Option Bytes) × (cache' : VcsCache) × (sw_vcs_detect_root sample [] (codes "/r/sub")
      ≡ some (root, cache'))
    × IsNearest sample (codes "/r/sub") root
unfolding program
sw_vcs_detect_root-IsNearest_example =
    sw_vcs_detect_root-IsNearest sample [] (codes "/r/sub") refl (omega arith) (omega arith)

length-sw_vcs_detect_root_example :
    (length (found_entry ∷ []) ≤ 32) × Grows sample [] (found_entry ∷ [])
length-sw_vcs_detect_root_example =
    length-sw_vcs_detect_root sample [] (codes "/r/sub") (some (codes "/r")) (found_entry ∷ [])
      (omega arith) finds_above

-- The file system with everything gone.
abbrev bare : Platform
bare = record sample { stat = λ path follow. none }

sw_vcs_detect_root_again_example :
    sw_vcs_detect_root bare (found_entry ∷ []) (codes "/r/sub")
    ≡ some (some (codes "/r"), found_entry ∷ [])
sw_vcs_detect_root_again_example =
    sw_vcs_detect_root_again sample bare refl [] (codes "/r/sub") (some (codes "/r"))
      (found_entry ∷ []) (omega arith) (omega arith) finds_above

-- Thirty-two searches that failed.
abbrev copies : ℕ → VcsCache
copies ℕ.zero = []
copies (ℕ.suc n) = record { path = codes "/x"; vcs_root = []; type = VcsType.no_vcs } ∷ copies n

-- Every directory is a repository here.
abbrev all_repositories : Platform
all_repositories = record sample { stat = λ path follow. some a_directory }

sw_vcs_detect_root_full_example :
    (sw_vcs_detect_root all_repositories (copies 32) (codes "/a")
      ≡ sw_vcs_detect_root all_repositories (copies 32) (codes "/b"))
    × (sw_vcs_detect_root all_repositories (copies 32) (codes "/a")
        ≡ some (last_root (copies 32), copies 32))
unfolding program
sw_vcs_detect_root_full_example =
    sw_vcs_detect_root_full all_repositories (copies 32) (codes "/a") (codes "/b") (codes "/a")
      (codes "/b") refl refl refl (omega arith) (omega arith) (Nearest.here refl refl)
      (Nearest.here refl refl)

abbrev aware : Config
aware = record {
  poll_interval_ms = 100;
  enable_logging = false;
  coalesce_ms = 0;
  allocator = none;
  overflow_rescan = false;
  vcs_aware = true;
}

sw_vcs_should_pause-IsNearest_example :
    (paused : Bool) × (cache' : VcsCache) × (sw_vcs_should_pause sample
        (some aware)
        []
        (codes "/r/sub")
      ≡ some (paused, cache'))
    × ((paused ≡ true) ↔ (
        (aware.vcs_aware ≡ true)
        × ((c : ℕ) × (dir : Bytes) × IsNearest sample (codes "/r/sub") (some (c ∷ dir))
            × (sw_vcs_is_locked sample (some (c ∷ dir)) ≡ true))))
unfolding program
sw_vcs_should_pause-IsNearest_example =
    sw_vcs_should_pause-IsNearest sample aware [] (codes "/r/sub") refl (omega arith) (omega arith)
      (omega arith)
