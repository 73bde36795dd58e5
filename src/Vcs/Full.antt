-- ===== src/Vcs/Full.antt =====
-- core/vcs.c: what a search answers when the cache has no room, and when events are paused.
use swatcher.Base.{
  ◌+◌, ◌<◌, ◌≡◌, ◌↔◌, refl, sym, ◌∙◌, Bool, true, false, Option, none, some, Bytes, length, inl,
  inr, arith, Option-cases, Bool-cases,
}
use swatcher.Platform.{Platform, snprintf_fits}
use swatcher.Types.{Config}
use swatcher.Vcs.Detect.{
  VcsCache, last_root, cache_find, remember, detect_root, sw_vcs_detect_root, sw_vcs_is_locked,
  sw_vcs_should_pause,
}
use swatcher.Vcs.Search.{
  Nearest, Answers, walk_up-Ends, Nearest-not_Unversioned, Nearest-unique, sw_vcs_detect_root_lem,
}

module _ (p : Platform) (cache : VcsCache) where
  full_answer :
      (path root : Bytes)
      → length cache ≡ 32
      → cache_find p cache path ≡ none
      → length path < p.path_max
      → Nearest p root path
      → sw_vcs_detect_root p cache path ≡ some (last_root cache, cache)
  unfolding sw_vcs_detect_root detect_root remember
  full_answer path root full miss fits near =
      let (found, done, out) = walk_up-Ends p (length path + 1) path (omega arith) in
      elim (Option-cases found) [
        | inl nothing ↦ absurd (Nearest-not_Unversioned p root path near (rw nothing at out))
        | inr ((type, dir), e) ↦
            rw (miss, detect_root, snprintf_fits p.path_max path fits, done, e) (ground arith)
      ]

-- With a full cache all paths that no entry covers get one answer, the root of the last entry, though
-- they may lie in different repositories.
pub sw_vcs_detect_root_full :
    (p : Platform) (cache : VcsCache) (path other root other_root : Bytes)
    → length cache ≡ 32
    → cache_find p cache path ≡ none
    → cache_find p cache other ≡ none
    → length path < p.path_max
    → length other < p.path_max
    → Nearest p root path
    → Nearest p other_root other
    → (sw_vcs_detect_root p cache path ≡ sw_vcs_detect_root p cache other)
      × (sw_vcs_detect_root p cache path ≡ some (last_root cache, cache))
sw_vcs_detect_root_full p cache path other root other_root full miss miss' fits fits' near near' =
    let first = full_answer p cache path root full miss fits near in
    let second = full_answer p cache other other_root full miss' fits' near' in
    (first ∙ sym second, first)

-- For a path that no entry covers, with room in the cache, events are paused exactly if the
-- configuration asks for it and the nearest repository upwards is locked. The file system's root is not
-- looked at on the way up.
pub sw_vcs_should_pause_iff :
    (p : Platform) (config : Config) (cache : VcsCache) (path : Bytes)
    → cache_find p cache path ≡ none
    → length cache < 32
    → length path < p.path_max
    → (paused : Bool) × (cache' : VcsCache) × (sw_vcs_should_pause p (some config) cache path
        ≡ some (paused, cache'))
      × ((paused ≡ true) ↔ (
          (config.vcs_aware ≡ true)
          × ((root : Bytes) × Nearest p root path × (sw_vcs_is_locked p (some root) ≡ true))))
unfolding sw_vcs_should_pause sw_vcs_is_locked
sw_vcs_should_pause_iff p config cache path miss room fits = elim (Bool-cases config.vcs_aware) [
  | inr careless ↦ (false, cache, rw careless refl, (λ h. cc, λ d. cc (careless, d.0)))
  | inl aware ↦
      let (root, cache', done, answer) = sw_vcs_detect_root_lem p cache path miss room fits in
      (
        sw_vcs_is_locked p root,
        cache',
        rw (aware, done) refl,
        (λ h. (aware, locked_root root answer h), λ d. locked_answer root answer d.1),
      )
]
  where
    locked_root :
        (root : Option Bytes)
        → Answers p path root
        → sw_vcs_is_locked p root ≡ true
        → (r : Bytes) × Nearest p r path × (sw_vcs_is_locked p (some r) ≡ true)
    locked_root none answer h = absurd (ground arith)
    locked_root (some r) answer h = (r, answer, h)

    locked_answer :
        (root : Option Bytes)
        → Answers p path root
        → (r : Bytes) × Nearest p r path × (sw_vcs_is_locked p (some r) ≡ true)
        → sw_vcs_is_locked p root ≡ true
    locked_answer none answer (r, near, locked) =
        absurd (Nearest-not_Unversioned p r path near answer)
    locked_answer (some root) answer (r, near, locked) =
        rw (Nearest-unique p root r path answer near) locked
