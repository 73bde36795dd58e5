-- ===== src/Vcs/Cache.antt =====
-- core/vcs.c: the cache stays within its array, and a search that is repeated is answered from it.
use swatcher.Base.{
  ℕ, ◌+◌, ◌≤◌, ◌<◌, ◌≡◌, ◌⊎◌, refl, ◌∙◌, true, Option, none, some, [], ◌∷◌, ◌++◌, Bytes, length,
  ltb, if◌then◌else◌, inl, inr, arith, Option-cases, Bool-cases, length-append, starts_with,
}
use swatcher.Platform.{Platform, snprintf, snprintf_fits}
use swatcher.Vcs.Detect.{
  VcsType, VcsEntry, VcsCache, is_vcs, cache_covers, ends_component, cache_find, walk_up, remember,
  detect_root, sw_vcs_detect_root,
}
use swatcher.Vcs.Search.{last_root-append, walk_up-Ends, walk_up-versioned}

module _ (p : Platform) where
  -- The cache is left alone, or has grown by one entry at its end.
  abbrev pub Grows : VcsCache → VcsCache → Type 0
  Grows cache cache' =
      (cache' ≡ cache) ⊎ ((e : VcsEntry) × (cache' ≡ cache ++ e ∷ []) × (length cache < 32))

  remember-Grows :
      (cache : VcsCache) (path : Bytes) (found : Option (VcsType × Bytes))
      → Grows cache (remember p cache path found).1
  unfolding remember
  remember-Grows cache path none = elim (Bool-cases (ltb (length cache) 32)) [
    | inl room ↦ rw room (inr (_, refl, ground arith))
    | inr full ↦ rw full (inl refl)
  ]
  remember-Grows cache path (some (type, root)) = elim (Bool-cases (ltb (length cache) 32)) [
    | inl room ↦ rw room (inr (_, refl, ground arith))
    | inr full ↦ rw full (inl refl)
  ]

  detect_root-Grows :
      (fuel : ℕ) (cache : VcsCache) (path : Bytes) (r : Option Bytes) (cache' : VcsCache)
      → detect_root p fuel cache path ≡ some (r, cache')
      → Grows cache cache'
  unfolding detect_root
  detect_root-Grows fuel cache path r cache' h = elim (Option-cases (cache_find p cache path)) [
    | inr (entry, hit) ↦ inl (ground arith)
    | inl miss ↦ elim (Option-cases (walk_up p fuel (snprintf p.path_max path))) [
      | inl stuck ↦ absurd (ground arith)
      | inr (found, done) ↦
          let e : cache' ≡ (remember p cache path found).1 = ground arith in
          rw e (remember-Grows cache path found)
    ]
  ]

  -- A search never writes past the 32 entries of the cache, and never changes one that is there.
  pub length-sw_vcs_detect_root :
      (cache : VcsCache) (path : Bytes) (r : Option Bytes) (cache' : VcsCache)
      → length cache ≤ 32
      → sw_vcs_detect_root p cache path ≡ some (r, cache')
      → (length cache' ≤ 32) × Grows cache cache'
  unfolding sw_vcs_detect_root
  length-sw_vcs_detect_root cache path r cache' bound h =
      let grown = detect_root-Grows (length path + 1) cache path r cache' h in
      (
        elim grown [
          | inl same ↦ rw same bound
          | inr (e, longer, room) ↦ rw longer (omega (arith, length-append cache (e ∷ [])))
        ],
        grown,
      )

  starts_with_self : (s : Bytes) → starts_with s s ≡ true
  unfolding starts_with
  starts_with_self [] = refl
  starts_with_self (c ∷ s) = ground (arith, starts_with_self s)

  ends_component_self : (s : Bytes) → ends_component p s s ≡ true
  unfolding ends_component
  ends_component_self [] = refl
  ends_component_self (c ∷ s) = ends_component_self s

  cache_find-append :
      (cache : VcsCache) (e : VcsEntry) (path : Bytes)
      → cache_find p cache path ≡ none
      → e.path ≡ path
      → cache_find p (cache ++ e ∷ []) path ≡ some e
  unfolding cache_find cache_covers
  cache_find-append [] e path miss same =
      rw (same, starts_with_self path, ends_component_self path) refl
  cache_find-append (x ∷ cache) e path miss same = ground (arith, cache_find-append cache e path)

-- The file system is asked for no more once a path is cached.
module _ (p q : Platform) (same_separator : q.separator ≡ p.separator) where
  ends_component_same : (e s : Bytes) → ends_component q e s ≡ ends_component p e s
  unfolding ends_component
  ends_component_same [] [] = refl
  ends_component_same [] (c ∷ s) = ground arith
  ends_component_same (_ ∷ _) [] = refl
  ends_component_same (_ ∷ e) (_ ∷ s) = ends_component_same e s

  cache_find_same :
      (cache : VcsCache) (path : Bytes) → cache_find q cache path ≡ cache_find p cache path
  unfolding cache_find cache_covers
  cache_find_same [] path = refl
  cache_find_same (e ∷ cache) path =
      rw (ends_component_same e.path path, cache_find_same cache path) refl

  -- What `detect_root` gives where an entry answers.
  answer_of : VcsEntry → Option Bytes
  answer_of entry = if is_vcs entry.type then some entry.vcs_root else none

  detect_root_hit :
      (cache : VcsCache) (path : Bytes) (entry : VcsEntry)
      → cache_find p cache path ≡ some entry
      → sw_vcs_detect_root q cache path ≡ some (answer_of entry, cache)
  unfolding sw_vcs_detect_root detect_root answer_of
  detect_root_hit cache path entry hit =
      rw (cache_find_same cache path, detect_root, sw_vcs_detect_root) (rw (hit, detect_root) refl)

  remember-answer :
      (cache : VcsCache) (path : Bytes) (found : Option (VcsType × Bytes)) (r : Option Bytes)
      (cache' : VcsCache)
      → length cache < 32
      → length path < p.path_max
      → cache_find p cache path ≡ none
      → ((type : VcsType) (root : Bytes) → found ≡ some (type, root) → is_vcs type ≡ true)
      → remember p cache path found ≡ (r, cache')
      → (entry : VcsEntry) × (cache_find p cache' path ≡ some entry) × (answer_of entry ≡ r)
  unfolding remember answer_of
  remember-answer cache path none r cache' room fits miss versioned h =
      let e : VcsEntry = record {
        path = snprintf p.path_max path;
        vcs_root = [];
        type = VcsType.no_vcs;
      } in
      let grown : cache ++ e ∷ [] ≡ cache' = ground arith in
      (
        e,
        rw (← grown) (cache_find-append p cache e path miss (snprintf_fits p.path_max path fits)),
        ground arith,
      )
  remember-answer cache path (some (type, root)) r cache' room fits miss versioned h =
      let e : VcsEntry = record {
        path = snprintf p.path_max path;
        vcs_root = snprintf p.path_max root;
        type = type;
      } in
      let grown : cache ++ e ∷ [] ≡ cache' = ground arith in
      (
        e,
        rw (← grown) (cache_find-append p cache e path miss (snprintf_fits p.path_max path fits)),
        ground (arith, versioned type root refl, last_root-append cache e),
      )

  -- Once a search for a path that fits has been answered, with room in the cache before it, the same
  -- search made at once again, with the cache that the first left, is answered alike, whatever has become
  -- of the file system, and the cache stays as it is.
  pub sw_vcs_detect_root_again :
      (cache : VcsCache) (path : Bytes) (r : Option Bytes) (cache' : VcsCache)
      → length cache < 32
      → length path < p.path_max
      → sw_vcs_detect_root p cache path ≡ some (r, cache')
      → sw_vcs_detect_root q cache' path ≡ some (r, cache')
  unfolding sw_vcs_detect_root detect_root answer_of
  sw_vcs_detect_root_again cache path r cache' room fits h =
      elim (Option-cases (cache_find p cache path)) [
        | inr (entry, hit) ↦
            let same : cache ≡ cache' = ground arith in
            let answer : answer_of entry ≡ r = ground arith in
            rw (← same) (detect_root_hit cache path entry hit ∙ rw answer refl)
        | inl miss ↦
            let (found, done, out) =
              walk_up-Ends p (length path + 1) (snprintf p.path_max path)
                (rw (snprintf_fits p.path_max path fits) (omega arith)) in
            let (entry, hit, answer) =
              remember-answer cache path found r cache' room fits miss
                (λ type root e. walk_up-versioned p _ found type root out e) (ground arith) in
            detect_root_hit cache' path entry hit ∙ rw answer refl
      ]
