-- ===== src/Vcs/Search.antt =====
-- core/vcs.c: the loop of `sw_vcs_detect_root` ends, and finds the nearest directory under version
-- control.
use swatcher.Base.{
  ℕ, zero, suc, ◌+◌, ◌≤◌, ◌<◌, ◌≡◌, refl, sym, ◌∙◌, true, false, Option, none, some, [], ◌∷◌, ◌++◌,
  Bytes, length, ltb, inl, inr, arith, Option-cases, Bool-cases,
}
use swatcher.Platform.{Platform, strrchr_at, snprintf_fits}
use swatcher.Vcs.Detect.{
  VcsType, VcsEntry, VcsCache, is_vcs, last_root, check_vcs_dir, cache_find, walk_up, remember,
  detect_root, sw_vcs_detect_root,
}

-- `root` is the first directory under version control on the way up from a directory.
pub data Nearest (p : Platform) (root : Bytes) : Bytes → Type 0 where
  here : {dir : Bytes} → is_vcs (check_vcs_dir p dir) ≡ true → root ≡ dir → Nearest p root dir
  up :
      {dir : Bytes} (c : ℕ) (before after : Bytes)
      → is_vcs (check_vcs_dir p dir) ≡ false
      → strrchr_at p.separator dir ≡ some (c ∷ before, after)
      → Nearest p root (c ∷ before)
      → Nearest p root dir

-- There is none.
pub data Unversioned (p : Platform) : Bytes → Type 0 where
  top :
      {dir : Bytes}
      → is_vcs (check_vcs_dir p dir) ≡ false
      → ((c : ℕ) (before after : Bytes) → strrchr_at p.separator dir ≡ some (c ∷ before, after) → ⊥)
      → Unversioned p dir
  up :
      {dir : Bytes} (c : ℕ) (before after : Bytes)
      → is_vcs (check_vcs_dir p dir) ≡ false
      → strrchr_at p.separator dir ≡ some (c ∷ before, after)
      → Unversioned p (c ∷ before)
      → Unversioned p dir

length-strrchr_at :
    (c : ℕ) (s before after : Bytes)
    → strrchr_at c s ≡ some (before, after)
    → length before < length s
unfolding strrchr_at
length-strrchr_at c [] before after h = absurd (ground arith)
length-strrchr_at c (x ∷ s) before after h = elim (Option-cases (strrchr_at c s)) [
  | inl e ↦ ground arith
  | inr ((b, a), e) ↦ ground (arith, length-strrchr_at c s b a e)
]

pub last_root-append :
    (cache : VcsCache) (e : VcsEntry) → last_root (cache ++ e ∷ []) ≡ some e.vcs_root
last_root-append [] e = refl
last_root-append (x ∷ []) e = refl
last_root-append (x ∷ y ∷ cache) e = last_root-append (y ∷ cache) e

module _ (p : Platform) where
  -- What the loop may end with.
  abbrev pub Outcome : Bytes → Option (VcsType × Bytes) → Type 0
  Outcome dir none = Unversioned p dir
  Outcome dir (some (type, root)) =
      Nearest p root dir × (is_vcs type ≡ true) × (length root ≤ length dir)

  -- The loop ends with what it should from a directory.
  abbrev Ends : ℕ → Bytes → Type 0
  Ends fuel dir =
      (found : Option (VcsType × Bytes)) × (walk_up p fuel dir ≡ some found) × Outcome dir found

  Outcome-up :
      (dir : Bytes) (c : ℕ) (before after : Bytes) (found : Option (VcsType × Bytes))
      → is_vcs (check_vcs_dir p dir) ≡ false
      → strrchr_at p.separator dir ≡ some (c ∷ before, after)
      → Outcome (c ∷ before) found
      → Outcome dir found
  Outcome-up dir c before after none plain e u = Unversioned.up c before after plain e u
  Outcome-up dir c before after (some (type, root)) plain e (near, versioned, bound) = (
    Nearest.up c before after plain e near,
    versioned,
    omega (arith, length-strrchr_at p.separator dir (c ∷ before) after e),
  )

  climb :
      (fuel : ℕ) (dir : Bytes) (cut : Option (Bytes × Bytes))
      → ((above : Bytes) → length above < length dir → Ends fuel above)
      → strrchr_at p.separator dir ≡ cut
      → check_vcs_dir p dir ≡ VcsType.no_vcs
      → Ends (suc fuel) dir
  unfolding walk_up
  climb fuel dir none ih e plain =
      (none, rw (plain, e, walk_up) refl, Unversioned.top (rw plain refl) (λ c b a e'. cc (e, e')))
  climb fuel dir (some ([], after)) ih e plain =
      (none, rw (plain, e, walk_up) refl, Unversioned.top (rw plain refl) (λ c b a e'. cc (e, e')))
  climb fuel dir (some (c ∷ before, after)) ih e plain =
      let (found, done, out) =
        ih (c ∷ before) (length-strrchr_at p.separator dir (c ∷ before) after e) in
      (
        found,
        rw (plain, e, walk_up) done,
        Outcome-up dir c before after found (rw plain refl) e out,
      )

  found_here :
      (fuel : ℕ) (dir : Bytes) (type : VcsType)
      → ((above : Bytes) → length above < length dir → Ends fuel above)
      → check_vcs_dir p dir ≡ type
      → Ends (suc fuel) dir
  unfolding walk_up
  found_here fuel dir VcsType.no_vcs ih e = climb fuel dir (strrchr_at p.separator dir) ih refl e
  found_here fuel dir VcsType.git ih e = (
    some (VcsType.git, dir),
    rw (e, walk_up) refl,
    (Nearest.here (rw e refl) refl, refl, omega arith),
  )
  found_here fuel dir VcsType.hg ih e = (
    some (VcsType.hg, dir),
    rw (e, walk_up) refl,
    (Nearest.here (rw e refl) refl, refl, omega arith),
  )
  found_here fuel dir VcsType.svn ih e = (
    some (VcsType.svn, dir),
    rw (e, walk_up) refl,
    (Nearest.here (rw e refl) refl, refl, omega arith),
  )

  pub walk_up-Ends : (fuel : ℕ) (dir : Bytes) → length dir < fuel → Ends fuel dir
  walk_up-Ends zero dir h = absurd (omega arith)
  walk_up-Ends (suc fuel) dir h =
      found_here fuel dir (check_vcs_dir p dir)
        (λ above shorter. walk_up-Ends fuel above (omega arith)) refl

  -- A find is of a directory under version control.
  pub walk_up-versioned :
      (dir : Bytes) (found : Option (VcsType × Bytes)) (type : VcsType) (root : Bytes)
      → Outcome dir found
      → found ≡ some (type, root)
      → is_vcs type ≡ true
  walk_up-versioned dir none type root out e = cc
  walk_up-versioned dir (some (type', root')) type root out e = ground (arith, out.1)

  pub Nearest-not_Unversioned : (root dir : Bytes) → Nearest p root dir → ¬ Unversioned p dir
  Nearest-not_Unversioned root dir (Nearest.here v e) (Unversioned.top u h) = cc
  Nearest-not_Unversioned root dir (Nearest.here v e) (Unversioned.up c b a u h t) = cc
  Nearest-not_Unversioned root dir (Nearest.up c b a v e n) (Unversioned.top u h) = h c b a e
  Nearest-not_Unversioned root dir (Nearest.up c b a v e n) (Unversioned.up c' b' a' u e' t) =
      Nearest-not_Unversioned root (c ∷ b) n
        (let same : c' ∷ b' ≡ c ∷ b = ground arith in rw same at t)

  pub Nearest-unique :
      (root root' dir : Bytes) → Nearest p root dir → Nearest p root' dir → root ≡ root'
  Nearest-unique root root' dir (Nearest.here v e) (Nearest.here v' e') = e ∙ sym e'
  Nearest-unique root root' dir (Nearest.here v e) (Nearest.up c b a u h t) = cc
  Nearest-unique root root' dir (Nearest.up c b a u h t) (Nearest.here v e) = cc
  Nearest-unique root root' dir (Nearest.up c b a v e n) (Nearest.up c' b' a' u e' t) =
      Nearest-unique root root' (c ∷ b) n
        (let same : c' ∷ b' ≡ c ∷ b = ground arith in rw same at t)

  -- What a search promises about a path: its nearest root, or that there is none.
  abbrev pub Answers : Bytes → Option Bytes → Type 0
  Answers path none = Unversioned p path
  Answers path (some root) = Nearest p root path

  remember-Answers :
      (cache : VcsCache) (path : Bytes) (found : Option (VcsType × Bytes))
      → length cache < 32
      → length path < p.path_max
      → Outcome path found
      → Answers path (remember p cache path found).0
  unfolding remember
  remember-Answers cache path none room fits out = elim (Bool-cases (ltb (length cache) 32)) [
    | inl l ↦ rw l out
    | inr l ↦ rw l out
  ]
  remember-Answers cache path (some (type, root)) room fits (near, versioned, bound) =
      elim (Bool-cases (ltb (length cache) 32)) [
        | inl l ↦ rw (l, snprintf_fits p.path_max root (omega arith), last_root-append) near
        | inr l ↦ absurd (ground arith)
      ]

  -- A search that no cached entry answers, for a path that fits in the buffer and with room in the
  -- cache, ends, and returns the nearest directory upwards that is under version control, or null if
  -- there is none on the way, which stops below the file system's root.
  pub sw_vcs_detect_root_lem :
      (cache : VcsCache) (path : Bytes)
      → cache_find p cache path ≡ none
      → length cache < 32
      → length path < p.path_max
      → (root : Option Bytes) × (cache' : VcsCache) × (sw_vcs_detect_root p cache path
          ≡ some (root, cache'))
        × Answers path root
  unfolding sw_vcs_detect_root
  sw_vcs_detect_root_lem cache path miss room fits =
      let (found, done, out) = walk_up-Ends (length path + 1) path (omega arith) in
      (
        (remember p cache path found).0,
        (remember p cache path found).1,
        rw (miss, detect_root, snprintf_fits p.path_max path fits, done) refl,
        remember-Answers cache path found room fits out,
      )
