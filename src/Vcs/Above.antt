-- ===== src/Vcs/Above.antt =====
-- core/vcs.c: what `sw_vcs_detect_root` returns, said of the directories above a path.
use swatcher.Base.{
  ℕ, ◌≤◌, ◌<◌, ◌≡◌, ◌⊎◌, refl, sym, ap, ◌∙◌, true, false, Option, none, some, [], ◌∷◌, ◌++◌, Bytes,
  length, length-append, inl, inr, arith, Option-cases, append_assoc, has_byte,
}
use mathlib.Core.Path.{subst}
use swatcher.Platform.{Platform, strrchr_at}
use swatcher.Vcs.Detect.{VcsCache, is_vcs, check_vcs_dir, cache_find, sw_vcs_detect_root}
use swatcher.Vcs.Search.{Nearest, Unversioned, Answers, sw_vcs_detect_root_lem}

-- The directory is the path, or is followed in it by a separator.
abbrev pub IsAbove : ℕ → Bytes → Bytes → Type 0
IsAbove sep dir path = (path ≡ dir) ⊎ ((rest : Bytes) × (path ≡ dir ++ sep ∷ rest))

length-IsAbove : (sep : ℕ) (dir path : Bytes) → IsAbove sep dir path → length dir ≤ length path
length-IsAbove sep dir path (inl same) = omega (arith, ap length same)
length-IsAbove sep dir path (inr (rest, at)) =
    omega (arith, ap length at, length-append dir (sep ∷ rest))

IsAbove-trans :
    (sep : ℕ) (dir mid rest : Bytes) → IsAbove sep dir mid → IsAbove sep dir (mid ++ sep ∷ rest)
IsAbove-trans sep dir mid rest (inl same) = inr (rest, ap (λ m. m ++ sep ∷ rest) same)
IsAbove-trans sep dir mid rest (inr (inner, at)) = inr (
  inner ++ sep ∷ rest,
  ap (λ m. m ++ sep ∷ rest) at ∙ append_assoc dir (sep ∷ inner) (sep ∷ rest),
)

has_byte-middle : (c : ℕ) (s t : Bytes) → has_byte c (s ++ c ∷ t) ≡ true
unfolding has_byte
has_byte-middle c [] t = ground arith
has_byte-middle c (x ∷ s) t = ground (arith, has_byte-middle c s t)

strrchr_at-none : (c : ℕ) (s : Bytes) → strrchr_at c s ≡ none → has_byte c s ≡ false
unfolding strrchr_at has_byte
strrchr_at-none c [] h = refl
strrchr_at-none c (x ∷ s) h = ground (arith, strrchr_at-none c s)

-- The last separator stands where the path is cut.
strrchr_at-some :
    (c : ℕ) (s before after : Bytes)
    → strrchr_at c s ≡ some (before, after)
    → (s ≡ before ++ c ∷ after) × (has_byte c after ≡ false)
unfolding strrchr_at
strrchr_at-some c [] before after h = cc
strrchr_at-some c (x ∷ s) before after h = elim (Option-cases (strrchr_at c s)) [
  | inl absent ↦ (
    ground (arith, absent, h),
    (let here : s ≡ after = ground (arith, absent, h) in
        ap (has_byte c) (sym here) ∙ strrchr_at-none c s absent),
  )
  | inr ((b, a), found) ↦
      let (split, last) = strrchr_at-some c s b a found in
      let front : x ∷ b ≡ before = ground (arith, found, h) in
      let back : a ≡ after = ground (arith, found, h) in
      (
        ap (◌∷◌ x) split ∙ ap (λ l. l ++ c ∷ a) front ∙ ap (λ l. before ++ c ∷ l) back,
        ap (has_byte c) (sym back) ∙ last,
      )
]

-- What is followed by a separator in a path stands above the last one.
IsAbove-last :
    (sep : ℕ) (before after dir rest : Bytes)
    → has_byte sep after ≡ false
    → before ++ sep ∷ after ≡ dir ++ sep ∷ rest
    → IsAbove sep dir before
IsAbove-last sep [] after [] rest last at = inl refl
IsAbove-last sep [] after (x ∷ dir) rest last at =
    let there : after ≡ dir ++ sep ∷ rest = ground (arith, at) in
    absurd (cc (ap (has_byte sep) there, has_byte-middle sep dir rest, last))
IsAbove-last sep (y ∷ before) after [] rest last at =
    inr (before, ap (λ c. c ∷ before) (ground (arith, at)))
IsAbove-last sep (y ∷ before) after (x ∷ dir) rest last at =
    let head : y ≡ x = ground (arith, at) in
    let tail : before ++ sep ∷ after ≡ dir ++ sep ∷ rest = ground (arith, at) in
    elim (IsAbove-last sep before after dir rest last tail) [
      | inl same ↦ inl (ap (◌∷◌ y) same ∙ ap (λ c. c ∷ dir) head)
      | inr (inner, split) ↦ inr (inner, ap (◌∷◌ y) split ∙ ap (λ c. c ∷ (dir ++ sep ∷ inner)) head)
    ]

module _ (p : Platform) where
  -- No directory above the path is under version control, or the root is, and none between is.
  abbrev pub IsNearest : Bytes → Option Bytes → Type 0
  IsNearest path none =
      (c : ℕ) (dir : Bytes)
      → IsAbove p.separator (c ∷ dir) path
      → is_vcs (check_vcs_dir p (c ∷ dir)) ≡ false
  IsNearest path (some root) =
      (is_vcs (check_vcs_dir p root) ≡ true)
      × IsAbove p.separator root path
      × ((c : ℕ) (dir : Bytes)
          → IsAbove p.separator (c ∷ dir) path
          → length root < length (c ∷ dir)
          → is_vcs (check_vcs_dir p (c ∷ dir)) ≡ false)

  pub Nearest-IsNearest : (root path : Bytes) → Nearest p root path → IsNearest path (some root)
  Nearest-IsNearest root path (Nearest.here versioned same) = (
    rw same versioned,
    inl (sym same),
    λ c dir above longer.
        absurd
          (omega (arith, length-IsAbove p.separator (c ∷ dir) path above, ap length same, longer)),
  )
  Nearest-IsNearest root path (Nearest.up c before after plain cut near) =
      let (versioned, above, between) = Nearest-IsNearest root (c ∷ before) near in
      let (split, last) = strrchr_at-some p.separator path (c ∷ before) after cut in
      (
        versioned,
        subst (IsAbove p.separator root) (sym split)
            (IsAbove-trans p.separator root (c ∷ before) after above),
        λ x dir above' longer. elim above' [
          | inl same ↦ ap (λ d. is_vcs (check_vcs_dir p d)) (sym same) ∙ plain
          | inr (rest, at) ↦
              between x dir
                (IsAbove-last p.separator (c ∷ before) after (x ∷ dir) rest last (sym split ∙ at))
                longer
        ],
      )

  Unversioned-IsNearest : (path : Bytes) → Unversioned p path → IsNearest path none
  Unversioned-IsNearest path (Unversioned.top plain whole) x dir (inl same) =
      ap (λ d. is_vcs (check_vcs_dir p d)) (sym same) ∙ plain
  Unversioned-IsNearest path (Unversioned.top plain whole) x dir (inr (rest, at)) =
      elim (Option-cases (strrchr_at p.separator path)) [
        | inl absent ↦ absurd (
            cc (
              strrchr_at-none p.separator path absent,
              ap (has_byte p.separator) at,
              has_byte-middle p.separator (x ∷ dir) rest,
            ))
        | inr ((before, after), cut) ↦
            let (split, last) = strrchr_at-some p.separator path before after cut in
            absurd (
              no_cut before after cut
                (IsAbove-last p.separator before after (x ∷ dir) rest last (sym split ∙ at)))
      ]
    where
      no_cut :
          (before after : Bytes)
          → strrchr_at p.separator path ≡ some (before, after)
          → IsAbove p.separator (x ∷ dir) before
          → ⊥
      no_cut [] after cut (inl same) = cc
      no_cut [] after cut (inr (inner, split)) = cc
      no_cut (c ∷ before) after cut above = whole c before after cut
  Unversioned-IsNearest path (Unversioned.up c before after plain cut none_up) x dir above =
      let (split, last) = strrchr_at-some p.separator path (c ∷ before) after cut in
      elim above [
        | inl same ↦ ap (λ d. is_vcs (check_vcs_dir p d)) (sym same) ∙ plain
        | inr (rest, at) ↦
            Unversioned-IsNearest (c ∷ before) none_up x dir
              (IsAbove-last p.separator (c ∷ before) after (x ∷ dir) rest last (sym split ∙ at))
      ]

  pub Answers-IsNearest :
      (path : Bytes) (root : Option Bytes) → Answers p path root → IsNearest path root
  Answers-IsNearest path none answer = Unversioned-IsNearest path answer
  Answers-IsNearest path (some root) answer = Nearest-IsNearest root path answer

  -- A search that no cached entry answers, for a path that fits in the buffer and with room in the
  -- cache, ends. It returns a root that is under version control, the path or a directory above it, with
  -- no directory between the two under version control; or null, and then neither the path nor a
  -- directory above it is. The file system's root, which has no name before its separator, is not looked
  -- at.
  pub sw_vcs_detect_root-IsNearest :
      (cache : VcsCache) (path : Bytes)
      → cache_find p cache path ≡ none
      → length cache < 32
      → length path < p.path_max
      → (root : Option Bytes) × (cache' : VcsCache) × (sw_vcs_detect_root p cache path
          ≡ some (root, cache'))
        × IsNearest path root
  sw_vcs_detect_root-IsNearest cache path miss room fits =
      let (root, cache', done, answer) = sw_vcs_detect_root_lem p cache path miss room fits in
      (root, cache', done, Answers-IsNearest path root answer)
