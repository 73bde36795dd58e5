-- ===== src/Vcs/Pause.antt =====
-- core/vcs.c: when events are paused, said of the directories above a path.
use mathlib.Core.Path.{subst}
use swatcher.Base.{
  ℕ, ◌≤◌, ◌<◌, ◌≡◌, ◌↔◌, refl, sym, ap, ◌∙◌, Bool, true, Option, none, some, [], ◌∷◌, ◌++◌, Bytes,
  length, ltb, ltb→le, inl, inr, arith, Bool-cases, append-nil,
}
use swatcher.Platform.{Platform}
use swatcher.Types.{Config}
use swatcher.Vcs.Detect.{VcsCache, cache_find, sw_vcs_is_locked, sw_vcs_should_pause}
use swatcher.Vcs.Search.{Nearest, Answers, sw_vcs_detect_root_lem}
use swatcher.Vcs.Above.{IsAbove, IsNearest, Nearest-IsNearest, Answers-IsNearest}
use swatcher.Vcs.Full.{sw_vcs_should_pause_iff}

same_prefix : (a b s t : Bytes) → a ++ s ≡ b ++ t → length a ≡ length b → a ≡ b
same_prefix [] [] s t at long = refl
same_prefix [] (y ∷ b) s t at long = absurd (omega (arith, long))
same_prefix (x ∷ a) [] s t at long = absurd (omega (arith, long))
same_prefix (x ∷ a) (y ∷ b) s t at long =
    let head : x ≡ y = ground (arith, at) in
    let tail : a ++ s ≡ b ++ t = ground (arith, at) in
    let rest : a ≡ b = same_prefix a b s t tail (omega (arith, long)) in
    ap (λ c. c ∷ a) head ∙ ap (◌∷◌ y) rest

IsAbove-prefix :
    (sep : ℕ) (dir path : Bytes) → IsAbove sep dir path → (s : Bytes) × (path ≡ dir ++ s)
IsAbove-prefix sep dir path (inl same) = ([], same ∙ sym (append-nil dir))
IsAbove-prefix sep dir path (inr (rest, at)) = (sep ∷ rest, at)

module _ (p : Platform) where
  -- A nearest root is no shorter than another.
  no_shorter :
      (path : Bytes) (c d : ℕ) (a b : Bytes)
      → IsNearest p path (some (c ∷ a))
      → IsNearest p path (some (d ∷ b))
      → length (d ∷ b) ≤ length (c ∷ a)
  no_shorter path c d a b (versioned, above, between) (versioned', above', between') =
      elim (Bool-cases (ltb (length (c ∷ a)) (length (d ∷ b)))) [
        | inl shorter ↦ absurd (cc (between d b above' (ground (arith, shorter)), versioned'))
        | inr fine ↦ ltb→le (length (c ∷ a)) (length (d ∷ b)) fine
      ]

  IsNearest-unique :
      (path : Bytes) (c d : ℕ) (a b : Bytes)
      → IsNearest p path (some (c ∷ a))
      → IsNearest p path (some (d ∷ b))
      → c ∷ a ≡ d ∷ b
  IsNearest-unique path c d a b first second =
      let (s, at) = IsAbove-prefix p.separator (c ∷ a) path first.1 in
      let (t, at') = IsAbove-prefix p.separator (d ∷ b) path second.1 in
      same_prefix (c ∷ a) (d ∷ b) s t (sym at ∙ at')
        (omega (arith, no_shorter path c d a b first second, no_shorter path d c b a second first))

  -- The root of a path that is not empty is not empty.
  Nearest-named :
      (root path : Bytes)
      → Nearest p root path
      → 0 < length path
      → (c : ℕ) × (dir : Bytes) × (root ≡ c ∷ dir)
  Nearest-named root [] near long = absurd (omega (arith, long))
  Nearest-named root (x ∷ path) (Nearest.here versioned same) long = (x, path, same)
  Nearest-named root (x ∷ path) (Nearest.up c before after plain cut near) long =
      Nearest-named root (c ∷ before) near (omega arith)

  Answers-Nearest :
      (path : Bytes) (found : Option Bytes) (c : ℕ) (dir : Bytes)
      → 0 < length path
      → Answers p path found
      → IsNearest p path (some (c ∷ dir))
      → Nearest p (c ∷ dir) path
  Answers-Nearest path none c dir long answer (versioned, above, between) =
      absurd (cc (Answers-IsNearest p path none answer c dir above, versioned))
  Answers-Nearest path (some root) c dir long answer nearest =
      let (d, rest, named) = Nearest-named root path answer long in
      let nearest' : IsNearest p path (some (d ∷ rest)) =
        subst (λ r. IsNearest p path (some r)) named (Nearest-IsNearest p root path answer) in
      subst (λ r. Nearest p r path) (named ∙ IsNearest-unique path d c rest dir nearest' nearest)
        answer

  -- For a path that is not empty and fits, that no entry covers, and with room in the cache, events are
  -- paused exactly if the configuration asks for it and the nearest directory under version control, the
  -- path or one above it, is locked. The file system's root, whose name before its separator is empty, is
  -- none of these.
  pub sw_vcs_should_pause-IsNearest :
      (config : Config) (cache : VcsCache) (path : Bytes)
      → cache_find p cache path ≡ none
      → length cache < 32
      → length path < p.path_max
      → 0 < length path
      → (paused : Bool) × (cache' : VcsCache) × (sw_vcs_should_pause p (some config) cache path
          ≡ some (paused, cache'))
        × ((paused ≡ true) ↔ (
            (config.vcs_aware ≡ true)
            × ((c : ℕ) × (dir : Bytes) × IsNearest p path (some (c ∷ dir))
                × (sw_vcs_is_locked p (some (c ∷ dir)) ≡ true))))
  sw_vcs_should_pause-IsNearest config cache path miss room fits long =
      let (paused, cache', done, (forth, back)) =
        sw_vcs_should_pause_iff p config cache path miss room fits in
      let (found, _, _, answer) = sw_vcs_detect_root_lem p cache path miss room fits in
      (
        paused,
        cache',
        done,
        (
          λ h.
              let (asked, (root, near, locked)) = forth h in
              let (c, dir, named) = Nearest-named root path near long in
              (
                asked,
                (
                  c,
                  dir,
                  subst (λ r. IsNearest p path (some r)) named (Nearest-IsNearest p root path near),
                  subst (λ r. sw_vcs_is_locked p (some r) ≡ true) named locked,
                ),
              ),
          λ h.
              let (asked, (c, dir, nearest, locked)) = h in
              back (asked, (c ∷ dir, Answers-Nearest path found c dir long answer nearest, locked)),
        ),
      )
