-- ===== src/Pattern/Escape.antt =====
-- core/pattern.c: which patterns `is_glob_pattern` takes for globs.
use swatcher.Base.{
  ℕ, ◌≡◌, refl, Bool, true, false, ◌||◌, ◌&&◌, not, [], ◌∷◌, Bytes, any, ◌==◌, if◌then◌else◌, arith,
}
use swatcher.Pattern.Glob.{backslash, is_regex_char, is_glob_char, glob_scan, is_glob_pattern}

-- The bytes of a pattern that no backslash stands before, the backslashes gone.
abbrev pub unescaped : Bytes → Bytes
unescaped [] = []
unescaped (c ∷ []) = if c == backslash then [] else c ∷ []
unescaped (c ∷ d ∷ s) =
    let skip = unescaped s in
    let keep = c ∷ unescaped (d ∷ s) in if c == backslash then skip else keep

backslash_plain : (c : ℕ) → is_regex_char c ≡ true → c == backslash ≡ false
unfolding is_regex_char
backslash_plain c = ground arith

glob_scan_lem :
    (m : Bool) (p : Bytes)
    → glob_scan m p
      ≡ (not (any is_regex_char (unescaped p)) && (m || any is_glob_char (unescaped p)))
unfolding glob_scan
glob_scan_lem true [] = refl
glob_scan_lem false [] = refl
glob_scan_lem m (c ∷ []) = ground (arith, backslash_plain c)
glob_scan_lem m (c ∷ d ∷ s) =
    ground
      (arith, backslash_plain c, glob_scan_lem m s, glob_scan_lem (m || is_glob_char c) (d ∷ s))

-- A pattern is taken for a glob exactly if, escaped bytes left aside, it has none of `^`, `$`, `+`, `[`
-- and at least one of `*`, `?`.
pub is_glob_pattern_lem :
    (p : Bytes)
    → is_glob_pattern p ≡ (not (any is_regex_char (unescaped p)) && any is_glob_char (unescaped p))
unfolding is_glob_pattern
is_glob_pattern_lem p = glob_scan_lem false p
