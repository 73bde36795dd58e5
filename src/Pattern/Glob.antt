-- ===== src/Pattern/Glob.antt =====
-- core/pattern.c: `is_glob_pattern` and `sw_glob_to_regex`.
use swatcher.Base.{
  ℕ, ◌+◌, Bool, false, ◌||◌, not, Option, none, some, [], ◌∷◌, ◌++◌, Bytes, length, ltb, leb, ◌==◌,
  if◌then◌else◌,
}

abbrev pub backslash : ℕ
backslash = 92

-- The anchors and classes that mark a regex.
unfoldable pub is_regex_char : ℕ → Bool
is_regex_char c = c == b'^' || c == b'$' || c == b'+' || c == b'['

unfoldable pub is_glob_char : ℕ → Bool
is_glob_char c = c == b'*' || c == b'?'

-- The loop of `is_glob_pattern`; the flag is `has_glob_meta`.
unfoldable pub glob_scan : Bool → Bytes → Bool
glob_scan has_glob_meta [] = has_glob_meta
glob_scan has_glob_meta (c ∷ []) =
    if is_regex_char c
    then false
    else if c == backslash
    then has_glob_meta
    else (has_glob_meta || is_glob_char c)
glob_scan has_glob_meta (c ∷ d ∷ s) =
    let skip = glob_scan has_glob_meta s in
    let next = glob_scan (has_glob_meta || is_glob_char c) (d ∷ s) in
    if is_regex_char c then false else if c == backslash then skip else next

unfoldable pub is_glob_pattern : Bytes → Bool
unfolding glob_scan is_regex_char is_glob_char
is_glob_pattern pattern = glob_scan false pattern

-- The `switch`: what one byte of a glob writes to the buffer.
unfoldable pub glob_char : ℕ → Bytes
glob_char c =
    if c == b'*'
    then b'.' ∷ b'*' ∷ []
    else if c == b'?'
    then b'.' ∷ []
    else if c == b'.'
    then backslash ∷ b'.' ∷ []
    else if c == backslash
    then backslash ∷ backslash ∷ []
    else c ∷ []

-- The loop of `sw_glob_to_regex`: `out` is what stands in the buffer below `pos`.
unfoldable pub glob_loop : ℕ → Bytes → ℕ → Bytes → Option (ℕ × Bytes)
unfolding glob_char
glob_loop buf_size [] pos out = some (pos, out)
glob_loop buf_size (c ∷ glob) pos out =
    if leb buf_size (pos + 3)
    then none
    else glob_loop buf_size glob (pos + length (glob_char c)) (out ++ glob_char c)

-- The string in the buffer on success. A null glob is `none`; `has_buf` says that `regex_buf` is not
-- null.
unfoldable pub sw_glob_to_regex : Option Bytes → Bool → ℕ → Option Bytes
unfolding glob_loop
sw_glob_to_regex none has_buf buf_size = none
sw_glob_to_regex (some glob) has_buf buf_size =
    if not has_buf || ltb buf_size 4 then none else elim (glob_loop buf_size glob 1 (b'^' ∷ [])) [
      | none ↦ none
      | some (pos, out) ↦ if leb buf_size (pos + 2) then none else some (out ++ b'$' ∷ [])
    ]
