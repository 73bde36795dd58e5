-- ===== src/Pattern/Tests.antt =====
-- Tests of the pattern lists, and the theorems at concrete inputs.
use swatcher.Base.{
  ◌+◌, ◌≡◌, refl, true, ◌&&◌, not, none, some, [], ◌∷◌, Bytes, codes, length, any, leb,
  if◌then◌else◌, str_eq,
}
use swatcher.Pattern.Glob.{is_regex_char, is_glob_char, is_glob_pattern, sw_glob_to_regex}
use swatcher.Pattern.Translate.{translate, sw_glob_to_regex_lem}
use swatcher.Pattern.Escape.{unescaped, is_glob_pattern_lem}
use swatcher.Pattern.Compile.{Regex, compile_one, sw_patterns_compile, sw_pattern_matched}
use swatcher.Pattern.Lists.{
  all_compile, acquired, some_source_matches, sw_patterns_compile_lem, sw_pattern_matched-compile,
}

-- The glob of the comment in pattern.h.
txt_files : sw_glob_to_regex (some (codes "*.txt")) true 512 ≡ some (codes "^.*\\.txt$")
unfolding sw_glob_to_regex
txt_files = refl

-- `\d*` passes for a glob.
digits_glob : is_glob_pattern (codes "\\d*") ≡ true
unfolding is_glob_pattern
digits_glob = refl

-- An escaped star comes out of the translation as an escaped backslash and a wildcard.
escaped_star : sw_glob_to_regex (some (codes "a\\*b*")) true 512 ≡ some (codes "^a\\\\.*b.*$")
unfolding sw_glob_to_regex
escaped_star = refl

-- An engine whose regexes are their sources, and match themselves.
abbrev literal : Regex
literal = record {
  Re = Bytes;
  re_compile = λ s. some s;
  re_matchp = λ re s. if str_eq re s then some 0 else none;
}

sw_glob_to_regex_lem_example : sw_glob_to_regex (some (codes "*.c")) true 16 ≡ (
    if leb (length (translate (codes "*.c")) + 2) 16 then some (translate (codes "*.c")) else none)
sw_glob_to_regex_lem_example = sw_glob_to_regex_lem (codes "*.c") 16

is_glob_pattern_lem_example : is_glob_pattern (codes "a\\+*") ≡ (
    not (any is_regex_char (unescaped (codes "a\\+*")))
    && any is_glob_char (unescaped (codes "a\\+*")))
is_glob_pattern_lem_example = is_glob_pattern_lem (codes "a\\+*")

sw_patterns_compile_lem_example :
    sw_patterns_compile literal true true (some (codes "*.c" ∷ codes "^a$" ∷ [])) ≡ (
      if all_compile literal (codes "*.c" ∷ codes "^a$" ∷ [])
      then (some (acquired literal (codes "*.c" ∷ codes "^a$" ∷ [])), [])
      else (none, acquired literal (codes "*.c" ∷ codes "^a$" ∷ [])))
sw_patterns_compile_lem_example = sw_patterns_compile_lem literal (codes "*.c") (codes "^a$" ∷ [])

sw_pattern_matched-compile_example :
    sw_pattern_matched literal (some (codes "abc" ∷ [])) (some (codes "abc"))
    ≡ some_source_matches literal (codes "abc" ∷ []) (codes "abc")
unfolding sw_patterns_compile compile_one is_glob_pattern
sw_pattern_matched-compile_example =
    sw_pattern_matched-compile literal true true (codes "abc" ∷ []) (codes "abc" ∷ []) (codes "abc")
      refl
