-- ===== src/Pattern/Compile.antt =====
-- core/pattern.c: `sw_patterns_compile`, `sw_patterns_free` and `sw_pattern_matched`. The regex engine
-- of src/regex is a library: its `re_compile` and `re_matchp` are parameters.
use swatcher.Base.{
  ℕ, Bool, true, false, ◌&&◌, Option, none, some, List, [], ◌∷◌, ◌++◌, Bytes, any, is_some,
  if◌then◌else◌,
}
use swatcher.Pattern.Glob.{is_glob_pattern, sw_glob_to_regex}

-- `re.h`: a compiled regex, or null; the index of the first match, or a negative number.
pub record Regex : Type 1 where
  pub Re : Type 0
  pub re_compile : Bytes → Option Re
  pub re_matchp : Re → Bytes → Option ℕ

module _ (r : Regex) where
  open r use {Re, re_compile, re_matchp}

  -- `sw_compiled_patterns`: the array, whose length is `count`
  abbrev pub CompiledPatterns : Type 0
  CompiledPatterns = List Re

  -- The body of the compilation loop for one source, with its buffer of 512 bytes.
  unfoldable pub compile_one : Bytes → Option Re
  compile_one source =
      if is_glob_pattern source
      then elim (sw_glob_to_regex (some source) true 512) [
        | some regex_buf ↦ re_compile regex_buf
        | none ↦ re_compile source
      ]
      else re_compile source

  -- The loop: what is compiled so far; at a failure, the regexes that `re_free` is called on.
  unfoldable pub compile_loop : List Bytes → CompiledPatterns → Option CompiledPatterns × List Re
  compile_loop [] patterns = (some patterns, [])
  compile_loop (source ∷ rest) patterns = elim (compile_one source) [
    | none ↦ (none, patterns)
    | some re ↦ compile_loop rest (patterns ++ re ∷ [])
  ]

  -- The two flags say whether `sw_malloc` gives the struct and the array. The second result lists the
  -- regexes freed on the way.
  unfoldable pub sw_patterns_compile :
      Bool → Bool → Option (List Bytes) → Option CompiledPatterns × List Re
  unfolding compile_loop
  sw_patterns_compile got_cp got_patterns none = (none, [])
  sw_patterns_compile got_cp got_patterns (some []) = (none, [])
  sw_patterns_compile got_cp got_patterns (some (source ∷ rest)) =
      if got_cp && got_patterns then compile_loop (source ∷ rest) [] else (none, [])

  -- The regexes that `sw_patterns_free` frees.
  unfoldable pub sw_patterns_free : Option CompiledPatterns → List Re
  sw_patterns_free none = []
  sw_patterns_free (some patterns) = patterns

  unfoldable pub sw_pattern_matched : Option CompiledPatterns → Option Bytes → Bool
  sw_pattern_matched none string = false
  sw_pattern_matched (some patterns) none = false
  sw_pattern_matched (some patterns) (some string) =
      any (λ re. is_some (re_matchp re string)) patterns
