-- ===== src/Pattern/Lists.antt =====
-- core/pattern.c: what is compiled, freed and matched.
use swatcher.Base.{
  ◌≡◌, refl, Bool, true, false, ◌||◌, ◌&&◌, none, some, List, [], ◌∷◌, ◌++◌, Bytes, any, is_some,
  if◌then◌else◌, arith, append-nil, append_assoc, inl, inr, Option-cases,
}
use swatcher.Pattern.Compile.{
  Regex, CompiledPatterns, compile_one, compile_loop, sw_patterns_compile, sw_pattern_matched,
}

module _ (r : Regex) where
  open r use {Re, re_matchp}

  -- The regexes that come to be before the first source that does not compile.
  abbrev pub acquired : List Bytes → List Re
  acquired [] = []
  acquired (s ∷ rest) = elim (compile_one r s) [ none ↦ [] | some re ↦ re ∷ acquired rest ]

  -- Every source compiles.
  abbrev pub all_compile : List Bytes → Bool
  all_compile [] = true
  all_compile (s ∷ rest) = is_some (compile_one r s) && all_compile rest

  compile_loop_lem :
      (sources : List Bytes) (done : List Re)
      → compile_loop r sources done ≡ (
          if all_compile sources
          then (some (done ++ acquired sources), [])
          else (none, done ++ acquired sources))
  unfolding compile_loop
  compile_loop_lem [] done = ground (arith, append-nil done)
  compile_loop_lem (s ∷ rest) done = elim (Option-cases (compile_one r s)) [
    | inl e ↦ ground (arith, append-nil done)
    | inr (re, e) ↦ ground (
      arith,
      compile_loop_lem rest (done ++ re ∷ []),
      append_assoc done (re ∷ []) (acquired rest),
    )
  ]

  -- With memory for both blocks a non-empty list compiles exactly if each of its patterns does, in
  -- their order; else every regex that was compiled is freed. So none leaks and none is freed that
  -- the result holds.
  pub sw_patterns_compile_lem :
      (s : Bytes) (rest : List Bytes)
      → sw_patterns_compile r true true (some (s ∷ rest)) ≡ (
          if all_compile (s ∷ rest)
          then (some (acquired (s ∷ rest)), [])
          else (none, acquired (s ∷ rest)))
  unfolding sw_patterns_compile
  sw_patterns_compile_lem s rest = compile_loop_lem (s ∷ rest) []

  -- The sources, one by one, against a name.
  abbrev pub some_source_matches : List Bytes → Bytes → Bool
  some_source_matches [] name = false
  some_source_matches (s ∷ rest) name =
      elim (compile_one r s) [ none ↦ false | some re ↦ is_some (re_matchp re name) ]
      || some_source_matches rest name

  any-acquired :
      (sources : List Bytes) (name : Bytes)
      → all_compile sources ≡ true
      → any (λ re. is_some (re_matchp re name)) (acquired sources)
        ≡ some_source_matches sources name
  any-acquired [] name h = refl
  any-acquired (s ∷ rest) name h = elim (Option-cases (compile_one r s)) [
    | inl e ↦ absurd (ground arith)
    | inr (re, e) ↦ ground (arith, any-acquired rest name)
  ]

  -- Matching a compiled list is matching the name by one of the sources.
  pub sw_pattern_matched-compile :
      (got_cp got_patterns : Bool) (sources : List Bytes) (cp : CompiledPatterns r) (name : Bytes)
      → (sw_patterns_compile r got_cp got_patterns (some sources)).0 ≡ some cp
      → sw_pattern_matched r (some cp) (some name) ≡ some_source_matches sources name
  unfolding sw_patterns_compile sw_pattern_matched
  sw_pattern_matched-compile a b [] cp name h = cc
  sw_pattern_matched-compile a b (s ∷ rest) cp name h =
      ground (arith, compile_loop_lem (s ∷ rest) [], any-acquired (s ∷ rest) name)
