-- ===== src/Poll/InitialFuel.antt =====
-- backend/backend_poll.c: the first snapshot of a target ends.
use swatcher.Base.{
  ◌≡◌, refl, ap, ℕ, zero, suc, ◌+◌, ◌-◌, ◌≤◌, ◌<◌, ◌⊎◌, Bool, true, false, not, ◌&&◌, ◌||◌, Option,
  some, List, [], ◌∷◌, Bytes, length, All, arith, Option-cases, inl, inr, is_some, is_some-if,
}
use swatcher.Platform.{DirEntry, child_path, is_dot, length-child_path}
use swatcher.Pattern.Compile.{Regex}
use swatcher.Rescan.Fuel.{FitsPaths}
use swatcher.Poll.State.{FileSnapshot, ScanEnv, allowed, ignored}
use swatcher.Poll.Initial.{initial_entry, initial_entries, initial_scan_path, poll_initial_snapshot}

module _ {r : Regex} (env : ScanEnv r) where
  abbrev Walk : Type 0
  Walk = Bytes → List FileSnapshot → Option (List FileSnapshot)

  abbrev Ends : ℕ → Walk → Type 0
  Ends n scan =
      (dir : Bytes) (snapshots : List FileSnapshot)
      → length dir < env.platform.path_max
      → n < length dir
      → is_some (scan dir snapshots) ≡ true

  -- What FitsPaths says of an entry of a directory.
  abbrev Room : Bytes → DirEntry → Type 0
  Room dir e =
      (0 < length e.name)
      × ((is_dot e.name ≡ true) ⊎ (e.is_dir ≡ false) ⊎ (length dir < env.platform.path_max - 1))

  initial_entry-Ends :
      (scan : Walk) (dir : Bytes) (recursive : Bool) (e : DirEntry) (snapshots : List FileSnapshot)
      → length dir < env.platform.path_max
      → Room dir e
      → Ends (length dir) scan
      → is_some (initial_entry env scan dir recursive e snapshots) ≡ true
  unfolding initial_entry
  initial_entry-Ends scan dir recursive e snapshots short (named, room) ends =
      let child = child_path env.platform dir e.name in
      let (child_fits, longer) =
        length-child_path env.platform dir e.name (omega (arith, short)) named in
      is_some-if (is_dot e.name || ignored env e.name) (some snapshots) _ (λ skipped. refl)
        (λ seen.
          is_some-if (e.is_dir && recursive) (scan child snapshots) _
            (λ inner.
              let roomy : length dir < env.platform.path_max - 1 = (elim room [
                | inl dot ↦ absurd (ground (arith, dot, seen))
                | inr other ↦ elim other [
                  | inl plain ↦ absurd (ground (arith, plain, inner))
                  | inr free ↦ free
                ]
              ]) in
              ends child snapshots child_fits (longer roomy))
            (λ leaf.
              is_some-if (e.is_dir || not (allowed env (λ ti. ti.compiled_watch) e.name))
                (some snapshots) _ (λ other. refl)
                (λ file. elim (Option-cases (env.platform.stat child env.target.follow_symlinks)) [
                  | inl gone ↦ rw gone refl
                  | inr (info, there) ↦ rw there refl
                ])))

  initial_entries-Ends :
      (scan : Walk) (dir : Bytes) (recursive : Bool) (entries : List DirEntry)
      (snapshots : List FileSnapshot)
      → length dir < env.platform.path_max
      → All (Room dir) entries
      → Ends (length dir) scan
      → is_some (initial_entries env scan dir recursive entries snapshots) ≡ true
  unfolding initial_entries
  initial_entries-Ends scan dir recursive [] snapshots short rooms ends = refl
  initial_entries-Ends scan dir recursive (e ∷ entries) snapshots short (room, rooms) ends =
      elim (Option-cases (initial_entry env scan dir recursive e snapshots)) [
        | inl stuck ↦ absurd (
            cc
              (initial_entry-Ends scan dir recursive e snapshots short room ends, ap is_some stuck))
        | inr (next, done) ↦
            rw (done, initial_entries)
              (initial_entries-Ends scan dir recursive entries next short rooms ends)
      ]

  initial_scan_path-is_some :
      (fuel : ℕ) (recursive : Bool) (dir : Bytes) (snapshots : List FileSnapshot)
      → FitsPaths env.platform
      → length dir < env.platform.path_max
      → env.platform.path_max ≤ length dir + fuel
      → is_some (initial_scan_path env fuel recursive dir snapshots) ≡ true
  unfolding initial_scan_path
  initial_scan_path-is_some zero recursive dir snapshots ok short enough =
      absurd (omega (arith, short, enough))
  initial_scan_path-is_some (suc fuel) recursive dir snapshots ok short enough =
      elim (Option-cases (env.platform.dir_open dir)) [
        | inl closed ↦ rw (closed, initial_scan_path) refl
        | inr (entries, opened) ↦
            rw (opened, initial_scan_path)
              (initial_entries-Ends (initial_scan_path env fuel true) dir recursive entries
                snapshots short (ok dir entries opened)
                (λ child found child_short longer.
                  initial_scan_path-is_some fuel true child found ok child_short
                    (omega (arith, longer, enough))))
      ]

  pub poll_initial_snapshot-is_some :
      (fuel : ℕ)
      → FitsPaths env.platform
      → length env.target.path < env.platform.path_max
      → env.platform.path_max ≤ fuel
      → is_some (poll_initial_snapshot env fuel) ≡ true
  unfolding poll_initial_snapshot
  poll_initial_snapshot-is_some fuel ok short enough =
      is_some-if env.target.is_file _ _
        (λ file.
          elim (Option-cases (env.platform.stat env.target.path env.target.follow_symlinks)) [
            | inl gone ↦ rw gone refl
            | inr (info, there) ↦ rw there refl
          ])
        (λ directory.
          initial_scan_path-is_some fuel env.target.is_recursive env.target.path [] ok short
            (omega (arith, enough)))
