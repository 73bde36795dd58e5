-- ===== src/Rescan/Exact.antt =====
-- core/rescan.c: `rescan_walk` adds to a snapshot exactly the files that are visible from its directory.
use swatcher.Base.{
  ℕ, zero, suc, ◌≡◌, ◌↔◌, refl, Bool, true, none, some, List, [], ◌∷◌, Bytes, In, inl, inr, arith,
  Option-cases,
}
use swatcher.Platform.{Platform, DirEntry}
use swatcher.Rescan.Walk.{
  RescanEntry, Snapshot, rescan_entry, rescan_entries, rescan_walk, sw_rescan_snapshot,
}
use swatcher.Rescan.Visible.{Visible, Shows, Walk, Adds, AddsVisible, Adds-same, entry_Adds}

module _ (p : Platform) (gets_memory : Bytes → Bool) (x : RescanEntry) where
  abbrev SomeShows : Bool → Bytes → List DirEntry → Type 0
  SomeShows recursive dir entries =
      (e : DirEntry) × (In e entries) × Shows p gets_memory x recursive dir e

  module _ (mem : (path : Bytes) → gets_memory path ≡ true) where
    entries_Adds :
        (walk : Walk p gets_memory x) (dir : Bytes) (recursive : Bool) (entries : List DirEntry)
        (snap snap' : Snapshot)
        → AddsVisible p gets_memory x walk
        → rescan_entries p gets_memory walk dir recursive entries snap ≡ some snap'
        → Adds p gets_memory x (SomeShows recursive dir entries) snap snap'
    unfolding rescan_entries
    entries_Adds walk dir recursive [] snap snap' ih h =
        Adds-same p gets_memory x (SomeShows recursive dir []) snap snap' (ground arith) (λ s. s.1)
    entries_Adds walk dir recursive (e ∷ entries) snap snap' ih h =
        elim (Option-cases (rescan_entry p gets_memory walk dir recursive e snap)) [
          | inl stuck ↦ absurd (ground arith)
          | inr (middle, done) ↦
              let (split₁, keep₁, add₁) =
                entry_Adds p gets_memory x walk dir recursive e snap middle mem ih done in
              let (split₂, keep₂, add₂) =
                entries_Adds walk dir recursive entries middle snap' ih (ground arith) in
              (
                λ i. elim (split₂ i) [
                  | inr (e', there, shows) ↦ inr (e', inr there, shows)
                  | inl early ↦ elim (split₁ early) [
                    | inl before ↦ inl before
                    | inr shows ↦ inr (e, inl refl, shows)
                  ]
                ],
                λ i. keep₂ (keep₁ i),
                λ (e', i, shows). elim i [
                  | inl same ↦ keep₂ (add₁ (rw (← same) shows))
                  | inr there ↦ add₂ (e', there, shows)
                ],
              )
        ]

    Visible-Shows :
        (recursive : Bool) (dir : Bytes) (entries : List DirEntry)
        → p.dir_open dir ≡ some entries
        → Visible p x recursive dir
        → SomeShows recursive dir entries
    Visible-Shows recursive dir entries o (Visible.file es e info o' i named plain asked same) =
        let agree : es ≡ entries = ground arith in
        (e, rw agree at i, (named, inr (plain, (info, asked, same))))
    Visible-Shows recursive dir entries o (Visible.below es e o' i named is_directory down v) =
        let agree : es ≡ entries = ground arith in
        (e, rw agree at i, (named, inl (is_directory, down, v)))

    Shows-Visible :
        (recursive : Bool) (dir : Bytes) (entries : List DirEntry)
        → p.dir_open dir ≡ some entries
        → SomeShows recursive dir entries
        → Visible p x recursive dir
    Shows-Visible recursive dir entries o (e, i, (named, inl (is_directory, down, v))) =
        Visible.below entries e o i named is_directory down v
    Shows-Visible recursive dir entries o (e, i, (named, inr (plain, (info, asked, same)))) =
        Visible.file entries e info o i named plain asked same

    closed_dir :
        (recursive : Bool) (dir : Bytes) → p.dir_open dir ≡ none → ¬ Visible p x recursive dir
    closed_dir recursive dir o (Visible.file es e info o' i named plain asked same) = ground arith
    closed_dir recursive dir o (Visible.below es e o' i named is_directory down v) = ground arith

    walk_Adds :
        (fuel : ℕ) (recursive : Bool) (dir : Bytes) (snap snap' : Snapshot)
        → rescan_walk p gets_memory fuel recursive dir snap ≡ some snap'
        → Adds p gets_memory x (Visible p x recursive dir) snap snap'
    unfolding rescan_walk
    walk_Adds zero recursive dir snap snap' h = absurd (ground arith)
    walk_Adds (suc fuel) recursive dir snap snap' h = elim (Option-cases (p.dir_open dir)) [
      | inl closed ↦
          Adds-same p gets_memory x (Visible p x recursive dir) snap snap' (ground arith)
            (closed_dir recursive dir closed)
      | inr (entries, o) ↦
          let (split, keep, add) =
            entries_Adds (rescan_walk p gets_memory fuel true) dir recursive entries snap snap'
              (walk_Adds fuel true) (ground arith) in
          (
            λ i. elim (split i) [
              | inl before ↦ inl before
              | inr s ↦ inr (Shows-Visible recursive dir entries o s)
            ],
            keep,
            λ v. add (Visible-Shows recursive dir entries o v),
          )
    ]

-- A snapshot that is taken with memory for every entry holds exactly the files that are visible from
-- the root, each with the size and the time that `sw_stat` gave.
pub sw_rescan_snapshot_iff :
    (p : Platform) (gets_memory : Bytes → Bool) (fuel : ℕ) (root_path : Bytes) (recursive : Bool)
    (snapshot : Snapshot) (x : RescanEntry)
    → ((path : Bytes) → gets_memory path ≡ true)
    → sw_rescan_snapshot p gets_memory fuel root_path recursive ≡ some snapshot
    → In x snapshot ↔ Visible p x recursive root_path
unfolding sw_rescan_snapshot
sw_rescan_snapshot_iff p gets_memory fuel root recursive snapshot x mem h =
    let (split, _, add) = walk_Adds p gets_memory x mem fuel recursive root [] snapshot h in
    (λ i. elim (split i) [ inl nothing_before ↦ absurd nothing_before | inr v ↦ v ], add)
