-- ===== src/Rescan/Fuel.antt =====
-- core/rescan.c: how deep the recursion of `rescan_walk` goes. Each level lengthens the path, which the
-- buffer of SW_PATH_MAX bytes bounds.
use swatcher.Base.{
  ℕ, zero, suc, ◌+◌, ◌-◌, ◌≤◌, ◌<◌, ◌≡◌, ◌⊎◌, refl, Bool, true, false, Option, none, some, List, [],
  ◌∷◌, Bytes, length, In, All, inl, inr, arith, Option-cases,
}
use swatcher.Platform.{Platform, DirEntry, child_path, is_dot, length-child_path, child_path_full}
use swatcher.Rescan.Walk.{Snapshot, rescan_entry, rescan_entries, rescan_walk, sw_rescan_snapshot}

-- No name is empty, and a directory whose path fills the buffer has no subdirectory.
abbrev pub FitsPaths : Platform → Type 0
FitsPaths p =
    (dir : Bytes) (entries : List DirEntry)
    → p.dir_open dir ≡ some entries
    → All
        (λ e.
          (0 < length e.name)
          × ((is_dot e.name ≡ true) ⊎ (e.is_dir ≡ false) ⊎ (length dir < p.path_max - 1)))
        entries

module _ (p : Platform) (gets_memory : Bytes → Bool) where
  abbrev Ends : ℕ → (Bytes → Snapshot → Option Snapshot) → Type 0
  Ends n walk =
      (dir : Bytes) (snap : Snapshot)
      → length dir < p.path_max
      → n < length dir
      → (snap' : Snapshot) × (walk dir snap ≡ some snap')

  entry-Ends :
      (walk : Bytes → Snapshot → Option Snapshot) (dir : Bytes) (recursive : Bool) (e : DirEntry)
      (snap : Snapshot)
      → length dir < p.path_max
      → 0 < length e.name
      → (is_dot e.name ≡ true) ⊎ (e.is_dir ≡ false) ⊎ (length dir < p.path_max - 1)
      → Ends (length dir) walk
      → (snap' : Snapshot) × (rescan_entry p gets_memory walk dir recursive e snap ≡ some snap')
  unfolding rescan_entry
  entry-Ends walk dir recursive e snap fits named room ih =
      elim (Option-cases (rescan_entry p gets_memory walk dir recursive e snap)) [
        | inr ended ↦ ended
        | inl stuck ↦ absurd (elim room [
          | inl dot ↦ ground arith
          | inr r ↦ elim r [
            | inl plain ↦ ground arith
            | inr short ↦
                let (child_fits, longer) = length-child_path p dir e.name (omega arith) named in
                let (s, done) = ih (child_path p dir e.name) snap child_fits (longer short) in
                ground arith
          ]
        ])
      ]

  entries_end :
      (walk : Bytes → Snapshot → Option Snapshot) (dir : Bytes) (recursive : Bool)
      (entries : List DirEntry) (snap : Snapshot)
      → length dir < p.path_max
      → All
          (λ e.
            (0 < length e.name)
            × ((is_dot e.name ≡ true) ⊎ (e.is_dir ≡ false) ⊎ (length dir < p.path_max - 1)))
          entries
      → Ends (length dir) walk
      → (snap' : Snapshot) × (rescan_entries p gets_memory walk dir recursive entries snap
          ≡ some snap')
  unfolding rescan_entries
  entries_end walk dir recursive [] snap fits ok ih = (snap, refl)
  entries_end walk dir recursive (e ∷ entries) snap fits ok ih =
      let (middle, done) = entry-Ends walk dir recursive e snap fits ok.0.0 ok.0.1 ih in
      rw (done, rescan_entries) (entries_end walk dir recursive entries middle fits ok.1 ih)

  walk_ends :
      FitsPaths p
      → (fuel : ℕ) (recursive : Bool) (dir : Bytes) (snap : Snapshot) → length dir < p.path_max
      → p.path_max ≤ length dir + fuel
      → (snap' : Snapshot) × (rescan_walk p gets_memory fuel recursive dir snap ≡ some snap')
  unfolding rescan_walk
  walk_ends ok zero recursive dir snap fits enough = absurd (omega arith)
  walk_ends ok (suc fuel) recursive dir snap fits enough = elim (Option-cases (p.dir_open dir)) [
    | inl closed ↦ (snap, rw (closed, rescan_walk) refl)
    | inr (entries, o) ↦
        rw (o, rescan_walk)
          (entries_end (rescan_walk p gets_memory fuel true) dir recursive entries snap fits
            (ok dir entries o)
            (λ child s child_fits longer. walk_ends ok fuel true child s child_fits (omega arith)))
  ]

  -- One directory with a subdirectory, at a path that fills the buffer.
  entries_stuck :
      (walk : Bytes → Snapshot → Option Snapshot) (dir : Bytes) (e : DirEntry)
      (entries : List DirEntry) (snap : Snapshot)
      → In e entries
      → is_dot e.name ≡ false
      → e.is_dir ≡ true
      → length dir ≡ p.path_max - 1
      → ((s : Snapshot) → walk dir s ≡ none)
      → rescan_entries p gets_memory walk dir true entries snap ≡ none
  unfolding rescan_entries rescan_entry
  entries_stuck walk dir e [] snap i named d full ih = absurd i
  entries_stuck walk dir e (e' ∷ entries) snap (inl same) named d full ih =
      ground (arith, ih snap, child_path_full p dir e.name full)
  entries_stuck walk dir e (e' ∷ entries) snap (inr there) named d full ih =
      elim (Option-cases (rescan_entry p gets_memory walk dir true e' snap)) [
        | inl stuck ↦ rw (stuck, rescan_entries) refl
        | inr (middle, done) ↦
            rw (done, rescan_entries)
              (entries_stuck walk dir e entries middle there named d full ih)
      ]

  walk_stuck :
      (fuel : ℕ) (dir : Bytes) (e : DirEntry) (entries : List DirEntry) (snap : Snapshot)
      → p.dir_open dir ≡ some entries
      → In e entries
      → is_dot e.name ≡ false
      → e.is_dir ≡ true
      → length dir ≡ p.path_max - 1
      → rescan_walk p gets_memory fuel true dir snap ≡ none
  unfolding rescan_walk
  walk_stuck zero dir e entries snap o i named d full = refl
  walk_stuck (suc fuel) dir e entries snap o i named d full =
      rw (o, rescan_walk)
        (entries_stuck (rescan_walk p gets_memory fuel true) dir e entries snap i named d full
          (λ s. walk_stuck fuel dir e entries s o i named d full))

-- Where names are not empty and a directory whose path fills the buffer has no subdirectory, a
-- snapshot of a root that fits in the buffer ends after at most SW_PATH_MAX levels.
pub sw_rescan_snapshot_ends :
    (p : Platform) (gets_memory : Bytes → Bool) (root_path : Bytes) (recursive : Bool) (fuel : ℕ)
    → FitsPaths p
    → length root_path < p.path_max
    → p.path_max ≤ length root_path + fuel
    → (snapshot : Snapshot) × (sw_rescan_snapshot p gets_memory fuel root_path recursive
        ≡ some snapshot)
unfolding sw_rescan_snapshot
sw_rescan_snapshot_ends p gets_memory root recursive fuel ok fits enough =
    walk_ends p gets_memory ok fuel recursive root [] fits enough

-- A recursive snapshot of a directory whose path fills the buffer and that has a subdirectory never
-- ends: the path of the child is cut to the directory's own path, whatever the depth.
pub sw_rescan_snapshot_diverges :
    (p : Platform) (gets_memory : Bytes → Bool) (root_path : Bytes) (e : DirEntry)
    (entries : List DirEntry)
    → p.dir_open root_path ≡ some entries
    → In e entries
    → is_dot e.name ≡ false
    → e.is_dir ≡ true
    → length root_path ≡ p.path_max - 1
    → (fuel : ℕ) → sw_rescan_snapshot p gets_memory fuel root_path true ≡ none
unfolding sw_rescan_snapshot
sw_rescan_snapshot_diverges p gets_memory root e entries o i named d full fuel =
    walk_stuck p gets_memory fuel root e entries [] o i named d full
