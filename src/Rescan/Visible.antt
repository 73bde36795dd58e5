-- ===== src/Rescan/Visible.antt =====
-- core/rescan.c: the files that a snapshot holds, against the file system's own tree.
use swatcher.Base.{
  ◌≡◌, ◌⊎◌, Bool, true, false, Option, some, List, [], ◌∷◌, ◌++◌, Bytes, In, In-append_left,
  In-append_right, In-append_split, inl, inr, arith, Bool-cases, Option-cases,
}
use swatcher.Platform.{Platform, DirEntry, FileInfo, child_path, is_dot}
use swatcher.Rescan.Walk.{RescanEntry, Snapshot, rescan_entry}

-- The entry for a path and its file information.
abbrev pub described : Bytes → FileInfo → RescanEntry
described path info = record { path = path; mtime = info.mtime; size = info.size }

-- A file is seen from a directory if it stands there and can be asked for, or if the search goes down
-- and it is seen from a subdirectory.
pub data Visible (p : Platform) (x : RescanEntry) : Bool → Bytes → Type 0 where
  file :
      {recursive : Bool} {dir : Bytes} (entries : List DirEntry) (e : DirEntry) (info : FileInfo)
      → p.dir_open dir ≡ some entries
      → In e entries
      → is_dot e.name ≡ false
      → e.is_dir ≡ false
      → p.stat (child_path p dir e.name) true ≡ some info
      → x ≡ described (child_path p dir e.name) info
      → Visible p x recursive dir
  below :
      {recursive : Bool} {dir : Bytes} (entries : List DirEntry) (e : DirEntry)
      → p.dir_open dir ≡ some entries
      → In e entries
      → is_dot e.name ≡ false
      → e.is_dir ≡ true
      → recursive ≡ true
      → Visible p x true (child_path p dir e.name)
      → Visible p x recursive dir

module _ (p : Platform) (gets_memory : Bytes → Bool) (x : RescanEntry) where
  -- What one directory entry contributes.
  abbrev pub Shows : Bool → Bytes → DirEntry → Type 0
  Shows recursive dir e =
      (is_dot e.name ≡ false)
      × (((e.is_dir ≡ true) × (recursive ≡ true) × Visible p x true (child_path p dir e.name))
          ⊎ ((e.is_dir ≡ false)
              × ((info : FileInfo) × (p.stat (child_path p dir e.name) true ≡ some info)
                  × (x ≡ described (child_path p dir e.name) info))))

  abbrev pub Walk : Type 0
  Walk = Bytes → Snapshot → Option Snapshot

  -- A walk adds exactly what is seen from its directory.
  abbrev pub Adds : Type 0 → Snapshot → Snapshot → Type 0
  Adds Q snap snap' = (In x snap' → In x snap ⊎ Q) × (In x snap → In x snap') × (Q → In x snap')

  abbrev pub AddsVisible : Walk → Type 0
  AddsVisible walk =
      (child : Bytes) (snap snap' : Snapshot)
      → walk child snap ≡ some snap'
      → Adds (Visible p x true child) snap snap'

  pub Adds-same : (Q : Type 0) (snap snap' : Snapshot) → snap ≡ snap' → ¬ Q → Adds Q snap snap'
  Adds-same Q snap snap' e not_shown = rw (← e) (λ i. inl i, λ i. i, λ q. absurd (not_shown q))

  Adds-one :
      (Q : Type 0) (snap snap' : Snapshot) (y : RescanEntry)
      → snap ++ y ∷ [] ≡ snap'
      → (x ≡ y → Q)
      → (Q → x ≡ y)
      → Adds Q snap snap'
  Adds-one Q snap snap' y e to from = rw (← e) (
    λ i. elim (In-append_split x snap (y ∷ []) i) [
      | inl l ↦ inl l
      | inr r ↦ elim r [ inl same ↦ inr (to same) | inr none_left ↦ absurd none_left ]
    ],
    In-append_left x snap (y ∷ []),
    λ q. In-append_right x snap (y ∷ []) (inl (from q)),
  )

  -- How `rescan_entry` comes out, case by case.
  module _ (walk : Walk) (dir : Bytes) (recursive : Bool) (e : DirEntry)
      (snap snap' : Snapshot) where
    abbrev pub Result : Type 0
    Result = Adds (Shows recursive dir e) snap snap'

    entry_dot :
        is_dot e.name ≡ true
        → rescan_entry p gets_memory walk dir recursive e snap ≡ some snap'
        → Result
    unfolding rescan_entry
    entry_dot dot h =
        Adds-same (Shows recursive dir e) snap snap' (ground arith) (λ s. cc (dot, s.0))

    entry_dir :
        is_dot e.name ≡ false
        → e.is_dir ≡ true
        → AddsVisible walk
        → rescan_entry p gets_memory walk dir recursive e snap ≡ some snap'
        → Result
    unfolding rescan_entry
    entry_dir named is_directory ih h = elim (Bool-cases recursive) [
      | inl down ↦
          let (split, keep, add) = ih (child_path p dir e.name) snap snap' (ground arith) in
          (
            λ i. elim (split i) [
              | inl l ↦ inl l
              | inr v ↦ inr (named, inl (is_directory, down, v))
            ],
            keep,
            λ s. elim s.1 [ inl d ↦ add d.2 | inr f ↦ absurd (ground (arith, f.0)) ],
          )
      | inr flat ↦
          Adds-same (Shows recursive dir e) snap snap' (ground arith)
            (λ s. elim s.1 [ inl d ↦ ground (arith, d.1) | inr f ↦ ground (arith, f.0) ])
    ]

    entry_file :
        ((path : Bytes) → gets_memory path ≡ true)
        → is_dot e.name ≡ false
        → e.is_dir ≡ false
        → rescan_entry p gets_memory walk dir recursive e snap ≡ some snap'
        → Result
    unfolding rescan_entry
    entry_file mem named plain h = elim (Option-cases (p.stat (child_path p dir e.name) true)) [
      | inl gone ↦ Adds-same (Shows recursive dir e) snap snap' (ground arith) (λ s. elim s.1 [
        | inl d ↦ ground (arith, d.0)
        | inr (_, (info, asked, _)) ↦ ground (arith, asked)
      ])
      | inr (info, asked) ↦
          Adds-one (Shows recursive dir e) snap snap' (described (child_path p dir e.name) info)
            (ground (arith, mem (child_path p dir e.name)))
            (λ same. (named, inr (plain, (info, asked, same))))
            (λ s. elim s.1 [
              | inl d ↦ absurd (ground (arith, d.0))
              | inr (_, (info', asked', same)) ↦ ground (arith, asked', same)
            ])
    ]

    pub entry_Adds :
        ((path : Bytes) → gets_memory path ≡ true)
        → AddsVisible walk
        → rescan_entry p gets_memory walk dir recursive e snap ≡ some snap'
        → Result
    entry_Adds mem ih h = elim (Bool-cases (is_dot e.name)) [
      | inl dot ↦ entry_dot dot h
      | inr named ↦ elim (Bool-cases e.is_dir) [
        | inl is_directory ↦ entry_dir named is_directory ih h
        | inr plain ↦ entry_file mem named plain h
      ]
    ]
