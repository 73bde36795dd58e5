-- ===== src/Poll/Fuel.antt =====
-- backend/backend_poll.c: how deep the recursion of `scan_path` goes. Each level lengthens the path, which
-- the buffer of SW_PATH_MAX bytes bounds.
use mathlib.Core.Path.{subst}
use swatcher.Base.{
  ◌≡◌, refl, ◌∙◌, sym, ℕ, zero, suc, ◌+◌, ◌-◌, ◌≤◌, ◌<◌, ◌⊎◌, Bool, true, false, not, ◌&&◌, ◌||◌,
  Option, List, [], ◌∷◌, Bytes, length, All, All-hash_add, arith, Bool-cases, Option-cases, inl,
  inr, hash_find, hash_set, str_eq, ◌==◌, Sure, Sure-some,
}
use swatcher.Platform.{FileInfo, DirEntry, child_path, is_dot, is_direct_child, length-child_path}
use swatcher.Platform.Children.{is_direct_child-longer}
use swatcher.Types.{FsEvent}
use swatcher.Pattern.Compile.{Regex}
use swatcher.Rescan.Fuel.{FitsPaths}
use swatcher.Poll.State.{
  FileSnapshot, snapshot_key, DirMtime, dir_key, ScanEnv, ScanState, emit_event, refresh, allowed,
  ignored,
}
use swatcher.Poll.Scan.{
  check_dir_mtime, record_file, scan_entry, scan_entries, restat, scan_subdirs, scan_dir, scan_path,
}

module _ {r : Regex} (env : ScanEnv r) where
  abbrev path_max : ℕ
  path_max = env.platform.path_max

  -- The cached directories have paths that fit in the buffer.
  abbrev pub Fits : List DirMtime → Type 0
  Fits dirs = All (λ dm. length dm.path < path_max) dirs

  Fits-hash_set :
      (k : Bytes) (mtime cached_at : ℕ) (dirs : List DirMtime)
      → Fits dirs
      → Fits (hash_set dir_key k (λ e. record e { mtime = mtime; cached_at = cached_at }) dirs)
  unfolding hash_set
  Fits-hash_set k mtime cached_at [] fits = tt
  Fits-hash_set k mtime cached_at (dm ∷ dirs) (here, there) = elim (Bool-cases (str_eq dm.path k)) [
    | inl same ↦ rw (same, hash_set) (here, there)
    | inr other ↦ rw (other, hash_set) (here, Fits-hash_set k mtime cached_at dirs there)
  ]

  pub emit_event-dir_mtimes :
      (event : FsEvent) (path : Bytes) (is_dir : Bool) (old_path : Option Bytes) (s : ScanState)
      → (emit_event env event path is_dir old_path s).dir_mtimes ≡ s.dir_mtimes
  unfolding emit_event
  emit_event-dir_mtimes event path is_dir old_path s = ground arith

  check_dir_mtime-Fits :
      (dir : Bytes) (s : ScanState)
      → length dir < path_max
      → Fits s.dir_mtimes
      → Fits (check_dir_mtime env dir s).1.dir_mtimes
  unfolding check_dir_mtime
  check_dir_mtime-Fits dir s short fits =
      elim (Option-cases (env.platform.stat dir env.target.follow_symlinks)) [
        | inl gone ↦ rw (gone, check_dir_mtime) fits
        | inr (info, there) ↦ elim (Option-cases (hash_find dir_key dir s.dir_mtimes)) [
          | inr (cached, known) ↦ elim (Bool-cases (cached.mtime == info.mtime)) [
            | inl same ↦ rw (there, known, same, check_dir_mtime) fits
            | inr other ↦
                rw (there, known, other, check_dir_mtime)
                  (Fits-hash_set dir info.mtime (env.platform.time_now_ms dir) s.dir_mtimes fits)
          ]
          | inl unknown ↦ elim (Bool-cases (env.dir_memory dir)) [
            | inl got ↦
                rw (there, unknown, got, check_dir_mtime)
                  (All-hash_add (λ dm. length dm.path < path_max) s.dir_mtimes _ fits short)
            | inr missing ↦ rw (there, unknown, missing, check_dir_mtime) fits
          ]
        ]
      ]

  pub refresh-dir_mtimes :
      (snap : FileSnapshot) (info : FileInfo) (s : ScanState)
      → (refresh env snap info s).dir_mtimes ≡ s.dir_mtimes
  unfolding refresh emit_event
  refresh-dir_mtimes snap info s = ground arith

  record_file-dir_mtimes :
      (path : Bytes) (info : FileInfo) (s : ScanState)
      → (record_file env path info s).dir_mtimes ≡ s.dir_mtimes
  unfolding record_file
  record_file-dir_mtimes path info s =
      elim (Option-cases (hash_find snapshot_key path s.snapshots)) [
        | inl unknown ↦ rw (unknown, record_file) refl
        | inr (snap, known) ↦ rw (known, record_file) (refresh-dir_mtimes snap info s)
      ]

  restat-dir_mtimes :
      (dir : Bytes) (todo : List FileSnapshot) (s : ScanState)
      → (restat env dir todo s).dir_mtimes ≡ s.dir_mtimes
  unfolding restat
  restat-dir_mtimes dir [] s = refl
  restat-dir_mtimes dir (snap ∷ todo) s =
      elim (Bool-cases (is_direct_child env.platform.separator dir snap.path)) [
        | inr other ↦ rw (other, restat) (restat-dir_mtimes dir todo s)
        | inl child ↦ elim (Option-cases (env.platform.stat snap.path env.target.follow_symlinks)) [
          | inl gone ↦ rw (child, gone, restat) (restat-dir_mtimes dir todo s)
          | inr (info, there) ↦
              rw (child, there, restat)
                (restat-dir_mtimes dir todo (refresh env snap info s)
                  ∙ refresh-dir_mtimes snap info s)
        ]
      ]

  -- The walk returns below `n`, and what it caches fits.
  abbrev Ends : ℕ → (Bytes → ScanState → Option ScanState) → Type 0
  Ends n scan =
      (dir : Bytes) (s : ScanState)
      → length dir < path_max
      → n < length dir
      → Fits s.dir_mtimes
      → Sure (λ s'. Fits s'.dir_mtimes) (scan dir s)

  -- What FitsPaths says of an entry of a directory.
  abbrev Room : Bytes → DirEntry → Type 0
  Room dir e =
      (0 < length e.name)
      × ((is_dot e.name ≡ true) ⊎ (e.is_dir ≡ false) ⊎ (length dir < path_max - 1))

  plain_entry :
      (scan : Bytes → ScanState → Option ScanState) (dir : Bytes) (recursive : Bool) (e : DirEntry)
      (s : ScanState)
      → (e.is_dir && recursive) ≡ false
      → Fits s.dir_mtimes
      → Sure (λ s'. Fits s'.dir_mtimes) (scan_entry env scan dir recursive e s)
  unfolding scan_entry
  plain_entry scan dir recursive e s leaf fits =
      elim (Bool-cases (is_dot e.name || ignored env e.name)) [
        | inl skipped ↦ rw (skipped, scan_entry) fits
        | inr seen ↦
            elim (Bool-cases (e.is_dir || not (allowed env (λ ti. ti.compiled_watch) e.name))) [
              | inl other ↦ rw (seen, leaf, other, scan_entry) fits
              | inr file ↦
                  let child = child_path env.platform dir e.name in
                  elim (Option-cases (env.platform.stat child env.target.follow_symlinks)) [
                    | inl gone ↦ rw (seen, leaf, file, gone, scan_entry) fits
                    | inr (info, there) ↦
                        rw (seen, leaf, file, there, scan_entry)
                          (subst Fits (sym (record_file-dir_mtimes child info s)) fits)
                  ]
            ]
      ]

  scan_entry-Ends :
      (scan : Bytes → ScanState → Option ScanState) (dir : Bytes) (recursive : Bool) (e : DirEntry)
      (s : ScanState)
      → length dir < path_max
      → Room dir e
      → Ends (length dir) scan
      → Fits s.dir_mtimes
      → Sure (λ s'. Fits s'.dir_mtimes) (scan_entry env scan dir recursive e s)
  unfolding scan_entry
  scan_entry-Ends scan dir recursive e s short (named, room) ends fits =
      elim (Bool-cases (e.is_dir && recursive)) [
        | inr leaf ↦ plain_entry scan dir recursive e s leaf fits
        | inl inner ↦ elim (Bool-cases (is_dot e.name || ignored env e.name)) [
          | inl skipped ↦ rw (skipped, scan_entry) fits
          | inr seen ↦
              let roomy : length dir < path_max - 1 = (elim room [
                | inl dot ↦ absurd (ground (arith, dot, seen))
                | inr r ↦ elim r [
                  | inl plain ↦ absurd (ground (arith, plain, inner))
                  | inr free ↦ free
                ]
              ]) in
              let (child_fits, longer) =
                length-child_path env.platform dir e.name (omega (arith, short)) named in
              rw (seen, inner, scan_entry)
                (ends (child_path env.platform dir e.name) s child_fits (longer roomy) fits)
        ]
      ]

  scan_entries-Ends :
      (scan : Bytes → ScanState → Option ScanState) (dir : Bytes) (recursive : Bool)
      (entries : List DirEntry) (s : ScanState)
      → length dir < path_max
      → All (Room dir) entries
      → Ends (length dir) scan
      → Fits s.dir_mtimes
      → Sure (λ s'. Fits s'.dir_mtimes) (scan_entries env scan dir recursive entries s)
  unfolding scan_entries
  scan_entries-Ends scan dir recursive [] s short rooms ends fits = fits
  scan_entries-Ends scan dir recursive (e ∷ entries) s short (room, rooms) ends fits =
      let (s', done, fits') =
        Sure-some (scan_entry env scan dir recursive e s)
          (scan_entry-Ends scan dir recursive e s short room ends fits) in
      rw (done, scan_entries)
        (scan_entries-Ends scan dir recursive entries s' short rooms ends fits')

  scan_subdirs-Ends :
      (scan : Bytes → ScanState → Option ScanState) (dir : Bytes) (todo : List DirMtime)
      (s : ScanState)
      → Ends (length dir) scan
      → Fits todo
      → Fits s.dir_mtimes
      → Sure (λ s'. Fits s'.dir_mtimes) (scan_subdirs env scan dir todo s)
  unfolding scan_subdirs
  scan_subdirs-Ends scan dir [] s ends todo_fits fits = fits
  scan_subdirs-Ends scan dir (dm ∷ todo) s ends (here, there) fits =
      elim (Bool-cases (is_direct_child env.platform.separator dir dm.path)) [
        | inr other ↦ rw (other, scan_subdirs) (scan_subdirs-Ends scan dir todo s ends there fits)
        | inl child ↦
            let (s', done, fits') = Sure-some (scan dm.path s) (
              ends dm.path s here (is_direct_child-longer env.platform.separator dir dm.path child)
                fits) in
            rw (child, done, scan_subdirs) (scan_subdirs-Ends scan dir todo s' ends there fits')
      ]

  scan_dir-Ends :
      (scan : Bytes → ScanState → Option ScanState) (recursive : Bool) (dir : Bytes)
      (checked : Bool × ScanState)
      → FitsPaths env.platform
      → length dir < path_max
      → Ends (length dir) scan
      → Fits checked.1.dir_mtimes
      → Sure (λ s'. Fits s'.dir_mtimes) (scan_dir env scan recursive dir checked)
  unfolding scan_dir
  scan_dir-Ends scan recursive dir (true, s) ok short ends fits =
      elim (Option-cases (env.platform.dir_open dir)) [
        | inl closed ↦ rw (closed, scan_dir) fits
        | inr (entries, opened) ↦
            rw (opened, scan_dir)
              (scan_entries-Ends scan dir recursive entries s short (ok dir entries opened) ends
                fits)
      ]
  scan_dir-Ends scan recursive dir (false, s) ok short ends fits =
      let fits' = subst Fits (sym (restat-dir_mtimes dir s.snapshots s)) fits in
      elim (Bool-cases recursive) [
        | inl inner ↦
            rw (inner, scan_dir)
              (scan_subdirs-Ends scan dir (restat env dir s.snapshots s).dir_mtimes
                (restat env dir s.snapshots s) ends fits' fits')
        | inr flat ↦ rw (flat, scan_dir) fits'
      ]

  -- Where names are not empty and a directory whose path fills the buffer has no subdirectory, a scan
  -- from a path that fits ends after at most SW_PATH_MAX levels, and what it caches fits as well.
  pub scan_path-Fits :
      (fuel : ℕ) (recursive : Bool) (dir : Bytes) (s : ScanState)
      → FitsPaths env.platform
      → length dir < env.platform.path_max
      → env.platform.path_max ≤ length dir + fuel
      → Fits s.dir_mtimes
      → Sure (λ s'. Fits s'.dir_mtimes) (scan_path env fuel recursive dir s)
  unfolding scan_path
  scan_path-Fits zero recursive dir s ok short enough fits = absurd (omega (arith, short, enough))
  scan_path-Fits (suc fuel) recursive dir s ok short enough fits =
      scan_dir-Ends (scan_path env fuel true) recursive dir (check_dir_mtime env dir s) ok short
        (λ child s' child_short longer fits'.
          scan_path-Fits fuel true child s' ok child_short (omega (arith, longer, enough)) fits')
        (check_dir_mtime-Fits dir s short fits)
