-- ===== src/Poll/Rounds.antt =====
-- backend/backend_poll.c: every round of scans returns.
use mathlib.Core.Path.{subst}
use swatcher.Base.{
  ◌≡◌, refl, ap, ◌∙◌, sym, ℕ, ◌≤◌, ◌<◌, false, none, some, List, [], ◌∷◌, length, All, arith,
  Bool-cases, Option-cases, inl, inr, hash_find, Sure, Sure-some, Sure-if, ltb, count, map,
}
use swatcher.Types.{FsEvent, Call, Target}
use swatcher.Vcs.{VcsCache}
use swatcher.Pattern.Compile.{Regex}
use swatcher.Rescan.Fuel.{FitsPaths}
use swatcher.Poll.State.{FileSnapshot, snapshot_key, ScanEnv, ScanState}
use swatcher.Poll.Scan.{scan_path}
use swatcher.Poll.Target.{
  clear_flags, is_deleted, find_candidate, settle, settle_deleted, announce, report_created,
  detect_moves, finish, scan_file, poll_scan_target,
}
use swatcher.Poll.Fuel.{Fits, emit_event-dir_mtimes, refresh-dir_mtimes, scan_path-Fits}
use swatcher.Poll.Thread.{TargetPoll, PollState, PollWorld, scan_target, scan_targets, scan_round}

module _ {r : Regex} (env : ScanEnv r) where
  settle-dir_mtimes :
      (snap : FileSnapshot) (s : ScanState) → (settle env snap s).dir_mtimes ≡ s.dir_mtimes
  unfolding settle
  settle-dir_mtimes snap s = elim (Option-cases (find_candidate snap.size s.snapshots)) [
    | inl alone ↦
        rw (alone, settle) (emit_event-dir_mtimes env FsEvent.deleted snap.path false none s)
    | inr (candidate, found) ↦
        rw (found, settle)
          (emit_event-dir_mtimes env FsEvent.moved candidate.path false (some snap.path) s)
  ]

  settle_deleted-dir_mtimes :
      (todo : List FileSnapshot) (s : ScanState)
      → (settle_deleted env todo s).dir_mtimes ≡ s.dir_mtimes
  unfolding settle_deleted
  settle_deleted-dir_mtimes [] s = refl
  settle_deleted-dir_mtimes (snap ∷ todo) s =
      elim (Option-cases (hash_find snapshot_key snap.path s.snapshots)) [
        | inl gone ↦ rw (gone, settle_deleted) (settle_deleted-dir_mtimes todo s)
        | inr (now, there) ↦ elim (Bool-cases (is_deleted now)) [
          | inl deleted ↦
              rw (there, deleted, settle_deleted)
                (settle_deleted-dir_mtimes todo (settle env now s) ∙ settle-dir_mtimes now s)
          | inr stays ↦ rw (there, stays, settle_deleted) (settle_deleted-dir_mtimes todo s)
        ]
      ]

  report_created-dir_mtimes :
      (todo : List FileSnapshot) (s : ScanState)
      → (report_created env todo s).dir_mtimes ≡ s.dir_mtimes
  unfolding report_created announce
  report_created-dir_mtimes [] s = refl
  report_created-dir_mtimes (snap ∷ todo) s =
      elim (Option-cases (hash_find snapshot_key snap.path s.snapshots)) [
        | inl gone ↦ rw (gone, report_created) (report_created-dir_mtimes todo s)
        | inr (now, there) ↦ elim (Bool-cases now.is_new) [
          | inl new ↦
              rw (there, new, report_created)
                (report_created-dir_mtimes todo (announce env now s)
                  ∙ emit_event-dir_mtimes env FsEvent.created now.path false none s)
          | inr known ↦ rw (there, known, report_created) (report_created-dir_mtimes todo s)
        ]
      ]

  finish-dir_mtimes : (s : ScanState) → (finish env s).dir_mtimes ≡ s.dir_mtimes
  unfolding finish detect_moves
  finish-dir_mtimes s =
      report_created-dir_mtimes (detect_moves env s).snapshots (detect_moves env s)
      ∙ (elim (Bool-cases (ltb 0 (count is_deleted s.snapshots))) [
        | inl some_gone ↦ rw some_gone (settle_deleted-dir_mtimes s.snapshots s)
        | inr none_gone ↦ rw none_gone refl
      ])

  scan_file-dir_mtimes : (s : ScanState) → (scan_file env s).dir_mtimes ≡ s.dir_mtimes
  unfolding scan_file
  scan_file-dir_mtimes s =
      let path = env.target.path in
      elim (Option-cases (env.platform.stat path env.target.follow_symlinks)) [
        | inl gone ↦ elim (Option-cases (hash_find snapshot_key path s.snapshots)) [
          | inl unknown ↦ rw (gone, unknown, scan_file) refl
          | inr (snap, known) ↦
              rw (gone, known, scan_file)
                (emit_event-dir_mtimes env FsEvent.deleted path false none s)
        ]
        | inr (info, there) ↦ elim (Option-cases (hash_find snapshot_key path s.snapshots)) [
          | inl unknown ↦
              rw (there, unknown, scan_file)
                (emit_event-dir_mtimes env FsEvent.created path false none _)
          | inr (snap, known) ↦ rw (there, known, scan_file) (refresh-dir_mtimes env snap info s)
        ]
      ]

  -- Where names are not empty and a directory whose path fills the buffer has no subdirectory, the scan
  -- of a target whose path fits returns with the buffer's size for fuel, and the directories that it has
  -- cached still fit.
  pub poll_scan_target-Fits :
      (fuel : ℕ) (s : ScanState)
      → FitsPaths env.platform
      → length env.target.path < env.platform.path_max
      → env.platform.path_max ≤ fuel
      → Fits env s.dir_mtimes
      → Sure (λ s'. Fits env s'.dir_mtimes) (poll_scan_target env fuel s)
  unfolding poll_scan_target
  poll_scan_target-Fits fuel s ok short enough fits =
      let cleared : ScanState = record s { snapshots = map clear_flags s.snapshots } in
      let walked : Sure (λ s'. Fits env s'.dir_mtimes)
          (elim (scan_path env fuel env.target.is_recursive env.target.path cleared) [
            | none ↦ none
            | some s' ↦ some (finish env s')
          ]) =
        let (s', done, fits') =
          Sure-some (scan_path env fuel env.target.is_recursive env.target.path cleared) (
            scan_path-Fits env fuel env.target.is_recursive env.target.path cleared ok short
              (omega (arith, enough)) fits) in
        rw done (subst (Fits env) (sym (finish-dir_mtimes s')) fits') in
      Sure-if (λ s'. Fits env s'.dir_mtimes) env.target.is_file (some (scan_file env cleared)) _
        (subst (Fits env) (sym (scan_file-dir_mtimes cleared)) fits) walked

-- The system that the thread meets at any time: the buffer is one and the same, names are not empty, a
-- directory whose path fills the buffer has no subdirectory, and the fuel of a scan is the buffer's size.
pub record IsSteady {r : Regex} (world : PollWorld r) (path_max : ℕ) : Type 0 where
  pub one_size : (t : ℕ) (target : Target) → (world.env_at t target).platform.path_max ≡ path_max
  pub own_target : (t : ℕ) (target : Target) → (world.env_at t target).target ≡ target
  pub fits : (t : ℕ) (target : Target) → FitsPaths (world.env_at t target).platform
  pub fuel : path_max ≤ world.scan_fuel

-- The paths of the targets and of the directories that are cached fit in the buffer.
abbrev pub PathsFit : ℕ → PollState → Type 0
PathsFit path_max s =
    All
      (λ tp.
        (length tp.target.path < path_max) × All (λ dm. length dm.path < path_max) tp.dir_mtimes)
      s.targets

module _ {r : Regex} (world : PollWorld r) (path_max : ℕ) (steady : IsSteady world path_max) where
  scan_target-Fits :
      (t : ℕ) (tp : TargetPoll) (vcs_cache : VcsCache) (calls : List Call)
      → length tp.target.path < path_max
      → All (λ dm. length dm.path < path_max) tp.dir_mtimes
      → Sure
          (λ s'. All (λ dm. length dm.path < path_max) s'.dir_mtimes)
          (scan_target world t tp vcs_cache calls)
  unfolding scan_target
  scan_target-Fits t tp vcs_cache calls short fits =
      let env = world.env_at t tp.target in
      let size : env.platform.path_max ≡ path_max = steady.one_size t tp.target in
      let own : env.target ≡ tp.target = steady.own_target t tp.target in
      subst
        (λ n.
          Sure (λ s'. All (λ dm. length dm.path < n) s'.dir_mtimes)
            (scan_target world t tp vcs_cache calls))
        size
        (poll_scan_target-Fits env world.scan_fuel _ (steady.fits t tp.target)
          (omega (arith, short, size, ap (λ target. length target.path) own))
          (omega (arith, size, steady.fuel))
          (subst (λ n. All (λ dm. length dm.path < n) tp.dir_mtimes) (sym size) fits))

  scan_targets-PathsFit :
      (t : ℕ) (todo : List TargetPoll) (vcs_cache : VcsCache) (calls : List Call)
      → PathsFit path_max (record { targets = todo; vcs_cache = vcs_cache; calls = calls })
      → Sure (PathsFit path_max) (scan_targets world t todo vcs_cache calls)
  unfolding scan_targets
  scan_targets-PathsFit t [] vcs_cache calls fits = tt
  scan_targets-PathsFit t (tp ∷ todo) vcs_cache calls ((short, here), there) =
      let (after, done, fits') =
        Sure-some (scan_target world t tp vcs_cache calls)
          (scan_target-Fits t tp vcs_cache calls short here) in
      let (others, rest, fit) =
        Sure-some (scan_targets world t todo after.vcs_cache after.calls)
          (scan_targets-PathsFit t todo after.vcs_cache after.calls there) in
      rw (done, rest, scan_targets) ((short, fits'), fit)

  pub scan_round-PathsFit :
      (t : ℕ) (s : PollState)
      → PathsFit path_max s
      → Sure (PathsFit path_max) (scan_round world t s)
  unfolding scan_round
  scan_round-PathsFit t s fits = scan_targets-PathsFit t s.targets s.vcs_cache s.calls fits
