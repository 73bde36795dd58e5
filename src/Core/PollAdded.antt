-- ===== src/Core/PollAdded.antt =====
-- backend/backend_poll.c: what `poll_add_target` comes to.
use swatcher.Base.{
  ◌≡◌, refl, sym, ap, ◌∙◌, ◌≤◌, ◌<◌, Bool, true, false, Option, none, some, List, [], ◌∷◌, ◌++◌,
  Bytes, length, any, map, append-nil, arith, Bool-cases, Option-cases, inl, inr, is_some,
  if◌then◌else◌, Sure, str_eq, hash_find, hash_add, IsKeyed, IsKeyed-hash_add, is_some-hash_find,
  map-hash_add, hash_del-middle,
}
use swatcher.Types.{Target, Error}
use swatcher.Pattern.Compile.{Regex}
use swatcher.Rescan.Fuel.{FitsPaths}
use swatcher.Poll.State.{FileSnapshot, TargetPatterns}
use swatcher.Poll.Initial.{poll_initial_snapshot}
use swatcher.Poll.InitialFuel.{poll_initial_snapshot-is_some}
use swatcher.Poll.Thread.{TargetPoll, SwatcherPoll}
use swatcher.Core.World.{Resource, World, sw_malloc, fail}
use swatcher.Core.Holdings.{SameHoldings, IsPaired, holding, sw_free-holding, sw_free-last_error}
use swatcher.Core.Targets.{
  TargetInternal, internal_key, sw_find_target_internal, sw_add_target_internal,
  sw_target_internal_create,
}
use swatcher.Core.Lifecycle.{Shared}
use swatcher.Core.PollTargets.{poll_key, patterns_of, PollEnv, add_snapshots, poll_add_target}

-- No path stands twice among the scanned targets, and they are the watcher's.
pub record IsTabled {r : Regex} (p : SwatcherPoll) (targets : List (TargetInternal r))
    : Type 0 where
  pub keyed : IsKeyed poll_key p
  pub same_paths : map poll_key p ≡ map internal_key targets

-- The scans of a target look at the target, with names that are not empty and no subdirectory of a
-- directory whose path fills the buffer; the path fits in it, and the fuel is the buffer's size.
pub record IsScannable {r : Regex} (env : PollEnv r) (target : Target)
    (patterns : Option (TargetPatterns r)) : Type 0 where
  pub own_target : (env.scan_env target patterns).target ≡ target
  pub fits : FitsPaths (env.scan_env target patterns).platform
  pub short : length target.path < (env.scan_env target patterns).platform.path_max
  pub fuel : (env.scan_env target patterns).platform.path_max ≤ env.fuel

module _ {r : Regex} (env : PollEnv r) where
  unscanned :
      (p : SwatcherPoll) (targets : List (TargetInternal r)) (k : Bytes)
      → IsTabled p targets
      → hash_find internal_key k targets ≡ none
      → hash_find poll_key k p ≡ none
  unscanned p targets k tabled new =
      let same =
        is_some-hash_find poll_key k p
        ∙ ap (any (λ x. str_eq x k)) tabled.same_paths
        ∙ sym (is_some-hash_find internal_key k targets) in
      elim (Option-cases (hash_find poll_key k p)) [
        | inl fresh ↦ fresh
        | inr (tp, h) ↦ absurd (cc (ap is_some h, same, ap is_some new))
      ]

  -- The last error after a refusal; when no internal struct can be made, none is set.
  abbrev pub refusal : Target → Shared r SwatcherPoll → Error
  refusal target s =
      if is_some (hash_find internal_key target.path s.targets)
      then Error.target_exists
      else if env.system.gives Resource.watch
      then s.world.last_error
      else Error.alloc

  -- A refusal changes nothing but the last error. Otherwise the path is new, and the target stands at the
  -- ends of the tables with its first snapshot.
  abbrev pub AddOutcome :
      Target
      → Option (TargetInternal r)
      → Shared r SwatcherPoll
      → Bool × Shared r SwatcherPoll
      → Type 0
  AddOutcome target given s (false, s') =
      (s'.data_ ≡ s.data_)
      × (s'.targets ≡ s.targets)
      × SameHoldings s'.world s.world
      × (s'.world.last_error ≡ refusal target s)
  AddOutcome target given s (true, s') =
      (snapshots : List FileSnapshot) × (ti : TargetInternal r) × (poll_initial_snapshot
          (env.scan_env target (patterns_of given)) env.fuel
        ≡ some snapshots)
      × (hash_find internal_key target.path s.targets ≡ none)
      × (s'.data_
          ≡ hash_add s.data_ (record { target = target; snapshots = snapshots; dir_mtimes = [] }))
      × (s'.targets ≡ hash_add s.targets ti)
      × IsTabled s'.data_ s'.targets

  added-IsTabled :
      (tp : TargetPoll) (ti : TargetInternal r) (p : SwatcherPoll)
      (targets : List (TargetInternal r))
      → IsTabled p targets
      → hash_find poll_key tp.target.path p ≡ none
      → ti.of_target.path ≡ tp.target.path
      → IsTabled (hash_add p tp) (hash_add targets ti)
  added-IsTabled tp ti p targets tabled fresh own = record {
    keyed = IsKeyed-hash_add poll_key p tp fresh tabled.keyed;
    same_paths =
        map-hash_add poll_key p tp
        ∙ ap (λ paths. paths ++ tp.target.path ∷ []) tabled.same_paths
        ∙ ap (λ path. map internal_key targets ++ path ∷ []) (sym own)
        ∙ sym (map-hash_add internal_key targets ti);
  }

  created_path :
      (target : Target) (w v : World) (ti : TargetInternal r)
      → sw_target_internal_create r env.system target w ≡ some (ti, v)
      → ti.of_target.path ≡ target.path
  unfolding sw_target_internal_create
  created_path target w v ti h = ground arith

  add_snapshots-AddOutcome :
      (target : Target) (ti : Option (TargetInternal r)) (snapshots : List FileSnapshot)
      (s : Shared r SwatcherPoll)
      → IsPaired s.world.g_alloc
      → IsTabled s.data_ s.targets
      → ((x : TargetInternal r) → ti ≡ some x → x.of_target.path ≡ target.path)
      → poll_initial_snapshot (env.scan_env target (patterns_of ti)) env.fuel ≡ some snapshots
      → hash_find internal_key target.path s.targets ≡ none
      → env.system.gives Resource.watch ≡ true
      → AddOutcome target ti s (
          add_snapshots env target ti snapshots
            (record s { world = holding Resource.watch s.world }))
  unfolding add_snapshots sw_add_target_internal
  add_snapshots-AddOutcome target (some x) snapshots s paired tabled own scanned new got = (
    snapshots,
    x,
    scanned,
    new,
    refl,
    refl,
    added-IsTabled _ x s.data_ s.targets tabled (unscanned s.data_ s.targets target.path tabled new)
        (own x refl),
  )
  add_snapshots-AddOutcome target none snapshots s paired tabled own scanned new got =
      let held = holding Resource.watch s.world in
      let fresh = unscanned s.data_ s.targets target.path tabled new in
      let tp : TargetPoll = record { target = target; snapshots = snapshots; dir_mtimes = [] } in
      elim (Option-cases (sw_target_internal_create r env.system target held)) [
        | inl missing ↦
            rw (missing, add_snapshots)
              (
                hash_del-middle poll_key s.data_ [] tp fresh ∙ append-nil s.data_,
                refl,
                sw_free-holding Resource.watch s.world held paired (refl, refl, refl),
                sw_free-last_error Resource.watch held ∙ rw (new, got) refl,
              )
        | inr ((x, w), made) ↦
            rw (made, add_snapshots)
              (
                snapshots,
                x,
                scanned,
                new,
                refl,
                refl,
                added-IsTabled tp x s.data_ s.targets tabled fresh
                    (created_path target held w x made),
              )
      ]

  first_snapshot :
      (target : Target) (patterns : Option (TargetPatterns r))
      → IsScannable env target patterns
      → (snapshots : List FileSnapshot) × (poll_initial_snapshot
            (env.scan_env target patterns)
            env.fuel
          ≡ some snapshots)
  first_snapshot target patterns scannable =
      let scan = env.scan_env target patterns in
      let ends =
        poll_initial_snapshot-is_some scan env.fuel scannable.fits
          (omega (arith, scannable.short, ap (λ t. length t.path) scannable.own_target))
          scannable.fuel in
      elim (Option-cases (poll_initial_snapshot scan env.fuel)) [
        | inl stuck ↦ absurd (cc (ends, ap is_some stuck))
        | inr done ↦ done
      ]

  -- The addition of a target to the poll backend returns; it refuses with the error of the first check
  -- that fails, or with the error as it was when only the internal struct cannot be made, and changes
  -- nothing else; or adds the target with its first snapshot to tables that belong
  -- together. They did before, the target can be scanned, the internal struct is the target's, and the
  -- allocator has both functions or neither.
  pub poll_add_target_lem :
      (target : Target) (ti : Option (TargetInternal r)) (s : Shared r SwatcherPoll)
      → IsScannable env target (patterns_of ti)
      → IsPaired s.world.g_alloc
      → IsTabled s.data_ s.targets
      → ((x : TargetInternal r) → ti ≡ some x → x.of_target.path ≡ target.path)
      → Sure (AddOutcome target ti s) (poll_add_target env target ti s)
  unfolding poll_add_target sw_malloc sw_find_target_internal fail
  poll_add_target_lem target ti s scannable paired tabled own =
      elim (Option-cases (hash_find internal_key target.path s.targets)) [
        | inr (x, old) ↦
            rw (old, poll_add_target, sw_find_target_internal)
              (refl, refl, (refl, refl, refl), rw old refl)
        | inl new ↦ elim (Bool-cases (env.system.gives Resource.watch)) [
          | inr missing ↦
              rw (new, missing, poll_add_target, sw_find_target_internal, sw_malloc)
                (refl, refl, (refl, refl, refl), rw (new, missing) refl)
          | inl got ↦
              let (snapshots, scanned) = first_snapshot target (patterns_of ti) scannable in
              rw (new, got, scanned, poll_add_target, sw_find_target_internal, sw_malloc)
                (add_snapshots-AddOutcome target ti snapshots s paired tabled own scanned new got)
        ]
      ]
