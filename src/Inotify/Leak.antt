-- ===== src/Inotify/Leak.antt =====
-- backend/backend_inotify.c: what is held after an entry of a directory was added or refused.
use mathlib.Core.Path.{subst}
use swatcher.Base.{
  ◌≡◌, refl, sym, ap, ◌∙◌, ◌⊎◌, inl, inr, Bool, true, false, Option, none, some, ◌∷◌, Bytes, arith,
  is_some, hash_add, ◌+◌,
}
use swatcher.Types.{Target, Error}
use swatcher.Pattern.Compile.{Regex}
use swatcher.Core.World.{Resource, Block, World, same, malloc_owner, free_owner, sw_free}
use swatcher.Core.Holdings.{SameHoldings, IsPaired, holding, sw_free-second}
use swatcher.Core.Targets.{TargetInternal, swatcher_target_create}
use swatcher.Core.Creation.{TargetOutcome, with_target, target_error, swatcher_target_create_lem}
use swatcher.Core.Lifecycle.{free_target}
use swatcher.Inotify.Watches.{Watching, WatchEnv, keep_watch, ask, inotify_add_single}
use swatcher.Inotify.Agree.{IsAgreed}
use swatcher.Inotify.Single.{AddOutcome, refused_data, inotify_add_single_lem}
use swatcher.Inotify.Recursive.{child_desc, add_single, keep_or_free, add_created, add_child}

abbrev block : Resource → World → Block
block resource w = record { resource = resource; owner = malloc_owner w.g_alloc }

-- The target and its path are freed, its internal struct stays.
free_target-with_target :
    (r : Regex) (env : WatchEnv) (w v : World)
    → IsPaired w.g_alloc
    → SameHoldings v (with_target r env.system w)
    → SameHoldings (free_target v) (holding Resource.target_internal w)
unfolding same
free_target-with_target r env w v paired (live, misfreed, g_alloc) =
    let internal = block Resource.target_internal w in
    let owner : malloc_owner w.g_alloc ≡ free_owner v.g_alloc =
      paired ∙ ap free_owner (sym g_alloc) in
    let first : sw_free Resource.target_path v
        ≡ record v { live = internal ∷ block Resource.target w ∷ w.live } =
      sw_free-second Resource.target_path v internal (block Resource.target w ∷ w.live) refl (
        live
        ∙ ap
            (λ o.
              internal
              ∷ record { resource = Resource.target_path; owner = o }
              ∷ block Resource.target w
              ∷ w.live)
            owner) in
    let second : free_target v ≡ record v { live = internal ∷ w.live } =
      ap (sw_free Resource.target) first
      ∙ sw_free-second Resource.target
          (record v { live = internal ∷ block Resource.target w ∷ w.live }) internal w.live refl
          (ap (λ o. internal ∷ record { resource = Resource.target; owner = o } ∷ w.live) owner) in
    rw second (refl, misfreed, g_alloc)

module _ {r : Regex} (env : WatchEnv) where
  -- No target could be made, and nothing changes but the last error; or the target was refused, and
  -- only its internal struct is held; or it is added, with all its blocks and that of its watch.
  abbrev pub ChildOutcome : Target → Bytes → Watching r → Watching r → Type 0
  ChildOutcome parent name s s' =
      let (made, w) =
        swatcher_target_create r env.system (some (child_desc env parent name)) s.world in
      ((made ≡ none)
        × (s'.data_ ≡ s.data_)
        × (s'.targets ≡ s.targets)
        × SameHoldings s'.world s.world)
      ⊎ (((ti : TargetInternal r) × (made ≡ some ti)
            × ((inotify_add_single env ti.of_target (some ti) (record s { world = w })).0 ≡ false)
            × (s'.data_ ≡ refused_data env ti.of_target s)
            × (s'.targets ≡ s.targets)
            × SameHoldings s'.world (holding Resource.target_internal s.world))
          ⊎ ((ti : TargetInternal r) × (made ≡ some ti)
              × (s'.targets ≡ hash_add s.targets ti)
              × (s'.data_.watch_count ≡ s.data_.watch_count + 1)
              × (s'.world ≡ holding Resource.watch (with_target r env.system s.world))))

  add_created_lem :
      (parent : Target) (name : Bytes) (s : Watching r) (ti : TargetInternal r) (w : World)
      (done : Bool × Watching r)
      → IsPaired s.world.g_alloc
      → w ≡ with_target r env.system s.world
      → inotify_add_single env ti.of_target (some ti) (record s { world = w }) ≡ done
      → swatcher_target_create r env.system (some (child_desc env parent name)) s.world
        ≡ (some ti, w)
      → AddOutcome env ti.of_target (some ti) (record s { world = w }) done
      → ChildOutcome parent name s (keep_or_free env done)
  unfolding keep_or_free keep_watch ask
  add_created_lem parent name s ti w (false, s') paired here tried made
        (data_, targets, held, error, agreed) =
      inr (
        inl (
          ti,
          ap (λ m. m.0) made,
          ap (λ d. d.0)
              (ap (λ m. inotify_add_single env ti.of_target (some ti) (record s { world = m.1 }))
                  made
                ∙ tried),
          data_,
          targets,
          free_target-with_target r env s.world s'.world paired
              (subst (λ x. SameHoldings s'.world x) here held),
        ))
  add_created_lem parent name s ti w (true, s') paired here tried made
        (wd, x, new, data_, targets, own, path, world, agreed) =
      inr (
        inr (
          ti,
          ap (λ m. m.0) made,
          targets ∙ ap (hash_add s.targets) own,
          rw data_ refl,
          world ∙ ap (holding Resource.watch) here,
        ))

  add_made :
      (parent : Target) (name : Bytes) (s : Watching r) (made : Option (TargetInternal r) × World)
      (e : Option Error)
      → IsPaired s.world.g_alloc
      → IsAgreed s.data_ s.targets
      → swatcher_target_create r env.system (some (child_desc env parent name)) s.world ≡ made
      → TargetOutcome r env.system (some (child_desc env parent name)) s.world made e
      → (s' : Watching r) × (add_created env (add_single env) made s ≡ some s')
        × ChildOutcome parent name s s'
  unfolding add_created add_single
  add_made parent name s (none, w) (some e) paired agreed made (missing, error, held) =
      (record s { world = w }, refl, inl (ap (λ m. m.0) made, refl, refl, held))
  add_made parent name s (some ti, w) (some e) paired agreed made (missing, error, held) = cc
  add_made parent name s (none, w) none paired agreed made (d, path, info, h0, h1, h2, done) =
      absurd (cc (ap (λ m. is_some m.0) done))
  add_made parent name s (some ti, w) none paired agreed made (d, path, info, h0, h1, h2, done) =
      let here : w ≡ with_target r env.system s.world = ap (λ m. m.1) done in
      (
        _,
        refl,
        add_created_lem parent name s ti w _ paired here refl made (
            inotify_add_single_lem env ti.of_target (some ti) (record s { world = w })
              (rw here paired) agreed (λ x same. ground (arith, same))),
      )

  -- The addition of an entry that is no directory returns, with one of the three outcomes. When its
  -- target is refused, the block of the target's internal struct stays held and nothing points to it.
  -- The tables belonged together, and the allocator has both functions or neither.
  pub add_child_lem :
      (parent : Target) (name : Bytes) (s : Watching r)
      → IsPaired s.world.g_alloc
      → IsAgreed s.data_ s.targets
      → (s' : Watching r) × (add_child env (add_single env) parent name s ≡ some s')
        × ChildOutcome parent name s s'
  unfolding add_child
  add_child_lem parent name s paired agreed =
      let desc = some (child_desc env parent name) in
      add_made parent name s _ (target_error r env.system desc) paired agreed refl
        (swatcher_target_create_lem r env.system desc s.world paired)
