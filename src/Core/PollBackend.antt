-- ===== src/Core/PollBackend.antt =====
-- backend/backend_poll.c: `poll_init` and `poll_destroy`, as a backend of the watcher.
use mathlib.Core.Path.{subst}
use swatcher.Base.{
  ◌≡◌, refl, sym, ap, ◌∙◌, ◌++◌, List, map, Bool, true, false, Bool-cases, Option, none, some, [],
  ◌∷◌, arith, inl, inr, codes,
}
use swatcher.Types.{Config, Target}
use swatcher.Pattern.Compile.{Regex}
use swatcher.Poll.Thread.{SwatcherPoll}
use swatcher.Core.World.{Resource, World, sw_malloc, sw_free}
use swatcher.Core.Targets.{TargetInternal}
use swatcher.Core.Holdings.{SameHoldings, IsPaired, holding, sw_free-holding}
use swatcher.Core.Release.{frees, IsMadeOf, Holds, frees-Holds, frees-append}
use swatcher.Core.Lifecycle.{Backend, Shared}
use swatcher.Core.Init.{IsTidy}

-- The memory of the targets' snapshots is not followed.
unfoldable pub free_targets : SwatcherPoll → World → World
free_targets [] w = w
free_targets (tp ∷ p) w = free_targets p (sw_free Resource.watch w)

unfoldable pub poll_destroy : SwatcherPoll → World → World
unfolding free_targets
poll_destroy p w = sw_free Resource.backend_data (free_targets p w)

free_targets-frees :
    (p : SwatcherPoll) (w : World) → free_targets p w ≡ frees (map (λ tp. Resource.watch) p) w
unfolding free_targets
free_targets-frees [] w = refl
free_targets-frees (tp ∷ p) w = free_targets-frees p (sw_free Resource.watch w)

-- The destruction of the poll backend with any table of targets: one block for each target and the
-- block of the table, allocated in any order, are all given back, nothing else is freed, and nothing
-- is freed that is not held. The allocator has both functions or neither.
pub poll_destroy_lem :
    (p : SwatcherPoll) (rs : List Resource) (w v : World)
    → IsPaired w.g_alloc
    → IsMadeOf (map (λ tp. Resource.watch) p ++ Resource.backend_data ∷ []) rs
    → Holds rs w v
    → SameHoldings (poll_destroy p v) w
unfolding poll_destroy
poll_destroy_lem p rs w v paired made holds =
    let kinds = map (λ tp. Resource.watch) p in
    let freed : frees (kinds ++ Resource.backend_data ∷ []) v ≡ poll_destroy p v =
      frees-append kinds (Resource.backend_data ∷ []) v
      ∙ ap (sw_free Resource.backend_data) (sym (free_targets-frees p v)) in
    let left = frees-Holds (kinds ++ Resource.backend_data ∷ []) rs [] w v paired made holds in
    subst (λ u. SameHoldings u w) freed (left.blocks, left.misfreed, left.g_alloc)

module _ (gives : Resource → Bool) where
  unfoldable pub poll_init : Config → World → Option SwatcherPoll × World
  poll_init config w = elim (sw_malloc gives Resource.backend_data w) [
    | none ↦ (none, w)
    | some w' ↦ (some [], w')
  ]

  poll_init-got :
      (config : Config) (w : World)
      → gives Resource.backend_data ≡ true
      → poll_init config w ≡ (some [], holding Resource.backend_data w)
  unfolding poll_init sw_malloc
  poll_init-got config w got = rw (got, poll_init, sw_malloc) refl

  poll_init-missing :
      (config : Config) (w : World)
      → gives Resource.backend_data ≡ false
      → poll_init config w ≡ (none, w)
  unfolding poll_init sw_malloc
  poll_init-missing config w missing = rw (missing, poll_init, sw_malloc) refl

  module _ {r : Regex}
      (add_target : TargetInternal r → Shared r SwatcherPoll → Bool × Shared r SwatcherPoll)
      (remove_target : Target
        → Option (TargetInternal r)
        → Shared r SwatcherPoll
        → Bool × Shared r SwatcherPoll)
      (add_target_recursive : Bool
        → TargetInternal r
        → Shared r SwatcherPoll
        → Bool × Shared r SwatcherPoll) where
    abbrev pub poll_backend : Backend r SwatcherPoll
    poll_backend = record {
      name = codes "poll";
      init = poll_init;
      destroy = poll_destroy;
      add_target = add_target;
      remove_target = remove_target;
      add_target_recursive = add_target_recursive;
    }

    -- The poll backend keeps the watcher's contract, whatever its operations on targets do: a start that
    -- fails holds nothing, no start changes the allocator, and its destruction straight after
    -- a start gives back what the start took.
    pub poll_backend-IsTidy : IsTidy poll_backend
    unfolding poll_destroy
    poll_backend-IsTidy = record {
      failed = λ config w paired h. elim (Bool-cases (gives Resource.backend_data)) [
        | inl got ↦ absurd (cc (ap (λ p. p.0) (poll_init-got config w got), h))
        | inr missing ↦ rw (poll_init-missing config w missing) (refl, refl, refl)
      ];
      started = λ config w. elim (Bool-cases (gives Resource.backend_data)) [
        | inl got ↦ rw (poll_init-got config w got) refl
        | inr missing ↦ rw (poll_init-missing config w missing) refl
      ];
      destroyed = λ config d w v paired h same. elim (Bool-cases (gives Resource.backend_data)) [
        | inl got ↦
            let empty : [] ≡ d = ground (arith, ap (λ p. p.0) (poll_init-got config w got), h) in
            rw (← empty) (
              sw_free-holding Resource.backend_data w v paired
                (subst (SameHoldings v) (ap (λ p. p.1) (poll_init-got config w got)) same))
        | inr missing ↦ absurd (cc (ap (λ p. p.0) (poll_init-missing config w missing), h))
      ];
    }
