-- ===== src/Core/Lifetime.antt =====
-- core/swatcher.c: a watcher from `swatcher_create_with_backend` to `swatcher_destroy`.
use swatcher.Base.{◌≡◌, refl, sym, ◌∙◌, Option, none, some, Bytes, Bool-cases, inl, inr}
use swatcher.Types.{Config, Error}
use swatcher.Pattern.Compile.{Regex}
use swatcher.Core.World.{Resource, World, sw_malloc, sw_free, sw_alloc_clear, fail}
use swatcher.Core.Holdings.{SameHoldings, SameHoldings-trans, IsPaired, holding, sw_free-holding}
use swatcher.Core.Lifecycle.{
  Backend, Watcher, Setting, install, choose, pre_install, swatcher_create_with_backend,
  swatcher_start, swatcher_stop, remove_all, swatcher_cleanup, swatcher_destroy,
}
use swatcher.Core.Init.{IsTidy, ready, install-g_alloc, install-IsPaired, install-live}
use swatcher.Core.Made.{
  fresh, allocated, pre_install-live, Made, create-Made, Made-SameHoldings, Made-g_alloc,
}

module _ {r : Regex} {D : Type 0} (setting : Setting r D) where
  -- The destruction of a watcher without a thread and without targets.
  abbrev pub closing : Backend r D → D → World → World
  closing b d v = sw_alloc_clear (
      sw_free Resource.watcher (sw_free Resource.internal (sw_free Resource.mutex (b.destroy d v))))

  -- What a start holds is given back by the stop.
  stop-start :
      (c : Config) (b : Backend r D) (d : D) (v : World)
      → IsPaired v.g_alloc
      → (u : World) × SameHoldings u v
        × (let begun = swatcher_start setting (some (fresh setting c b d)) v in
            swatcher_destroy (some begun.1) begun.2 ≡ closing b d u)
  unfolding swatcher_start swatcher_stop swatcher_destroy swatcher_cleanup remove_all fail sw_malloc
  stop-start c b d v paired = elim (Bool-cases (setting.gives Resource.thread)) [
    | inl got ↦ (
      sw_free Resource.thread (holding Resource.thread v),
      sw_free-holding Resource.thread v (holding Resource.thread v) paired (refl, refl, refl),
      rw (got, swatcher_start, sw_malloc) refl,
    )
    | inr missing ↦
        (fail Error.thread v, (refl, refl, refl), rw (missing, swatcher_start, sw_malloc) refl)
  ]

  -- The destruction up to the watcher's own memory.
  pub closing_internal :
      (c : Config) (b : Backend r D) (d : D) (u v : World)
      → IsPaired c.allocator
      → IsTidy b
      → (b.init c (ready setting c u)).0 ≡ some d
      → SameHoldings v (b.init c (ready setting c u)).1
      → SameHoldings
          (sw_free Resource.internal (sw_free Resource.mutex (b.destroy d v)))
          (install setting c u)
  closing_internal c b d u v paired tidy start same =
      let u' = install setting c u in
      let p' = install-IsPaired setting c u paired in
      let gone = tidy.destroyed c d (ready setting c u) v p' start same in
      let no_mutex = sw_free-holding Resource.mutex (holding Resource.internal u') _ p' gone in
      sw_free-holding Resource.internal u' _ p' no_mutex

  closing_lem :
      (c : Config) (b : Backend r D) (d : D) (w v : World)
      → IsPaired c.allocator
      → (pre_install setting (some c) w).g_alloc ≡ c.allocator
      → IsTidy b
      → (b.init c (ready setting c (allocated setting c w))).0 ≡ some d
      → SameHoldings v (b.init c (ready setting c (allocated setting c w))).1
      → ((closing b d v).live ≡ w.live)
        × ((closing b d v).misfreed ≡ w.misfreed)
        × ((closing b d v).g_alloc ≡ none)
  unfolding sw_alloc_clear
  closing_lem c b d w v paired at tidy start same =
      let u = allocated setting c w in
      let inner = closing_internal c b d u v paired tidy start same in
      let kept = install-live setting c u in
      let g = inner.2 ∙ install-g_alloc setting c u ∙ sym at in
      let no_watcher =
        sw_free-holding Resource.watcher (pre_install setting (some c) w) _ (rw at paired)
          (inner.0 ∙ kept.0, inner.1 ∙ kept.1, g) in
      let first = pre_install-live setting c w in
      (no_watcher.0 ∙ first.0, no_watcher.1 ∙ first.1, refl)

  destroy-Made :
      (c : Config) (w v : World) (sw : Watcher r D)
      → IsPaired c.allocator
      → (pre_install setting (some c) w).g_alloc ≡ c.allocator
      → Made setting c (allocated setting c w) sw v
      → let begun = swatcher_start setting (some sw) v in
        let left = swatcher_destroy (some begun.1) begun.2 in
        (left.live ≡ w.live) × (left.misfreed ≡ w.misfreed) × (left.g_alloc ≡ none)
  destroy-Made c w v sw paired at made =
      let (b, d, start, same_v, same_sw, tidy) = made in
      let u = allocated setting c w in
      let (t, same, closed) = stop-start c b d v (rw (Made-g_alloc setting c u v sw made) paired) in
      let kept =
        SameHoldings-trans t v (b.init c (ready setting c u)).1 same
          (Made-SameHoldings setting c u v sw made) in
      rw (same_sw, closed) (closing_lem c b d w t paired at tidy start kept)

  -- A watcher that is created, started (the thread may fail to come up) and destroyed gives back all
  -- that it took, frees nothing wrongly and leaves no allocator installed, if the configuration's
  -- allocator has both functions or neither, the backend is tidy, no target was added, and the
  -- allocator in use during the watcher's own allocation is the configuration's.
  pub swatcher_destroy-create :
      (c : Config) (name : Option Bytes) (w v : World) (sw : Watcher r D)
      → IsPaired c.allocator
      → (pre_install setting (some c) w).g_alloc ≡ c.allocator
      → ((b : Backend r D) → choose setting name ≡ some b → IsTidy b)
      → swatcher_create_with_backend setting (some c) name w ≡ (some sw, v)
      → let begun = swatcher_start setting (some sw) v in
        let left = swatcher_destroy (some begun.1) begun.2 in
        (left.live ≡ w.live) × (left.misfreed ≡ w.misfreed) × (left.g_alloc ≡ none)
  swatcher_destroy-create c name w v sw paired at tidy h =
      destroy-Made c w v sw paired at (create-Made setting c name w v sw paired tidy h)
