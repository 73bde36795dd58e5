-- ===== src/Core/Stale.antt =====
-- core/swatcher.c: a watcher without an allocator of its own, created while another one's allocator is
-- still installed.
use swatcher.Base.{◌≡◌, refl, ap, ◌∙◌, true, Option, none, some, ◌∷◌, Bytes}
use swatcher.Types.{Config, Allocator}
use swatcher.Pattern.Compile.{Regex}
use swatcher.Core.World.{
  Resource, World, same, same_owner, malloc_owner, free_owner, take_back, sw_free, sw_alloc_clear,
}
use swatcher.Core.Holdings.{IsPaired, holding, sw_free-missing}
use swatcher.Core.Lifecycle.{
  Backend, Watcher, Setting, choose, pre_install, swatcher_create_with_backend, swatcher_stop,
  remove_all, swatcher_cleanup, swatcher_destroy,
}
use swatcher.Core.Init.{IsTidy, install-g_alloc, install-live}
use swatcher.Core.Made.{fresh, allocated, create-Made, pre_install-live, Made-SameHoldings}
use swatcher.Core.Lifetime.{closing, closing_internal}

module _ {r : Regex} {D : Type 0} (setting : Setting r D) where
  -- The watcher's block, from the stale allocator, is not among the C library's.
  stale_watcher :
      (c : Config) (w x : World) (a : Allocator)
      → c.allocator ≡ none
      → w.g_alloc ≡ some a
      → a.has_malloc ≡ true
      → take_back Resource.watcher none w.live ≡ none
      → x.g_alloc ≡ none
      → x.live ≡ (allocated setting c w).live
      → take_back Resource.watcher (free_owner x.g_alloc) x.live ≡ none
  unfolding take_back same same_owner pre_install
  stale_watcher c w x a bare stale own absent now live =
      let owner : malloc_owner w.g_alloc ≡ some a.id = rw (stale, own, malloc_owner) refl in
      let pre : pre_install setting (some c) w ≡ w = rw (bare, pre_install) refl in
      let block : x.live ≡ record { resource = Resource.watcher; owner = some a.id } ∷ w.live =
        live
        ∙ ap (λ p. (holding Resource.watcher p).live) pre
        ∙ ap (λ o. record { resource = Resource.watcher; owner = o } ∷ w.live) owner in
      ap (λ g. take_back Resource.watcher (free_owner g) x.live) now
      ∙ ap (take_back Resource.watcher none) block
      ∙ rw (absent, take_back) refl

  destroy-fresh :
      (c : Config) (b : Backend r D) (d : D) (v : World)
      → swatcher_destroy (some (some (fresh setting c b d))) v ≡ closing setting b d v
  unfolding swatcher_stop swatcher_destroy swatcher_cleanup remove_all
  destroy-fresh c b d v = refl

  -- If an allocator is installed, with its `malloc`, while a watcher is created whose configuration has
  -- none, and no other watcher's memory is the C library's, then destroying it, the backend being tidy,
  -- frees the watcher with another allocator than it was allocated with.
  pub swatcher_destroy-create_stale :
      (c : Config) (name : Option Bytes) (w v : World) (sw : Watcher r D) (a : Allocator)
      → c.allocator ≡ none
      → w.g_alloc ≡ some a
      → a.has_malloc ≡ true
      → take_back Resource.watcher none w.live ≡ none
      → ((b : Backend r D) → choose setting name ≡ some b → IsTidy b)
      → swatcher_create_with_backend setting (some c) name w ≡ (some sw, v)
      → (swatcher_destroy (some (some sw)) v).misfreed ≡ Resource.watcher ∷ w.misfreed
  unfolding sw_alloc_clear pre_install
  swatcher_destroy-create_stale c name w v sw a bare stale own absent tidy h =
      let u = allocated setting c w in
      let paired : IsPaired c.allocator = rw bare refl in
      let made = create-Made setting c name w v sw paired tidy h in
      let (b, d, start, same_v, same_sw, tidy_b) = made in
      let inner =
        closing_internal setting c b d u v paired tidy_b start
          (Made-SameHoldings setting c u v sw made) in
      let kept = install-live setting c u in
      let x = sw_free Resource.internal (sw_free Resource.mutex (b.destroy d v)) in
      let lost = sw_free-missing Resource.watcher x (
        stale_watcher c w x a bare stale own absent (inner.2 ∙ install-g_alloc setting c u ∙ bare)
          (inner.0 ∙ kept.0)) in
      rw (same_sw, destroy-fresh c b d v)
        (lost
          ∙ ap (λ m. Resource.watcher ∷ m) (inner.1 ∙ kept.1 ∙ (pre_install-live setting c w).1))
