-- ===== src/Core/Holdings.antt =====
-- What a world holds: an allocation and the free that undoes it.
use swatcher.Base.{
  ◌≡◌, refl, sym, ap, ◌∙◌, ℕ, Bool, true, false, Option, none, some, List, ◌∷◌, arith, Option-cases,
  inl, inr,
}
use swatcher.Types.{Allocator}
use swatcher.Core.World.{
  Resource, Block, World, same, same_owner, malloc_owner, free_owner, sw_malloc, take_back, sw_free,
}

-- The two worlds hold the same blocks, have freed the same blocks wrongly and use the same allocator;
-- their last errors can differ.
abbrev pub SameHoldings : World → World → Type 0
SameHoldings w v = (w.live ≡ v.live) × (w.misfreed ≡ v.misfreed) × (w.g_alloc ≡ v.g_alloc)

-- What is allocated is freed by the same allocator.
abbrev pub IsPaired : Option Allocator → Type 0
IsPaired a = malloc_owner a ≡ free_owner a

pub SameHoldings-trans : (u v w : World) → SameHoldings u v → SameHoldings v w → SameHoldings u w
SameHoldings-trans u v w h k = (h.0 ∙ k.0, h.1 ∙ k.1, h.2 ∙ k.2)

same_refl : (r : Resource) → same r r ≡ true
unfolding same
same_refl Resource.watcher = refl
same_refl Resource.internal = refl
same_refl Resource.mutex = refl
same_refl Resource.thread = refl
same_refl Resource.backend_data = refl
same_refl Resource.target = refl
same_refl Resource.target_path = refl
same_refl Resource.target_internal = refl
same_refl Resource.watch = refl
same_refl Resource.pending_event = refl
same_refl Resource.pending_move = refl

same_owner_refl : (o : Option ℕ) → same_owner o o ≡ true
unfolding same_owner
same_owner_refl none = refl
same_owner_refl (some a) = ground arith

-- The world after an allocation that succeeds.
abbrev pub holding : Resource → World → World
holding r w = record w { live = record { resource = r; owner = malloc_owner w.g_alloc } ∷ w.live }

pub sw_malloc-holding :
    (gives : Resource → Bool) (r : Resource) (w v : World)
    → sw_malloc gives r w ≡ some v
    → holding r w ≡ v
unfolding sw_malloc
sw_malloc-holding gives r w v h = ground arith

pub sw_free-newest :
    (r : Resource) (v : World) (rest : List Block)
    → v.live ≡ record { resource = r; owner = free_owner v.g_alloc } ∷ rest
    → sw_free r v ≡ record v { live = rest }
unfolding sw_free take_back
sw_free-newest r v rest h =
    let same_r : same r r ≡ true = same_refl r in
    let same_o : same_owner (free_owner v.g_alloc) (free_owner v.g_alloc) ≡ true =
      same_owner_refl (free_owner v.g_alloc) in
    ground arith

-- A free passes over a block of another kind.
pub sw_free-second :
    (r : Resource) (v : World) (newest : Block) (rest : List Block)
    → same newest.resource r ≡ false
    → v.live ≡ newest ∷ record { resource = r; owner = free_owner v.g_alloc } ∷ rest
    → sw_free r v ≡ record v { live = newest ∷ rest }
unfolding sw_free take_back
sw_free-second r v newest rest other h =
    let same_r : same r r ≡ true = same_refl r in
    let same_o : same_owner (free_owner v.g_alloc) (free_owner v.g_alloc) ≡ true =
      same_owner_refl (free_owner v.g_alloc) in
    ground arith

-- A free after an allocation of the same kind, with no difference between the two.
pub sw_free-holding :
    (r : Resource) (w v : World)
    → IsPaired w.g_alloc
    → SameHoldings v (holding r w)
    → SameHoldings (sw_free r v) w
sw_free-holding r w v paired (live, misfreed, g_alloc) =
    let owner : malloc_owner w.g_alloc ≡ free_owner v.g_alloc =
      paired ∙ ap free_owner (sym g_alloc) in
    let newest : v.live ≡ record { resource = r; owner = free_owner v.g_alloc } ∷ w.live =
      live ∙ ap (λ o. record { resource = r; owner = o } ∷ w.live) owner in
    rw (sw_free-newest r v w.live newest) (refl, misfreed, g_alloc)

pub sw_free-last_error : (r : Resource) (w : World) → (sw_free r w).last_error ≡ w.last_error
unfolding sw_free
sw_free-last_error r w = elim (Option-cases (take_back r (free_owner w.g_alloc) w.live)) [
  | inl h ↦ rw (h, sw_free) refl
  | inr (live, h) ↦ rw (h, sw_free) refl
]

pub sw_free-g_alloc : (r : Resource) (w : World) → (sw_free r w).g_alloc ≡ w.g_alloc
unfolding sw_free
sw_free-g_alloc r w = elim (Option-cases (take_back r (free_owner w.g_alloc) w.live)) [
  | inl h ↦ rw (h, sw_free) refl
  | inr (live, h) ↦ rw (h, sw_free) refl
]

-- A free of what is not held, or is held from another allocator.
pub sw_free-missing :
    (r : Resource) (v : World)
    → take_back r (free_owner v.g_alloc) v.live ≡ none
    → (sw_free r v).misfreed ≡ r ∷ v.misfreed
unfolding sw_free
sw_free-missing r v h = rw (h, sw_free) refl
