-- ===== src/Core/World.antt =====
-- internal/alloc.c, and what the library holds at a time: memory and handles, each with the allocator
-- that it came from.
use swatcher.Base.{
  ℕ, Bool, true, false, ◌&&◌, Option, none, some, List, [], ◌∷◌, ◌==◌, if◌then◌else◌,
}
use swatcher.Types.{Allocator, Error}

-- What a block of memory is for. A mutex and a thread are blocks with their handle in them; blocks of
-- one kind are not told apart.
pub data Resource : Type 0 where
  watcher internal mutex thread backend_data target target_path target_internal watch : Resource
  pending_event pending_move : Resource

unfoldable pub same : Resource → Resource → Bool
same Resource.watcher Resource.watcher = true
same Resource.internal Resource.internal = true
same Resource.mutex Resource.mutex = true
same Resource.thread Resource.thread = true
same Resource.backend_data Resource.backend_data = true
same Resource.target Resource.target = true
same Resource.target_path Resource.target_path = true
same Resource.target_internal Resource.target_internal = true
same Resource.watch Resource.watch = true
same Resource.pending_event Resource.pending_event = true
same Resource.pending_move Resource.pending_move = true
same r s = false

-- An allocator's number, or `none` for the C library's.
unfoldable pub same_owner : Option ℕ → Option ℕ → Bool
same_owner none none = true
same_owner (some a) (some b) = a == b
same_owner none (some b) = false
same_owner (some a) none = false

pub record Block : Type 0 where
  pub resource : Resource
  pub owner : Option ℕ

-- `g_alloc`, the thread's last error, the blocks that are held, and those that were given to the wrong
-- allocator or were not held when they were freed.
pub record World : Type 0 where
  pub g_alloc : Option Allocator
  pub last_error : Error
  pub live : List Block
  pub misfreed : List Resource

unfoldable pub sw_alloc_set : Allocator → World → World
sw_alloc_set a w = record w { g_alloc = some a }

unfoldable pub sw_alloc_clear : World → World
sw_alloc_clear w = record w { g_alloc = none }

-- `g_alloc && g_alloc->malloc`
abbrev pub malloc_owner : Option Allocator → Option ℕ
malloc_owner none = none
malloc_owner (some a) = if a.has_malloc then some a.id else none

-- `g_alloc && g_alloc->free`
abbrev pub free_owner : Option Allocator → Option ℕ
free_owner none = none
free_owner (some a) = if a.has_free then some a.id else none

-- `gives` says which allocations succeed.
unfoldable pub sw_malloc : (Resource → Bool) → Resource → World → Option World
sw_malloc gives resource w =
    if gives resource
    then some (record w {
      live = record { resource = resource; owner = malloc_owner w.g_alloc } ∷ w.live;
    })
    else none

-- The blocks without the newest one for this resource and owner.
unfoldable pub take_back : Resource → Option ℕ → List Block → Option (List Block)
take_back resource owner [] = none
take_back resource owner (b ∷ live) =
    if same b.resource resource && same_owner b.owner owner
    then some live
    else elim (take_back resource owner live) [ none ↦ none | some rest ↦ some (b ∷ rest) ]

unfoldable pub sw_free : Resource → World → World
sw_free resource w = elim (take_back resource (free_owner w.g_alloc) w.live) [
  | some live ↦ record w { live = live }
  | none ↦ record w { misfreed = resource ∷ w.misfreed }
]

-- `sw_set_error`
unfoldable pub fail : Error → World → World
fail err w = record w { last_error = err }
