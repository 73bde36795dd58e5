-- ===== src/Inotify/Frees.antt =====
-- backend/backend_inotify.c: the removal of a directory's watches leaves the allocator.
use swatcher.Base.{
  ◌≡◌, refl, ◌∙◌, Option, none, some, List, [], ◌∷◌, Bytes, Bool-cases, Option-cases, inl, inr,
  hash_find,
}
use swatcher.Platform.{Platform}
use swatcher.Types.{Target}
use swatcher.Pattern.Compile.{Regex}
use swatcher.Core.World.{Resource, World, sw_free}
use swatcher.Core.Holdings.{sw_free-g_alloc}
use swatcher.Core.Targets.{TargetInternal, sw_find_target_internal, sw_target_internal_destroy}
use swatcher.Core.Lifecycle.{free_target}
use swatcher.Inotify.Watches.{
  WatchEntry, watch_key, Watching, is_below, join_path, forget_internal, remove_child, remove_below,
  inotify_remove_children, remove_own, remove_directory, inotify_handle_dynamic_rmdir,
}

pub free_target-g_alloc : (w : World) → (free_target w).g_alloc ≡ w.g_alloc
free_target-g_alloc w =
    sw_free-g_alloc Resource.target (sw_free Resource.target_path w)
    ∙ sw_free-g_alloc Resource.target_path w

module _ {r : Regex} where
  forget_internal-g_alloc :
      (ti : Option (TargetInternal r)) (s : Watching r)
      → (forget_internal ti s).world.g_alloc ≡ s.world.g_alloc
  unfolding forget_internal sw_target_internal_destroy
  forget_internal-g_alloc none s = refl
  forget_internal-g_alloc (some ti) s = sw_free-g_alloc Resource.target_internal s.world

  remove_child-g_alloc :
      (e : WatchEntry) (s : Watching r) → (remove_child e s).world.g_alloc ≡ s.world.g_alloc
  unfolding remove_child
  remove_child-g_alloc e s =
      sw_free-g_alloc Resource.watch _
      ∙ free_target-g_alloc _
      ∙ forget_internal-g_alloc (sw_find_target_internal s.targets e.target.path) _

  remove_below-g_alloc :
      (dir : Bytes) (todo : List WatchEntry) (s : Watching r)
      → (remove_below dir todo s).world.g_alloc ≡ s.world.g_alloc
  unfolding remove_below
  remove_below-g_alloc dir [] s = refl
  remove_below-g_alloc dir (e ∷ todo) s = elim (Bool-cases (is_below dir e.target.path)) [
    | inl below ↦
        rw (below, remove_below)
          (remove_below-g_alloc dir todo (remove_child e s) ∙ remove_child-g_alloc e s)
    | inr apart ↦ rw (apart, remove_below) (remove_below-g_alloc dir todo s)
  ]

  remove_own-g_alloc :
      (ti : TargetInternal r) (s : Watching r) → (remove_own ti s).world.g_alloc ≡ s.world.g_alloc
  unfolding remove_own sw_target_internal_destroy
  remove_own-g_alloc ti s =
      sw_free-g_alloc Resource.target_internal _
      ∙ free_target-g_alloc _
      ∙ (elim (Option-cases (hash_find watch_key ti.of_target.path s.data_.wd_to_target)) [
        | inl absent ↦ rw absent refl
        | inr (e, found) ↦ rw found (sw_free-g_alloc Resource.watch s.world)
      ])

  pub inotify_handle_dynamic_rmdir-g_alloc :
      (p : Platform) (parent : Target) (name : Bytes) (s : Watching r)
      → (inotify_handle_dynamic_rmdir p parent name s).world.g_alloc ≡ s.world.g_alloc
  unfolding inotify_handle_dynamic_rmdir remove_directory inotify_remove_children
  inotify_handle_dynamic_rmdir-g_alloc p parent name s =
      let dir = join_path p parent.path name in
      let s' = remove_below dir s.data_.wd_to_target s in
      elim (Option-cases (sw_find_target_internal s'.targets dir)) [
        | inl absent ↦
            rw (absent, remove_directory) (remove_below-g_alloc dir s.data_.wd_to_target s)
        | inr (ti, found) ↦
            rw (found, remove_directory)
              (remove_own-g_alloc ti s' ∙ remove_below-g_alloc dir s.data_.wd_to_target s)
      ]
