-- ===== src/Inotify/Cycle.antt =====
-- backend/backend_inotify.c: `inotify_add_recursive_locked` in a directory with a link to itself.
use swatcher.Base.{
  ◌≡◌, refl, sym, ap, ◌∙◌, ℕ, zero, suc, Bool, true, false, none, some, List, [], ◌∷◌, Bytes, arith,
  ◌>>=◌, In, inl, inr, Option-cases,
}
use swatcher.Platform.{FileInfo, DirEntry}
use swatcher.Pattern.Compile.{Regex, sw_patterns_compile, sw_pattern_matched}
use swatcher.Core.World.{Resource, World, sw_malloc}
use swatcher.Core.Creation.{with_target}
use swatcher.Core.Targets.{
  TargetInternal, compile, sw_target_internal_create, new_target, finish_target, fill_target,
  swatcher_target_create,
}
use swatcher.Inotify.Watches.{Watching, WatchEnv, join_path}
use swatcher.Inotify.Recursive.{
  child_desc, Attempt, keep_or_free, add_created, add_child, add_followed, add_entry, visit_entry,
  visit_all, walk, inotify_add_recursive_locked,
}

-- The entry of the directory is a link to the directory itself, which exists; the system has memory.
pub record LinksBack (env : WatchEnv) (dir : Bytes) (link : DirEntry) : Type 0 where
  pub is_link : link.is_symlink ≡ true
  pub is_no_dir : link.is_dir ≡ false
  pub is_no_file : link.is_file ≡ false
  pub listed :
      (entries : List DirEntry) × (env.platform.dir_open dir ≡ some entries) × In link entries
  pub resolved : env.system.normalize (join_path env.platform dir link.name) true ≡ some dir
  pub found : (info : FileInfo) × (env.system.stat dir true ≡ some info) × (info.is_file ≡ false)
  pub memory : (block : Resource) → env.system.gives block ≡ true

-- The target is the directory, with its links followed, everything in it watched and no pattern.
pub record WatchesAll {r : Regex} (dir : Bytes) (ti : TargetInternal r) : Type 0 where
  pub path : ti.of_target.path ≡ dir
  pub is_no_file : ti.of_target.is_file ≡ false
  pub follows : ti.of_target.follow_symlinks ≡ true
  pub all_kinds : ti.of_target.watch_options ≡ 0
  pub no_watch_list : ti.of_target.watch_patterns ≡ none
  pub no_ignore_list : ti.of_target.ignore_patterns ≡ none
  pub no_watch : ti.compiled_watch ≡ none
  pub no_ignore : ti.compiled_ignore ≡ none

module _ {r : Regex} (env : WatchEnv) (dir : Bytes) (link : DirEntry)
    (back : LinksBack env dir link) where
  abbrev again : TargetInternal r → FileInfo → TargetInternal r
  again ti info = record {
    of_target = new_target r env.system (child_desc env ti.of_target link.name) dir info;
    compiled_callback = compile r env.system ti.of_target.callback_patterns;
    compiled_watch = compile r env.system ti.of_target.watch_patterns;
    compiled_ignore = compile r env.system ti.of_target.ignore_patterns;
  }

  -- The target that is made for the link is the directory again.
  created_again :
      (ti : TargetInternal r) (w : World)
      → WatchesAll dir ti
      → swatcher_target_create r env.system (some (child_desc env ti.of_target link.name)) w
        ≡ (some (again ti back.found.0), with_target r env.system w)
  unfolding swatcher_target_create fill_target finish_target sw_target_internal_create sw_malloc
      child_desc new_target
  created_again ti w all =
      let (info, stats, no_file) = back.found in
      let desc = child_desc env ti.of_target link.name in
      let normal : env.system.normalize desc.path desc.follow_symlinks ≡ some dir =
        rw (all.path, all.follows) back.resolved in
      let seen : env.system.stat dir desc.follow_symlinks ≡ some info = rw all.follows stats in
      rw
        (
          back.memory Resource.target,
          normal,
          seen,
          back.memory Resource.target_path,
          back.memory Resource.target_internal,
          swatcher_target_create,
          fill_target,
          finish_target,
          sw_target_internal_create,
          sw_malloc,
        )
        refl

  again-WatchesAll :
      (ti : TargetInternal r) → WatchesAll dir ti → WatchesAll dir (again ti back.found.0)
  unfolding new_target child_desc sw_patterns_compile
  again-WatchesAll ti all =
      let (info, stats, no_file) = back.found in
      record {
        path = refl;
        is_no_file = no_file;
        follows = all.follows;
        all_kinds = all.all_kinds;
        no_watch_list = all.no_watch_list;
        no_ignore_list = all.no_ignore_list;
        no_watch = rw (all.no_watch_list, sw_patterns_compile) refl;
        no_ignore = rw (all.no_ignore_list, sw_patterns_compile) refl;
      }

  -- The walk by `recurse` has no result for such targets.
  abbrev Stuck : (Bool → Attempt r) → Type 0
  Stuck recurse =
      (skip : Bool) (ti : TargetInternal r) (s : Watching r)
      → WatchesAll dir ti
      → recurse skip ti s ≡ none

  add_child_stuck :
      (attempt : Attempt r) (ti : TargetInternal r) (s : Watching r)
      → ((x : TargetInternal r) (v : Watching r) → WatchesAll dir x → attempt x v ≡ none)
      → WatchesAll dir ti
      → add_child env attempt ti.of_target link.name s ≡ none
  unfolding add_child add_created
  add_child_stuck attempt ti s stuck all =
      ap (λ made. add_created env attempt made s) (created_again ti s.world all)
      ∙ ap (λ done. done >>= (λ result. some (keep_or_free env result)))
          (stuck (again ti back.found.0) _ (again-WatchesAll ti all))

  add_followed-Stuck :
      (recurse : Bool → Attempt r) (parent x : TargetInternal r) (s : Watching r)
      → Stuck recurse
      → WatchesAll dir parent
      → WatchesAll dir x
      → add_followed env parent.of_target recurse x s ≡ none
  unfolding add_followed
  add_followed-Stuck recurse parent x s stuck all next =
      ground (arith, next.is_no_file, all.all_kinds, stuck false x s next)

  visit_link :
      (recurse : Bool → Attempt r) (ti : TargetInternal r) (s : Watching r)
      → Stuck recurse
      → WatchesAll dir ti
      → visit_entry env recurse ti link s ≡ none
  unfolding visit_entry add_entry sw_pattern_matched
  visit_link recurse ti s stuck all =
      let blocked =
        add_child_stuck (add_followed env ti.of_target recurse) ti s
          (λ x v. add_followed-Stuck recurse ti x v stuck all) all in
      ground (
        arith, all.no_ignore, all.no_watch, back.is_no_dir, back.is_no_file, back.is_link,
        all.follows, blocked,
      )

  visit_all-Stuck :
      (recurse : Bool → Attempt r) (ti : TargetInternal r) (entries : List DirEntry)
      (s : Watching r)
      → Stuck recurse
      → WatchesAll dir ti
      → In link entries
      → visit_all env recurse ti entries s ≡ none
  unfolding visit_all
  visit_all-Stuck recurse ti [] s stuck all inside = absurd inside
  visit_all-Stuck recurse ti (entry ∷ entries) s stuck all (inl here) =
      rw (sym here, visit_link recurse ti s stuck all) refl
  visit_all-Stuck recurse ti (entry ∷ entries) s stuck all (inr later) =
      elim (Option-cases (visit_entry env recurse ti entry s)) [
        | inl h ↦ rw h refl
        | inr (s', h) ↦ rw h (visit_all-Stuck recurse ti entries s' stuck all later)
      ]

  -- Where links are followed, a directory that has a link to itself is walked without end: there is no
  -- fuel with which the recursive addition returns.
  pub inotify_add_recursive_locked_cycle :
      (fuel : ℕ) (skip : Bool) (ti : TargetInternal r) (s : Watching r)
      → WatchesAll dir ti
      → inotify_add_recursive_locked env fuel skip ti s ≡ none
  unfolding inotify_add_recursive_locked walk
  inotify_add_recursive_locked_cycle zero skip ti s all = refl
  inotify_add_recursive_locked_cycle (suc fuel) skip ti s all =
      let (entries, opened, inside) = back.listed in
      let inner : Stuck (λ b. inotify_add_recursive_locked env fuel b) =
        inotify_add_recursive_locked_cycle fuel in
      rw
        (
          all.is_no_file,
          all.path,
          opened,
          visit_all-Stuck (λ b. inotify_add_recursive_locked env fuel b) ti entries s inner all
              inside,
        )
        refl
