-- ===== src/Inotify/Growth.antt =====
-- backend/backend_inotify.c: whatever is added, the tables belong together.
use swatcher.Base.{
  ◌≡◌, ap, ℕ, zero, suc, Bool, true, false, not, ◌&&◌, ◌||◌, Option, none, some, List, [], ◌∷◌,
  Bytes, codes, arith, Within, Within->>=, Within-if, str_eq, is_some, Option-cases, inl, inr,
}
use swatcher.Platform.{DirEntry}
use swatcher.Types.{Target, TargetDesc, Error}
use swatcher.Pattern.Compile.{Regex, sw_pattern_matched}
use swatcher.Core.World.{World}
use swatcher.Core.Holdings.{IsPaired}
use swatcher.Core.Targets.{TargetInternal, sw_find_target_internal}
use swatcher.Core.Creation.{TargetOutcome, target_error, swatcher_target_create_lem}
use swatcher.Core.Lifecycle.{watch_files, watch_symlinks}
use swatcher.Inotify.Watches.{Watching, WatchEnv, join_path}
use swatcher.Inotify.Frees.{free_target-g_alloc}
use swatcher.Inotify.Agree.{IsAgreed}
use swatcher.Inotify.Single.{AddOutcome, inotify_add_single_lem}
use swatcher.Inotify.Recursive.{
  watch_directories, wants, unmatched, child_desc, Attempt, add_single, keep_or_free, add_created,
  add_child, skip_self, add_followed, add_entry, visit_entry, visit_all, add_self, walk,
  inotify_add_recursive_locked, inotify_handle_dynamic_mkdir,
}

module _ {r : Regex} (env : WatchEnv) where
  -- What every operation keeps.
  abbrev pub Kept : Watching r → Type 0
  Kept s = IsPaired s.world.g_alloc × IsAgreed s.data_ s.targets

  abbrev Done : Bool × Watching r → Type 0
  Done done = Kept done.1

  abbrev Keeps : Attempt r → Type 0
  Keeps attempt = (ti : TargetInternal r) (s : Watching r) → Kept s → Within Done (attempt ti s)

  outcome-Kept :
      (target : Target) (ti : TargetInternal r) (s : Watching r) (done : Bool × Watching r)
      → Kept s
      → AddOutcome env target (some ti) s done
      → Kept done.1
  outcome-Kept target ti s (false, s') (paired, agreed)
        (data_, targets, (_, _, same), error, agreed') =
      (rw same paired, agreed')
  outcome-Kept target ti s (true, s') (paired, agreed)
        (wd, x, new, data_, targets, own, path, world, agreed') =
      (rw world paired, agreed')

  add_single-Keeps : Keeps (add_single env)
  unfolding add_single
  add_single-Keeps ti s (paired, agreed) =
      outcome-Kept ti.of_target ti s _ (paired, agreed)
        (inotify_add_single_lem env ti.of_target (some ti) s paired agreed
          (λ x same. ground (arith, same)))

  keep_or_free-Kept : (done : Bool × Watching r) → Kept done.1 → Kept (keep_or_free env done)
  unfolding keep_or_free
  keep_or_free-Kept (true, s) kept = kept
  keep_or_free-Kept (false, s) (paired, agreed) = (rw (free_target-g_alloc s.world) paired, agreed)

  add_created-Kept :
      (attempt : Attempt r) (made : Option (TargetInternal r) × World) (s : Watching r)
      → Keeps attempt
      → Kept s
      → made.1.g_alloc ≡ s.world.g_alloc
      → Within Kept (add_created env attempt made s)
  unfolding add_created
  add_created-Kept attempt (none, w) s keeps (paired, agreed) same = (rw same paired, agreed)
  add_created-Kept attempt (some ti, w) s keeps (paired, agreed) same =
      Within->>= Kept (attempt ti (record s { world = w })) (λ done. some (keep_or_free env done))
        (keeps ti (record s { world = w }) (rw same paired, agreed)) keep_or_free-Kept

  made-g_alloc :
      (d : Option TargetDesc) (w : World) (made : Option (TargetInternal r) × World)
      (e : Option Error)
      → TargetOutcome r env.system d w made e
      → made.1.g_alloc ≡ w.g_alloc
  made-g_alloc d w made none (desc, path, info, h0, h1, h2, done) = ap (λ m. m.1.g_alloc) done
  made-g_alloc d w made (some e) (missing, error, (live, misfreed, same)) = same

  add_child-Kept :
      (attempt : Attempt r) (parent : Target) (name : Bytes) (s : Watching r)
      → Keeps attempt
      → Kept s
      → Within Kept (add_child env attempt parent name s)
  unfolding add_child
  add_child-Kept attempt parent name s keeps (paired, agreed) =
      let desc = child_desc env parent name in
      add_created-Kept attempt _ s keeps (paired, agreed)
        (made-g_alloc (some desc) s.world _ (target_error r env.system (some desc))
          (swatcher_target_create_lem r env.system (some desc) s.world paired))

  add_followed-Keeps :
      (parent : Target) (recurse : Bool → Attempt r)
      → ((skip : Bool) → Keeps (recurse skip))
      → Keeps (add_followed env parent recurse)
  unfolding add_followed
  add_followed-Keeps parent recurse keeps ti s kept =
      Within-if Done ti.of_target.is_file _ _
        (Within-if Done (wants watch_files parent) (add_single env ti s) (some (false, s))
          (add_single-Keeps ti s kept) kept)
        (Within-if Done (wants watch_directories parent) (recurse false ti s) (some (false, s))
          (keeps false ti s kept) kept)

  add_entry-Kept :
      (recurse : Bool → Attempt r) (parent : TargetInternal r) (entry : DirEntry) (s : Watching r)
      → ((skip : Bool) → Keeps (recurse skip))
      → Kept s
      → Within Kept (add_entry env recurse parent entry s)
  unfolding add_entry
  add_entry-Kept recurse parent entry s keeps kept =
      let leaf =
        add_child-Kept (add_single env) parent.of_target entry.name s add_single-Keeps kept in
      Within-if Kept entry.is_dir _ _
        (Within-if Kept (str_eq entry.name (codes ".") || str_eq entry.name (codes "..")) _ _ kept (
          add_child-Kept (recurse (skip_self env parent entry.name)) parent.of_target entry.name s
            (keeps (skip_self env parent entry.name)) kept))
        (Within-if Kept entry.is_file _ _
          (Within-if Kept (wants watch_files parent.of_target) _ (some s) leaf kept)
          (Within-if Kept entry.is_symlink _ _
            (Within-if Kept parent.of_target.follow_symlinks _ _
              (add_child-Kept (add_followed env parent.of_target recurse) parent.of_target
                entry.name s (add_followed-Keeps parent.of_target recurse keeps) kept)
              (Within-if Kept (wants watch_symlinks parent.of_target) _ (some s) leaf kept))
            kept))

  visit_all-Kept :
      (recurse : Bool → Attempt r) (parent : TargetInternal r) (entries : List DirEntry)
      (s : Watching r)
      → ((skip : Bool) → Keeps (recurse skip))
      → Kept s
      → Within Kept (visit_all env recurse parent entries s)
  unfolding visit_all visit_entry
  visit_all-Kept recurse parent [] s keeps kept = kept
  visit_all-Kept recurse parent (entry ∷ entries) s keeps kept =
      Within->>= Kept (visit_entry env recurse parent entry s)
        (visit_all env recurse parent entries)
        (Within-if Kept (sw_pattern_matched r parent.compiled_ignore (some entry.name)) (some s) _
          kept
          (Within-if Kept (unmatched env parent entry.name && not entry.is_dir) (some s) _ kept
            (add_entry-Kept recurse parent entry s keeps kept)))
        (λ s' kept'. visit_all-Kept recurse parent entries s' keeps kept')

  walk-Keeps :
      (recurse : Bool → Attempt r) (skip : Bool)
      → ((inner : Bool) → Keeps (recurse inner))
      → Keeps (walk env recurse skip)
  unfolding walk add_self
  walk-Keeps recurse skip keeps ti s kept =
      Within-if Done ti.of_target.is_file _ _ (add_single-Keeps ti s kept)
        (elim (Option-cases (env.platform.dir_open ti.of_target.path)) [
          | inl closed ↦ rw (closed) kept
          | inr (entries, opened) ↦ rw (opened) (
              Within->>= Done (visit_all env recurse ti entries s) (add_self env skip ti)
                (visit_all-Kept recurse ti entries s keeps kept)
                (λ s' kept'.
                  Within-if Done skip (some (true, s')) (add_single env ti s') kept'
                    (add_single-Keeps ti s' kept')))
        ])

  -- The recursive addition of a target, if the fuel is enough, leaves tables that belong together.
  inotify_add_recursive_locked-IsAgreed :
      (fuel : ℕ) (skip : Bool) (ti : TargetInternal r) (s : Watching r)
      → IsPaired s.world.g_alloc × IsAgreed s.data_ s.targets
      → Within
          (λ done. IsPaired done.1.world.g_alloc × IsAgreed done.1.data_ done.1.targets)
          (inotify_add_recursive_locked env fuel skip ti s)
  unfolding inotify_add_recursive_locked
  inotify_add_recursive_locked-IsAgreed zero skip ti s kept = tt
  inotify_add_recursive_locked-IsAgreed (suc fuel) skip ti s kept =
      walk-Keeps (λ inner. inotify_add_recursive_locked env fuel inner) skip
        (λ inner. inotify_add_recursive_locked-IsAgreed fuel inner) ti s kept

  -- So it is for a directory that appears while its parent is watched.
  pub inotify_handle_dynamic_mkdir-IsAgreed :
      (fuel : ℕ) (parent : Target) (name : Bytes) (s : Watching r)
      → Kept s
      → Within Kept (inotify_handle_dynamic_mkdir env fuel parent name s)
  unfolding inotify_handle_dynamic_mkdir sw_find_target_internal
  inotify_handle_dynamic_mkdir-IsAgreed fuel parent name s kept =
      Within-if Kept parent.is_recursive _ (some s)
        (Within-if Kept
          (is_some (sw_find_target_internal s.targets (join_path env.platform parent.path name)))
          (some s) _ kept
          (add_child-Kept (inotify_add_recursive_locked env fuel false) parent name s
            (inotify_add_recursive_locked-IsAgreed fuel false) kept))
        kept
