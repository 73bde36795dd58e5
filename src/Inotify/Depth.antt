-- ===== src/Inotify/Depth.antt =====
-- backend/backend_inotify.c: how deep `inotify_add_recursive_locked` goes.
use swatcher.Base.{
  ◌≡◌, refl, ap, ℕ, zero, suc, ◌<◌, Bool, true, false, not, ◌&&◌, ◌||◌, Option, none, some, List,
  [], ◌∷◌, Bytes, codes, arith, if◌then◌else◌, is_some->>=, is_some-if, In, str_eq, is_some,
  Option-cases, inl, inr,
}
use swatcher.Platform.{DirEntry}
use swatcher.Types.{Target, TargetDesc}
use swatcher.Pattern.Compile.{Regex, sw_pattern_matched}
use swatcher.Core.World.{World, sw_malloc}
use swatcher.Core.Targets.{
  TargetInternal, TargetSystem, sw_target_internal_create, new_target, finish_target, fill_target,
  swatcher_target_create,
}
use swatcher.Core.Lifecycle.{watch_files, watch_symlinks}
use swatcher.Inotify.Watches.{Watching, WatchEnv, join_path}
use swatcher.Inotify.Recursive.{
  wants, unmatched, child_desc, Attempt, add_single, keep_or_free, add_created, add_child,
  skip_self, add_followed, add_entry, visit_entry, visit_all, add_self, walk,
  inotify_add_recursive_locked,
}

abbrev is_dots : Bytes → Bool
is_dots name = str_eq name (codes ".") || str_eq name (codes "..")

-- The entries that are walked into.
abbrev pub is_walked : Bool → DirEntry → Bool
is_walked follow entry =
    if entry.is_dir then not (is_dots entry.name) else (entry.is_symlink && follow)

-- Each directory below another, or behind a link that is followed, has a smaller number.
abbrev pub Descends : WatchEnv → (Bytes → ℕ) → Type 0
Descends env rank =
    (dir : Bytes) (entries : List DirEntry) (entry : DirEntry) (follow : Bool) (path : Bytes)
    → env.platform.dir_open dir ≡ some entries
    → In entry entries
    → is_walked follow entry ≡ true
    → env.system.normalize (join_path env.platform dir entry.name) follow ≡ some path
    → rank path < rank dir

-- The path of a target that was made.
created_path :
    (r : Regex) (os : TargetSystem) (d : TargetDesc) (w v : World) (ti : TargetInternal r)
    → swatcher_target_create r os (some d) w ≡ (some ti, v)
    → os.normalize d.path d.follow_symlinks ≡ some ti.of_target.path
unfolding swatcher_target_create fill_target finish_target sw_target_internal_create new_target
    sw_malloc
created_path r os d w v ti h = ground arith

-- The number of an entry's target is below `n`.
abbrev pub Lower : WatchEnv → (Bytes → ℕ) → ℕ → Target → Bytes → Type 0
Lower env rank n parent name =
    (path : Bytes)
    → env.system.normalize (join_path env.platform parent.path name) parent.follow_symlinks
      ≡ some path
    → rank path < n

module _ {r : Regex} (env : WatchEnv) (rank : Bytes → ℕ) where
  -- The attempt has a result for the targets whose number is below `n`.
  abbrev pub Answers : ℕ → Attempt r → Type 0
  Answers n attempt =
      (ti : TargetInternal r) (s : Watching r)
      → rank ti.of_target.path < n
      → is_some (attempt ti s) ≡ true

  add_created-is_some :
      (attempt : Attempt r) (n : ℕ) (made : Option (TargetInternal r) × World) (s : Watching r)
      → Answers n attempt
      → ((ti : TargetInternal r) → made.0 ≡ some ti → rank ti.of_target.path < n)
      → is_some (add_created env attempt made s) ≡ true
  unfolding add_created
  add_created-is_some attempt n (none, w) s answers lower = refl
  add_created-is_some attempt n (some ti, w) s answers lower =
      is_some->>= (attempt ti (record s { world = w })) (λ done. some (keep_or_free env done))
        (answers ti (record s { world = w }) (lower ti refl)) (λ done. refl)

  pub add_child-is_some :
      (attempt : Attempt r) (n : ℕ) (parent : Target) (name : Bytes) (s : Watching r)
      → Answers n attempt
      → Lower env rank n parent name
      → is_some (add_child env attempt parent name s) ≡ true
  unfolding add_child child_desc
  add_child-is_some attempt n parent name s answers lower =
      let desc = child_desc env parent name in
      let made = swatcher_target_create r env.system (some desc) s.world in
      add_created-is_some attempt n made s answers (λ ti found.
        lower ti.of_target.path
          (created_path r env.system desc s.world made.1 ti (ap (λ o. (o, made.1)) found)))

  -- What is added without a walk has a result.
  leaf-is_some :
      (parent : Target) (name : Bytes) (s : Watching r)
      → is_some (add_child env (add_single env) parent name s) ≡ true
  unfolding add_child add_created add_single
  leaf-is_some parent name s =
      let made = swatcher_target_create r env.system (some (child_desc env parent name)) s.world in
      elim (Option-cases made.0) [ inl missing ↦ ground arith | inr (ti, found) ↦ ground arith ]

  add_followed-Answers :
      (n : ℕ) (parent : Target) (recurse : Bool → Attempt r)
      → Answers n (recurse false)
      → Answers n (add_followed env parent recurse)
  unfolding add_followed add_single
  add_followed-Answers n parent recurse answers ti s lt = ground (arith, answers ti s lt)

  add_entry-is_some :
      (recurse : Bool → Attempt r) (n : ℕ) (parent : TargetInternal r) (entry : DirEntry)
      (s : Watching r)
      → ((skip : Bool) → Answers n (recurse skip))
      → (is_walked parent.of_target.follow_symlinks entry ≡ true
          → Lower env rank n parent.of_target entry.name)
      → is_some (add_entry env recurse parent entry s) ≡ true
  unfolding add_entry
  add_entry-is_some recurse n parent entry s answers lower =
      let leaf = leaf-is_some parent.of_target entry.name s in
      is_some-if entry.is_dir _ _
        (λ dir.
          is_some-if (is_dots entry.name) _ _ (λ dots. refl)
            (λ named.
              add_child-is_some (recurse (skip_self env parent entry.name)) n parent.of_target
                entry.name s (answers (skip_self env parent entry.name))
                (lower (ground (arith, dir, named)))))
        (λ other.
          is_some-if entry.is_file _ _
            (λ file.
              is_some-if (wants watch_files parent.of_target) _ _ (λ wanted. leaf)
                (λ not_wanted. refl))
            (λ no_file.
              is_some-if entry.is_symlink _ _
                (λ link.
                  is_some-if parent.of_target.follow_symlinks _ _
                    (λ follow.
                      add_child-is_some (add_followed env parent.of_target recurse) n
                        parent.of_target entry.name s
                        (add_followed-Answers n parent.of_target recurse (answers false))
                        (lower (ground (arith, other, link, follow))))
                    (λ stay.
                      is_some-if (wants watch_symlinks parent.of_target) _ _ (λ wanted. leaf)
                        (λ not_wanted. refl)))
                (λ nothing. refl)))

  visit_all-is_some :
      (recurse : Bool → Attempt r) (n : ℕ) (parent : TargetInternal r) (entries : List DirEntry)
      (s : Watching r)
      → ((skip : Bool) → Answers n (recurse skip))
      → ((entry : DirEntry)
          → In entry entries
          → is_walked parent.of_target.follow_symlinks entry ≡ true
          → Lower env rank n parent.of_target entry.name)
      → is_some (visit_all env recurse parent entries s) ≡ true
  unfolding visit_all visit_entry
  visit_all-is_some recurse n parent [] s answers lower = refl
  visit_all-is_some recurse n parent (entry ∷ entries) s answers lower =
      is_some->>= (visit_entry env recurse parent entry s) (visit_all env recurse parent entries)
        (is_some-if (sw_pattern_matched r parent.compiled_ignore (some entry.name)) _ _
          (λ ignored. refl)
          (λ seen.
            is_some-if (unmatched env parent entry.name && not entry.is_dir) _ _ (λ other. refl)
              (λ matched.
                add_entry-is_some recurse n parent entry s answers (lower entry (inl refl)))))
        (λ s'.
          visit_all-is_some recurse n parent entries s' answers (λ e inside. lower e (inr inside)))

  walk-Answers :
      (recurse : Bool → Attempt r) (n : ℕ) (skip : Bool) (ti : TargetInternal r) (s : Watching r)
      → Descends env rank
      → ((inner : Bool) → Answers n (recurse inner))
      → rank ti.of_target.path < suc n
      → is_some (walk env recurse skip ti s) ≡ true
  unfolding walk add_self add_single
  walk-Answers recurse n skip ti s descends answers lt =
      is_some-if ti.of_target.is_file _ _ (λ file. refl)
        (λ directory. elim (Option-cases (env.platform.dir_open ti.of_target.path)) [
          | inl closed ↦ rw (closed) refl
          | inr (entries, opened) ↦ rw (opened) (
              is_some->>= (visit_all env recurse ti entries s) (add_self env skip ti)
                (visit_all-is_some recurse n ti entries s answers (λ entry inside walked path at.
                  omega (
                    arith,
                    descends ti.of_target.path entries entry ti.of_target.follow_symlinks path
                        opened inside walked at,
                    lt,
                  )))
                (λ s'. is_some-if skip _ (add_single env ti s') (λ skipped. refl) (λ added. refl)))
        ])

  -- Where the numbers of the directories fall on the way down, and behind the links that are followed,
  -- fuel above the number of the target is enough: the recursive addition returns.
  pub inotify_add_recursive_locked-is_some :
      (fuel : ℕ) (skip : Bool) (ti : TargetInternal r) (s : Watching r)
      → Descends env rank
      → rank ti.of_target.path < fuel
      → is_some (inotify_add_recursive_locked env fuel skip ti s) ≡ true
  unfolding inotify_add_recursive_locked
  inotify_add_recursive_locked-is_some zero skip ti s descends lt = absurd (omega (arith, lt))
  inotify_add_recursive_locked-is_some (suc fuel) skip ti s descends lt =
      walk-Answers (λ inner. inotify_add_recursive_locked env fuel inner) fuel skip ti s descends
        (λ inner ti' s' lower.
          inotify_add_recursive_locked-is_some fuel inner ti' s' descends lower)
        lt
