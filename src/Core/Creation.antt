-- ===== src/Core/Creation.antt =====
-- core/target.c: what `swatcher_target_create` returns, the error that it sets, and what it holds
-- afterwards.
use swatcher.Base.{
  ◌≡◌, refl, ◌∙◌, ◌&&◌, Option, none, some, Bytes, Bool-cases, Option-cases, inl, inr,
  if◌then◌else◌,
}
use swatcher.Platform.{FileInfo}
use swatcher.Types.{TargetDesc, Error}
use swatcher.Pattern.Compile.{Regex}
use swatcher.Core.World.{Resource, World, sw_malloc, sw_free, fail}
use swatcher.Core.Targets.{
  TargetInternal, TargetSystem, compile, sw_target_internal_create, new_target, finish_target,
  fill_target, swatcher_target_create,
}
use swatcher.Core.Holdings.{SameHoldings, IsPaired, holding, sw_free-holding, sw_free-last_error}

module _ (r : Regex) (os : TargetSystem) where
  -- The checks in their order, and the error of the first that fails.
  abbrev pub target_error : Option TargetDesc → Option Error
  target_error none = some Error.null_arg
  target_error (some desc) =
      if os.gives Resource.target
      then elim (os.normalize desc.path desc.follow_symlinks) [
        | none ↦ some Error.invalid_path
        | some path ↦ elim (os.stat path desc.follow_symlinks) [
          | none ↦ some Error.path_not_found
          | some info ↦
              if os.gives Resource.target_path && os.gives Resource.target_internal
              then none
              else some Error.alloc
        ]
      ]
      else some Error.alloc

  -- A failure with this error, after which nothing more is held than before.
  abbrev pub Refused : Error → World → Option (TargetInternal r) × World → Type 0
  Refused e w result = (result.0 ≡ none) × (result.1.last_error ≡ e) × SameHoldings result.1 w

  -- The three blocks of a target.
  abbrev pub with_target : World → World
  with_target w =
      holding Resource.target_internal (holding Resource.target_path (holding Resource.target w))

  abbrev pub TargetOutcome :
      Option TargetDesc → World → Option (TargetInternal r) × World → Option Error → Type 0
  TargetOutcome desc w result (some e) = Refused e w result
  TargetOutcome desc w result none =
      (d : TargetDesc) × (path : Bytes) × (info : FileInfo) × (desc ≡ some d)
      × (os.normalize d.path d.follow_symlinks ≡ some path)
      × (os.stat path d.follow_symlinks ≡ some info)
      × (result ≡ (
        some (record {
          of_target = new_target r os d path info;
          compiled_callback = compile r os d.callback_patterns;
          compiled_watch = compile r os d.watch_patterns;
          compiled_ignore = compile r os d.ignore_patterns;
        }),
        with_target w,
      ))

  undo_target :
      (w v : World) (e : Error)
      → IsPaired w.g_alloc
      → SameHoldings v (holding Resource.target w)
      → v.last_error ≡ e
      → Refused e w (none, sw_free Resource.target v)
  undo_target w v e paired same error = (
    refl,
    sw_free-last_error Resource.target v ∙ error,
    sw_free-holding Resource.target w v paired same,
  )

  -- The world in which the internal struct could not be had.
  abbrev no_internal : World → World
  no_internal w = fail Error.alloc (holding Resource.target_path (holding Resource.target w))

  -- What follows a successful look at the file.
  finish_lem :
      (d : TargetDesc) (w : World) (path : Bytes) (info : FileInfo)
      → IsPaired w.g_alloc
      → os.normalize d.path d.follow_symlinks ≡ some path
      → os.stat path d.follow_symlinks ≡ some info
      → TargetOutcome (some d) w (fill_target r os d (holding Resource.target w)) (
          if os.gives Resource.target_path && os.gives Resource.target_internal
          then none
          else some Error.alloc)
  unfolding fill_target finish_target sw_target_internal_create sw_malloc fail new_target
  finish_lem d w path info paired named found = elim (Bool-cases (os.gives Resource.target_path)) [
    | inl got ↦ elim (Bool-cases (os.gives Resource.target_internal)) [
      | inl both ↦
          rw
            (
              named, found, got, both, fill_target, finish_target, sw_target_internal_create,
              sw_malloc,
            )
            (d, path, info, refl, named, found, refl)
      | inr h ↦
          rw
            (named, found, got, h, fill_target, finish_target, sw_target_internal_create, sw_malloc)
            (undo_target w _ Error.alloc paired
              (sw_free-holding Resource.target_path (holding Resource.target w) (no_internal w)
                paired (refl, refl, refl))
              (sw_free-last_error Resource.target_path (no_internal w)))
    ]
    | inr h ↦
        rw (named, found, h, fill_target, sw_malloc)
          (undo_target w (fail Error.alloc (holding Resource.target w)) Error.alloc paired
            (refl, refl, refl) refl)
  ]

  fill_lem :
      (d : TargetDesc) (w : World)
      → IsPaired w.g_alloc
      → TargetOutcome
          (some d)
          w
          (fill_target r os d (holding Resource.target w))
          (elim (os.normalize d.path d.follow_symlinks) [
            | none ↦ some Error.invalid_path
            | some path ↦ elim (os.stat path d.follow_symlinks) [
              | none ↦ some Error.path_not_found
              | some info ↦
                  if os.gives Resource.target_path && os.gives Resource.target_internal
                  then none
                  else some Error.alloc
            ]
          ])
  unfolding fill_target fail
  fill_lem d w paired = elim (Option-cases (os.normalize d.path d.follow_symlinks)) [
    | inl h ↦
        rw (h, fill_target)
          (undo_target w (fail Error.invalid_path (holding Resource.target w)) Error.invalid_path
            paired (refl, refl, refl) refl)
    | inr (path, named) ↦ elim (Option-cases (os.stat path d.follow_symlinks)) [
      | inl h ↦
          rw (named, h, fill_target)
            (undo_target w (fail Error.path_not_found (holding Resource.target w))
              Error.path_not_found paired (refl, refl, refl) refl)
      | inr (info, found) ↦ rw (named, found) (finish_lem d w path info paired named found)
    ]
  ]

  -- With an allocator that has both functions or neither, a target is refused exactly if one of the
  -- checks fails: no description, no memory, no normalised path, no such file, no memory for the path or
  -- for the internal struct. Then the error is the first failing check's, and nothing more is held than
  -- before. Otherwise it has the normalised path, the file's kind, the description's fields and its
  -- compiled lists, its three blocks are held, and the last error is left as it was.
  pub swatcher_target_create_lem :
      (desc : Option TargetDesc) (w : World)
      → IsPaired w.g_alloc
      → TargetOutcome desc w (swatcher_target_create r os desc w) (target_error desc)
  unfolding swatcher_target_create sw_malloc fail
  swatcher_target_create_lem none w paired = (refl, refl, (refl, refl, refl))
  swatcher_target_create_lem (some d) w paired = elim (Bool-cases (os.gives Resource.target)) [
    | inl got ↦ rw (got, swatcher_target_create, sw_malloc) (fill_lem d w paired)
    | inr h ↦ rw (h, swatcher_target_create, sw_malloc) (refl, refl, (refl, refl, refl))
  ]
