-- ===== src/Inotify/Single.antt =====
-- backend/backend_inotify.c: what `inotify_add_single` comes to.
use mathlib.Core.Path.{subst}
use swatcher.Base.{
  ◌==◌, Bytes, ◌≡◌, refl, sym, ap, ◌∙◌, ◌⊎◌, ℕ, ◌+◌, ◌-◌, Bool, true, false, Option, none, some,
  List, [], ◌∷◌, ◌++◌, append-nil, arith, Bool-cases, Option-cases, inl, inr, is_some,
  if◌then◌else◌, hash_find, hash_add, hash_del, hash_del-middle,
}
use swatcher.Types.{Target, Error}
use swatcher.Pattern.Compile.{Regex}
use swatcher.Core.World.{Resource, World, sw_malloc, sw_free, fail}
use swatcher.Core.Holdings.{SameHoldings, IsPaired, holding, sw_free-holding, sw_free-last_error}
use swatcher.Core.Targets.{
  TargetInternal, internal_key, sw_find_target_internal, sw_add_target_internal,
  sw_target_internal_create,
}
use swatcher.Inotify.Masks.{events_to_inotify_mask}
use swatcher.Inotify.Watches.{
  WatchEntry, watch_key, WatchResult, watching, no_space, refused, SwatcherInotify, Watching,
  WatchEnv, has_wd, rm_watch, watch_wd, drop_watch, keep_watch, ask, attach, register,
  inotify_add_single,
}
use swatcher.Inotify.Agree.{
  IsAgreed, unwatched, ask-IsAgreed, rm_watch-IsAgreed, keep_watch-IsAgreed,
}

answer : (a : WatchResult) → ((wd : ℕ) × (a ≡ watching wd)) ⊎ ((a ≡ no_space) ⊎ (a ≡ refused))
answer (watching wd) = inl (wd, refl)
answer no_space = inr (inl refl)
answer refused = inr (inr refl)

rm_watch-append : (wd : ℕ) (kernel : List ℕ) → rm_watch wd (kernel ++ wd ∷ []) ≡ rm_watch wd kernel
unfolding rm_watch
rm_watch-append wd [] = ground arith
rm_watch-append wd (x ∷ kernel) = elim (Bool-cases (x == wd)) [
  | inl here ↦ rw here (rm_watch-append wd kernel)
  | inr other ↦ rw other (ap (◌∷◌ x) (rm_watch-append wd kernel))
]

rm_watch-watch_wd :
    (wd : ℕ) (kernel : List ℕ) → rm_watch wd (watch_wd wd kernel) ≡ rm_watch wd kernel
unfolding rm_watch watch_wd
rm_watch-watch_wd wd kernel = elim (Bool-cases (has_wd wd kernel)) [
  | inl had ↦ rw had refl
  | inr new ↦ rw new (rm_watch-append wd kernel)
]

-- A watch that is added and dropped again leaves the table as it was.
drop_watch-keep_watch :
    (e : WatchEntry) (ino : SwatcherInotify)
    → hash_find watch_key e.target.path ino.wd_to_target ≡ none
    → drop_watch e (keep_watch e ino) ≡ record ino { kernel = rm_watch e.wd ino.kernel }
unfolding drop_watch keep_watch
drop_watch-keep_watch e ino fresh =
    let table : hash_del watch_key e.target.path (hash_add ino.wd_to_target e) ≡ ino.wd_to_target =
      hash_del-middle watch_key ino.wd_to_target [] e fresh ∙ append-nil ino.wd_to_target in
    let kernel = rm_watch-watch_wd e.wd ino.kernel in
    let count : ino.watch_count + 1 - 1 ≡ ino.watch_count = omega arith in cc (table, count, kernel)

asked_table :
    (ino : SwatcherInotify) (k : Bytes)
    → hash_find watch_key k ino.wd_to_target ≡ none
    → hash_find watch_key k (ask ino).wd_to_target ≡ none
unfolding ask
asked_table ino k fresh = fresh

asked_kernel :
    (wd : ℕ) (ino : SwatcherInotify)
    → record (ask ino) { kernel = rm_watch wd (ask ino).kernel }
      ≡ record (ask ino) { kernel = rm_watch wd ino.kernel }
unfolding ask
asked_kernel wd ino = refl

module _ {r : Regex} (env : WatchEnv) where
  -- The last error after a refusal: the first check that fails. When no internal struct can be made, no
  -- error is set.
  abbrev pub refusal : Target → Watching r → Error
  refusal target s =
      if is_some (hash_find internal_key target.path s.targets)
      then Error.target_exists
      else if env.system.gives Resource.watch
      then elim (env.add_watch s.data_.asked target.path (events_to_inotify_mask target.events)) [
        | watching wd ↦ s.world.last_error
        | no_space ↦ Error.watch_limit
        | refused ↦ Error.backend_init
      ]
      else Error.alloc

  -- What is left of the watches after a refusal. Where the kernel gave a descriptor and no internal
  -- struct can be made, the kernel watches it no longer.
  abbrev pub refused_data : Target → Watching r → SwatcherInotify
  refused_data target s =
      if is_some (hash_find internal_key target.path s.targets)
      then s.data_
      else if env.system.gives Resource.watch
      then elim (env.add_watch s.data_.asked target.path (events_to_inotify_mask target.events)) [
        | watching wd ↦ record (ask s.data_) { kernel = rm_watch wd s.data_.kernel }
        | no_space ↦ ask s.data_
        | refused ↦ ask s.data_
      ]
      else s.data_

  -- The blocks of a watch, and of the internal struct if it is made.
  abbrev pub with_watch : Option (TargetInternal r) → World → World
  with_watch (some ti) w = holding Resource.watch w
  with_watch none w = holding Resource.target_internal (holding Resource.watch w)

  -- The internal struct is the one given, if there is one.
  abbrev pub IsOf : Option (TargetInternal r) → TargetInternal r → Type 0
  IsOf none ti = Unit
  IsOf (some given) ti = ti ≡ given

  -- A refusal changes neither the tables nor what is held, and sets the last error. Otherwise the path is new, and the watch that the
  -- kernel gave and the target's internal struct are added at the ends of the tables, which still belong
  -- together; the blocks of the two are held.
  abbrev pub AddOutcome :
      Target → Option (TargetInternal r) → Watching r → Bool × Watching r → Type 0
  AddOutcome target given s (false, s') =
      (s'.data_ ≡ refused_data target s)
      × (s'.targets ≡ s.targets)
      × SameHoldings s'.world s.world
      × (s'.world.last_error ≡ refusal target s)
      × IsAgreed s'.data_ s'.targets
  AddOutcome target given s (true, s') =
      (wd : ℕ) × (ti : TargetInternal r) × (hash_find internal_key target.path s.targets ≡ none)
      × (s'.data_ ≡ keep_watch (record { wd = wd; target = target }) (ask s.data_))
      × (s'.targets ≡ hash_add s.targets ti)
      × IsOf given ti
      × (ti.of_target.path ≡ target.path)
      × (s'.world ≡ with_watch given s.world)
      × IsAgreed s'.data_ s'.targets

  created_target :
      (target : Target) (w v : World) (ti : TargetInternal r)
      → sw_target_internal_create r env.system target w ≡ some (ti, v)
      → (ti.of_target.path ≡ target.path) × (v ≡ holding Resource.target_internal w)
  unfolding sw_target_internal_create sw_malloc
  created_target target w v ti h = ground arith

  -- What follows the kernel's answer, `v` being the world with the block of the entry.
  attach-AddOutcome :
      (wd : ℕ) (target : Target) (ti : Option (TargetInternal r)) (s : Watching r)
      → IsPaired s.world.g_alloc
      → IsAgreed s.data_ s.targets
      → ((x : TargetInternal r) → ti ≡ some x → x.of_target.path ≡ target.path)
      → env.add_watch s.data_.asked target.path (events_to_inotify_mask target.events) ≡ watching wd
      → hash_find internal_key target.path s.targets ≡ none
      → hash_find watch_key target.path s.data_.wd_to_target ≡ none
      → env.system.gives Resource.watch ≡ true
      → AddOutcome target ti s (
          attach env.system
            (record { wd = wd; target = target })
            ti
            (record s { data_ = ask s.data_; world = holding Resource.watch s.world }))
  unfolding attach sw_add_target_internal
  attach-AddOutcome wd target (some x) s paired agreed own at new fresh got =
      let e : WatchEntry = record { wd = wd; target = target } in
      (
        wd,
        x,
        new,
        refl,
        refl,
        refl,
        own x refl,
        refl,
        keep_watch-IsAgreed e x (ask s.data_) s.targets (ask-IsAgreed s.data_ s.targets agreed)
            (asked_table s.data_ target.path fresh) (own x refl),
      )
  attach-AddOutcome wd target none s paired agreed own at new fresh got =
      let e : WatchEntry = record { wd = wd; target = target } in
      let agreed' = ask-IsAgreed s.data_ s.targets agreed in
      let fresh' = asked_table s.data_ target.path fresh in
      elim (Option-cases
        (sw_target_internal_create r env.system target (holding Resource.watch s.world))) [
          | inl missing ↦
              rw (missing, attach)
                (
                  drop_watch-keep_watch e (ask s.data_) fresh'
                      ∙ rw (new, got, at) (asked_kernel wd s.data_),
                  refl,
                  sw_free-holding Resource.watch s.world (holding Resource.watch s.world) paired
                      (refl, refl, refl),
                  sw_free-last_error Resource.watch (holding Resource.watch s.world)
                      ∙ rw (new, got, at) refl,
                  subst (λ d. IsAgreed d s.targets)
                      (sym (drop_watch-keep_watch e (ask s.data_) fresh'))
                      (rm_watch-IsAgreed wd (ask s.data_) s.targets agreed'),
                )
          | inr ((x, w), made) ↦
              rw (made, attach)
                (
                  wd,
                  x,
                  new,
                  refl,
                  refl,
                  tt,
                  (created_target target _ w x made).0,
                  (created_target target _ w x made).1,
                  keep_watch-IsAgreed e x (ask s.data_) s.targets agreed' fresh'
                      (created_target target _ w x made).0,
                )
        ]

  refused_lem :
      (target : Target) (ti : Option (TargetInternal r)) (s : Watching r) (e : Error)
      → IsPaired s.world.g_alloc
      → IsAgreed s.data_ s.targets
      → refusal target s ≡ e
      → refused_data target s ≡ ask s.data_
      → AddOutcome target ti s (
        false,
        record s {
          data_ = ask s.data_;
          world = sw_free Resource.watch (fail e (holding Resource.watch s.world));
        },
      )
  unfolding fail
  refused_lem target ti s e paired agreed same left = (
    sym left,
    refl,
    sw_free-holding Resource.watch s.world (fail e (holding Resource.watch s.world)) paired
        (refl, refl, refl),
    sw_free-last_error Resource.watch (fail e (holding Resource.watch s.world)) ∙ sym same,
    ask-IsAgreed s.data_ s.targets agreed,
  )

  register-AddOutcome :
      (target : Target) (ti : Option (TargetInternal r)) (s : Watching r)
      → IsPaired s.world.g_alloc
      → IsAgreed s.data_ s.targets
      → ((x : TargetInternal r) → ti ≡ some x → x.of_target.path ≡ target.path)
      → hash_find internal_key target.path s.targets ≡ none
      → hash_find watch_key target.path s.data_.wd_to_target ≡ none
      → env.system.gives Resource.watch ≡ true
      → AddOutcome target ti s
          (register env target ti (record s { world = holding Resource.watch s.world }))
  unfolding register fail
  register-AddOutcome target ti s paired agreed own new fresh got =
      elim (answer
        (env.add_watch s.data_.asked target.path (events_to_inotify_mask target.events))) [
          | inl (wd, at) ↦
              rw (at, register)
                (attach-AddOutcome wd target ti s paired agreed own at new fresh got)
          | inr (inl full) ↦
              rw (full, register)
                (refused_lem target ti s Error.watch_limit paired agreed (rw (new, got, full) refl)
                  (rw (new, got, full) refl))
          | inr (inr denied) ↦
              rw (denied, register)
                (refused_lem target ti s Error.backend_init paired agreed
                  (rw (new, got, denied) refl) (rw (new, got, denied) refl))
        ]

  -- Whatever the kernel and the allocations answer, `inotify_add_single` refuses with the error of the
  -- first check that fails, or with the error as it was when only the internal struct cannot be made, and
  -- leaves the table, the targets and what is held, the descriptor of a watch that was undone being
  -- watched no longer; or it adds the watch and the target. The tables belonged together before, and do
  -- so afterwards. The allocator has both functions or neither, and the internal struct is the target's.
  pub inotify_add_single_lem :
      (target : Target) (ti : Option (TargetInternal r)) (s : Watching r)
      → IsPaired s.world.g_alloc
      → IsAgreed s.data_ s.targets
      → ((x : TargetInternal r) → ti ≡ some x → x.of_target.path ≡ target.path)
      → AddOutcome target ti s (inotify_add_single env target ti s)
  unfolding inotify_add_single sw_malloc sw_find_target_internal fail
  inotify_add_single_lem target ti s paired agreed own =
      elim (Option-cases (hash_find internal_key target.path s.targets)) [
        | inr (x, old) ↦
            rw (old, inotify_add_single, sw_find_target_internal)
              (rw old refl, refl, (refl, refl, refl), rw old refl, agreed)
        | inl new ↦ elim (Bool-cases (env.system.gives Resource.watch)) [
          | inr missing ↦
              rw (new, missing, inotify_add_single, sw_find_target_internal, sw_malloc)
                (rw (new, missing) refl, refl, (refl, refl, refl), rw (new, missing) refl, agreed)
          | inl got ↦
              rw (new, got, inotify_add_single, sw_find_target_internal, sw_malloc)
                (register-AddOutcome target ti s paired agreed own new
                  (unwatched s.data_ s.targets target.path agreed new) got)
        ]
      ]
