-- ===== src/Core/Init.antt =====
-- core/swatcher.c: what `swatcher_init_with_backend` returns, the error that it sets, and what it holds
-- afterwards.
use swatcher.Base.{
  ◌≡◌, refl, ◌∙◌, true, false, Option, none, some, [], Bytes, Bool-cases, Option-cases, inl, inr,
  if◌then◌else◌,
}
use swatcher.Types.{Config, Error}
use swatcher.Pattern.Compile.{Regex}
use swatcher.Core.World.{Resource, World, sw_malloc, sw_free, sw_alloc_set, sw_alloc_clear, fail}
use swatcher.Core.Holdings.{SameHoldings, IsPaired, holding, sw_free-holding, sw_free-last_error}
use swatcher.Core.Lifecycle.{
  Backend, Watcher, Setting, install, choose, init_backend, pick_backend, init_mutex, init_watcher,
  swatcher_init_with_backend,
}

module _ {r : Regex} {D : Type 0} where
  -- What the watcher relies on in a backend, if what is allocated is freed by the same allocator: a
  -- start that fails leaves nothing held, and its data can be destroyed in any world that holds what
  -- there was after the start; and no start changes the allocator.
  pub record IsTidy (b : Backend r D) : Type 0 where
    pub failed :
        (config : Config) (w : World)
        → IsPaired w.g_alloc
        → (b.init config w).0 ≡ none
        → SameHoldings (b.init config w).1 w
    pub started : (config : Config) (w : World) → (b.init config w).1.g_alloc ≡ w.g_alloc
    pub destroyed :
        (config : Config) (d : D) (w v : World)
        → IsPaired w.g_alloc
        → (b.init config w).0 ≡ some d
        → SameHoldings v (b.init config w).1
        → SameHoldings (b.destroy d v) w

module _ {r : Regex} {D : Type 0} (setting : Setting r D) where
  -- The checks of an initialisation in their order, and the error of the first that fails; `ready` is
  -- the world in which the backend starts.
  abbrev pub backend_error : Config → Backend r D → World → Option Error
  backend_error config b ready = elim (b.init config ready).0 [
    | none ↦ some Error.backend_init
    | some _ ↦ none
  ]

  abbrev pub ready : Config → World → World
  ready config w = holding Resource.mutex (holding Resource.internal (install setting config w))

  abbrev pub first_error : Option Config → Option Bytes → World → Option Error
  first_error none backend_name w = some Error.null_arg
  first_error (some config) backend_name w =
      if setting.gives Resource.internal
      then (if setting.gives Resource.mutex
          then elim (choose setting backend_name) [
            | none ↦ some Error.backend_not_found
            | some b ↦ backend_error config b (ready config w)
          ]
          else some Error.mutex)
      else some Error.alloc

  -- What an initialisation that fails with this error comes to.
  abbrev pub Fails : Error → World → Option (Watcher r D) × World → Type 0
  Fails e w result =
      (result.0 ≡ none)
      × (result.1.last_error ≡ e)
      × (result.1.live ≡ w.live)
      × (result.1.misfreed ≡ w.misfreed)

  -- What an initialisation comes to: a failure, or a watcher that does not run, has no targets, and has
  -- the data of the chosen backend, in the world that the backend's start leaves.
  abbrev pub Outcome :
      Option Config → Option Bytes → World → Option (Watcher r D) × World → Option Error → Type 0
  Outcome config backend_name w result (some e) = Fails e w result
  Outcome config backend_name w result none =
      (c : Config) × (b : Backend r D) × (d : D) × (config ≡ some c)
      × (choose setting backend_name ≡ some b)
      × ((b.init c (ready c w)).0 ≡ some d)
      × (result ≡ (
        some (record {
          config = c;
          is_running = false;
          backend = b;
          backend_data = d;
          thread = false;
          targets = [];
        }),
        (b.init c (ready c w)).1,
      ))

  pub install-g_alloc : (c : Config) (w : World) → (install setting c w).g_alloc ≡ c.allocator
  unfolding install sw_alloc_set sw_alloc_clear
  install-g_alloc c w = elim (Option-cases c.allocator) [
    | inl h ↦ rw h refl
    | inr (a, h) ↦ rw h refl
  ]

  pub install-live :
      (c : Config) (w : World)
      → ((install setting c w).live ≡ w.live) × ((install setting c w).misfreed ≡ w.misfreed)
  unfolding install sw_alloc_set sw_alloc_clear
  install-live c w = elim (Option-cases c.allocator) [
    | inl h ↦ rw h (refl, refl)
    | inr (a, h) ↦ rw h (refl, refl)
  ]

  pub install-IsPaired :
      (c : Config) (w : World) → IsPaired c.allocator → IsPaired (install setting c w).g_alloc
  install-IsPaired c w paired = rw (install-g_alloc c w) paired

  -- Once the internal struct is freed, a failure holds what there was.
  undo_internal :
      (c : Config) (w v : World)
      → IsPaired c.allocator
      → SameHoldings v (holding Resource.internal (install setting c w))
      → Fails v.last_error w (none, sw_free Resource.internal v)
  undo_internal c w v paired same =
      let at =
        sw_free-holding Resource.internal (install setting c w) v (install-IsPaired c w paired)
          same in
      let kept = install-live c w in
      (refl, sw_free-last_error Resource.internal v, at.0 ∙ kept.0, at.1 ∙ kept.1)

  -- The same with the mutex.
  undo_mutex :
      (c : Config) (w v : World)
      → IsPaired c.allocator
      → SameHoldings v (ready c w)
      → Fails v.last_error w (none, sw_free Resource.internal (sw_free Resource.mutex v))
  undo_mutex c w v paired same =
      let before = holding Resource.internal (install setting c w) in
      let at = sw_free-holding Resource.mutex before v (install-IsPaired c w paired) same in
      let (gone, error, live, misfreed) = undo_internal c w (sw_free Resource.mutex v) paired at in
      (gone, error ∙ sw_free-last_error Resource.mutex v, live, misfreed)

  -- The backend's start.
  init_backend-Outcome :
      (c : Config) (name : Option Bytes) (b : Backend r D) (w : World)
      → IsPaired c.allocator
      → choose setting name ≡ some b
      → IsTidy b
      → Outcome
          (some c)
          name
          w
          (init_backend setting c b (ready c w))
          (backend_error c b (ready c w))
  unfolding init_backend fail
  init_backend-Outcome c name b w paired chosen tidy =
      elim (Option-cases (b.init c (ready c w)).0) [
        | inl h ↦
            rw (h, init_backend, backend_error)
              (undo_mutex c w (fail Error.backend_init (b.init c (ready c w)).1) paired
                (tidy.failed c (ready c w) (install-IsPaired c w paired) h))
        | inr (d, h) ↦ rw (h, init_backend, backend_error) (c, b, d, refl, chosen, h, refl)
      ]

  pick_backend-Outcome :
      (c : Config) (name : Option Bytes) (w : World)
      → IsPaired c.allocator
      → ((b : Backend r D) → choose setting name ≡ some b → IsTidy b)
      → Outcome
          (some c)
          name
          w
          (pick_backend setting c name (ready c w))
          (elim (choose setting name) [
            | none ↦ some Error.backend_not_found
            | some b ↦ backend_error c b (ready c w)
          ])
  unfolding pick_backend fail
  pick_backend-Outcome c name w paired tidy = elim (Option-cases (choose setting name)) [
    | inl h ↦
        rw (h, pick_backend)
          (undo_mutex c w (fail Error.backend_not_found (ready c w)) paired (refl, refl, refl))
    | inr (b, h) ↦ rw (h, pick_backend) (init_backend-Outcome c name b w paired h (tidy b h))
  ]

  -- On a watcher that is not null, with a configuration whose allocator has both functions or neither
  -- and a backend that is tidy, an initialisation fails exactly if one of the checks fails: no
  -- configuration, no memory, no mutex, no such backend, no start of it, in this order. Then the error
  -- is the first failing check's, and what is held is what was held before. Otherwise the watcher has
  -- the chosen backend and its data, does not run and has no targets.
  pub swatcher_init_with_backend_lem :
      (config : Option Config) (name : Option Bytes) (w : World)
      → ((c : Config) → config ≡ some c → IsPaired c.allocator)
      → ((b : Backend r D) → choose setting name ≡ some b → IsTidy b)
      → Outcome config name w
          (swatcher_init_with_backend setting true config name w)
          (first_error config name w)
  unfolding swatcher_init_with_backend init_watcher init_mutex sw_malloc fail
  swatcher_init_with_backend_lem none name w paired tidy = (refl, refl, refl, refl)
  swatcher_init_with_backend_lem (some c) name w paired tidy =
      elim (Bool-cases (setting.gives Resource.internal)) [
        | inl got ↦ elim (Bool-cases (setting.gives Resource.mutex)) [
          | inl both ↦
              rw (got, both, init_watcher, init_mutex, sw_malloc)
                (pick_backend-Outcome c name w (paired c refl) tidy)
          | inr h ↦
              rw (got, h, init_watcher, init_mutex, sw_malloc)
                (undo_internal c w
                  (fail Error.mutex (holding Resource.internal (install setting c w)))
                  (paired c refl) (refl, refl, refl))
        ]
        | inr h ↦
            rw (h, init_watcher, sw_malloc) (refl, refl, (install-live c w).0, (install-live c w).1)
      ]
