-- ===== src/Core/Made.antt =====
-- core/swatcher.c: what `swatcher_create_with_backend` makes.
use swatcher.Base.{
  ◌≡◌, refl, sym, ap, ◌∙◌, true, false, Option, none, some, [], Bytes, Bool-cases, Option-cases,
  inl, inr,
}
use swatcher.Types.{Config, Error}
use swatcher.Pattern.Compile.{Regex}
use swatcher.Core.World.{Resource, World, sw_malloc, sw_alloc_set}
use swatcher.Core.Holdings.{SameHoldings, IsPaired, holding}
use swatcher.Core.Lifecycle.{
  Backend, Watcher, Setting, choose, swatcher_init_with_backend, pre_install, create_with,
  swatcher_create_with_backend,
}
use swatcher.Core.Init.{
  IsTidy, ready, first_error, Outcome, install-g_alloc, swatcher_init_with_backend_lem,
}

module _ {r : Regex} {D : Type 0} (setting : Setting r D) where
  -- The watcher that an initialisation makes.
  abbrev pub fresh : Config → Backend r D → D → Watcher r D
  fresh c b d = record {
    config = c;
    is_running = false;
    backend = b;
    backend_data = d;
    thread = false;
    targets = [];
  }

  pub pre_install-live :
      (c : Config) (w : World)
      → ((pre_install setting (some c) w).live ≡ w.live)
        × ((pre_install setting (some c) w).misfreed ≡ w.misfreed)
  unfolding pre_install sw_alloc_set
  pre_install-live c w = elim (Option-cases c.allocator) [
    | inl h ↦ rw h (refl, refl)
    | inr (a, h) ↦ rw h (refl, refl)
  ]

  -- The world in which the watcher's memory is allocated first.
  abbrev pub allocated : Config → World → World
  allocated c w = holding Resource.watcher (pre_install setting (some c) w)

  -- What an initialisation from the world `u` that succeeds comes from.
  abbrev pub Made : Config → World → Watcher r D → World → Type 0
  Made c u sw v =
      (b : Backend r D) × (d : D) × ((b.init c (ready setting c u)).0 ≡ some d)
      × (v ≡ (b.init c (ready setting c u)).1)
      × (sw ≡ fresh c b d)
      × IsTidy b

  Outcome-Made :
      (c : Config) (name : Option Bytes) (u v : World) (sw : Watcher r D) (error : Option Error)
      → ((b : Backend r D) → choose setting name ≡ some b → IsTidy b)
      → Outcome setting (some c) name u (some sw, v) error
      → Made c u sw v
  Outcome-Made c name u v sw (some e) tidy (gone, _, _, _) = absurd (cc gone)
  Outcome-Made c name u v sw none tidy (c', b, d, same_c, chosen, start, result) =
      let same : c ≡ c' = ap (λ o. elim o [ none ↦ c | some x ↦ x ]) same_c in
      let same_sw : sw ≡ fresh c' b d = ap (λ p. elim p.0 [ none ↦ sw | some x ↦ x ]) result in
      rw same (b, d, start, ap (λ p. p.1) result, same_sw, tidy b chosen)

  create_with-some :
      (p : Option (Watcher r D) × World) (sw : Watcher r D) (v : World)
      → create_with setting p ≡ (some sw, v)
      → p ≡ (some sw, v)
  unfolding create_with
  create_with-some (none, w) sw v h = absurd (cc (ap (λ q. q.0) h))
  create_with-some (some x, w) sw v h = h

  create-got :
      (c : Config) (name : Option Bytes) (w : World)
      → setting.gives Resource.watcher ≡ true
      → swatcher_create_with_backend setting (some c) name w
        ≡ create_with setting
            (swatcher_init_with_backend setting true (some c) name (allocated c w))
  unfolding swatcher_create_with_backend sw_malloc
  create-got c name w got = rw (got, swatcher_create_with_backend, sw_malloc) refl

  create-missing :
      (c : Config) (name : Option Bytes) (w : World)
      → setting.gives Resource.watcher ≡ false
      → (swatcher_create_with_backend setting (some c) name w).0 ≡ none
  unfolding swatcher_create_with_backend sw_malloc
  create-missing c name w missing = rw (missing, swatcher_create_with_backend, sw_malloc) refl

  pub create-Made :
      (c : Config) (name : Option Bytes) (w v : World) (sw : Watcher r D)
      → IsPaired c.allocator
      → ((b : Backend r D) → choose setting name ≡ some b → IsTidy b)
      → swatcher_create_with_backend setting (some c) name w ≡ (some sw, v)
      → Made c (allocated c w) sw v
  create-Made c name w v sw paired tidy h = elim (Bool-cases (setting.gives Resource.watcher)) [
    | inl got ↦
        let u = allocated c w in
        let same_config : (x : Config) → some c ≡ some x → x ≡ c =
          (λ x e. ap (λ o. elim o [ none ↦ c | some y ↦ y ]) (sym e)) in
        let made = create_with-some _ sw v (sym (create-got c name w got) ∙ h) in
        let o =
          swatcher_init_with_backend_lem setting (some c) name u
            (λ x e. rw (same_config x e) paired) tidy in
        Outcome-Made c name u v sw (first_error setting (some c) name u) tidy (rw (sym made) o)
    | inr missing ↦ absurd (cc (create-missing c name w missing, ap (λ q. q.0) h))
  ]

  -- The world after a creation, against the one that the backend's start leaves.
  pub Made-SameHoldings :
      (c : Config) (u v : World) (sw : Watcher r D) (made : Made c u sw v)
      → SameHoldings v (made.0.init c (ready setting c u)).1
  Made-SameHoldings c u v sw (b, d, start, same_v, same_sw, tidy) =
      (ap (λ x. x.live) same_v, ap (λ x. x.misfreed) same_v, ap (λ x. x.g_alloc) same_v)

  pub Made-g_alloc :
      (c : Config) (u v : World) (sw : Watcher r D) → Made c u sw v → v.g_alloc ≡ c.allocator
  Made-g_alloc c u v sw (b, d, start, same_v, same_sw, tidy) =
      ap (λ x. x.g_alloc) same_v ∙ tidy.started c (ready setting c u) ∙ install-g_alloc setting c u
