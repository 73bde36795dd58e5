-- ===== src/Inotify/Backend.antt =====
-- backend/backend_inotify.c: `inotify_init_backend` and `inotify_destroy`. The backend's file descriptor
-- is not followed.
use mathlib.Core.Path.{subst}
use swatcher.Base.{
  ◌≡◌, refl, sym, ap, ◌∙◌, ℕ, Bool, true, false, Bool-cases, Option, none, some, List, [], ◌∷◌,
  ◌++◌, map, arith, inl, inr, if◌then◌else◌,
}
use swatcher.Types.{Config}
use swatcher.Pattern.Compile.{Regex}
use swatcher.Core.World.{Resource, World, sw_malloc, sw_free}
use swatcher.Core.Targets.{TargetInternal}
use swatcher.Core.Holdings.{SameHoldings, IsPaired, holding}
use swatcher.Core.Release.{frees, IsMadeOf, Holds, frees-Holds, frees-append}
use swatcher.Inotify.Coalesce.{CoalesceEntry}
use swatcher.Inotify.Thread.{MovePending}
use swatcher.Inotify.Watches.{WatchEntry, SwatcherInotify, has_wd, rm_watch}
use swatcher.Inotify.Agree.{IsAgreed, has_entry, has_wd-rm_watch}

-- No watch.
abbrev no_watches : SwatcherInotify
no_watches = record { wd_to_target = []; watch_count = 0; kernel = []; asked = 0 }

-- `swatcher_inotify` with the pending events and moves.
pub record InotifyData : Type 0 where
  pub watches : SwatcherInotify
  pub pending_events : List CoalesceEntry
  pub pending_moves : List MovePending

abbrev nothing_pending : InotifyData
nothing_pending = record { watches = no_watches; pending_events = []; pending_moves = [] }

-- `opens` says whether `inotify_init` gives a descriptor.
module _ (gives : Resource → Bool) (opens : Bool) where
  unfoldable pub inotify_init_backend : Config → World → Option InotifyData × World
  inotify_init_backend config w = elim (sw_malloc gives Resource.backend_data w) [
    | none ↦ (none, w)
    | some w' ↦
        if opens then (some nothing_pending, w') else (none, sw_free Resource.backend_data w')
  ]

  init_got :
      (config : Config) (w : World)
      → gives Resource.backend_data ≡ true
      → opens ≡ true
      → inotify_init_backend config w ≡ (some nothing_pending, holding Resource.backend_data w)
  unfolding inotify_init_backend sw_malloc
  init_got config w got opened = rw (got, opened, inotify_init_backend, sw_malloc) refl

  init_missing :
      (config : Config) (w : World)
      → gives Resource.backend_data ≡ false
      → inotify_init_backend config w ≡ (none, w)
  unfolding inotify_init_backend sw_malloc
  init_missing config w missing = rw (missing, inotify_init_backend, sw_malloc) refl

  init_closed :
      (config : Config) (w : World)
      → gives Resource.backend_data ≡ true
      → opens ≡ false
      → inotify_init_backend config w
        ≡ (none, sw_free Resource.backend_data (holding Resource.backend_data w))
  unfolding inotify_init_backend sw_malloc
  init_closed config w got closed = rw (got, closed, inotify_init_backend, sw_malloc) refl

-- The loop over the pending events.
unfoldable pub free_events : List CoalesceEntry → World → World
free_events [] w = w
free_events (ce ∷ ces) w = free_events ces (sw_free Resource.pending_event w)

-- The loop over the pending moves.
unfoldable pub free_moves : List MovePending → World → World
free_moves [] w = w
free_moves (mp ∷ mps) w = free_moves mps (sw_free Resource.pending_move w)

-- The loop over the table of watches.
unfoldable pub free_watches : List WatchEntry → List ℕ × World → List ℕ × World
unfolding rm_watch
free_watches [] done = done
free_watches (e ∷ es) (kernel, w) = free_watches es (rm_watch e.wd kernel, sw_free Resource.watch w)

-- What the kernel watches afterwards, and what is held.
unfoldable pub inotify_destroy : InotifyData → World → List ℕ × World
unfolding free_events free_moves free_watches
inotify_destroy ino w =
    let (kernel, v) =
      free_watches ino.watches.wd_to_target
        (ino.watches.kernel, free_moves ino.pending_moves (free_events ino.pending_events w)) in
    (kernel, sw_free Resource.backend_data v)

free_events-frees :
    (ces : List CoalesceEntry) (w : World)
    → free_events ces w ≡ frees (map (λ ce. Resource.pending_event) ces) w
unfolding free_events
free_events-frees [] w = refl
free_events-frees (ce ∷ ces) w = free_events-frees ces (sw_free Resource.pending_event w)

free_moves-frees :
    (mps : List MovePending) (w : World)
    → free_moves mps w ≡ frees (map (λ mp. Resource.pending_move) mps) w
unfolding free_moves
free_moves-frees [] w = refl
free_moves-frees (mp ∷ mps) w = free_moves-frees mps (sw_free Resource.pending_move w)

free_watches-frees :
    (es : List WatchEntry) (kernel : List ℕ) (w : World)
    → (free_watches es (kernel, w)).1 ≡ frees (map (λ e. Resource.watch) es) w
unfolding free_watches
free_watches-frees [] kernel w = refl
free_watches-frees (e ∷ es) kernel w =
    free_watches-frees es (rm_watch e.wd kernel) (sw_free Resource.watch w)

-- What the loop leaves in the kernel was there, and is no entry's.
free_watches-kernel :
    (wd : ℕ) (es : List WatchEntry) (kernel : List ℕ) (w : World)
    → has_wd wd (free_watches es (kernel, w)).0 ≡ true
    → (has_wd wd kernel ≡ true) × (has_entry wd es ≡ false)
unfolding free_watches
free_watches-kernel wd [] kernel w there = (there, refl)
free_watches-kernel wd (e ∷ es) kernel w there =
    let (before, apart) =
      free_watches-kernel wd es (rm_watch e.wd kernel) (sw_free Resource.watch w) there in
    let (had, other) = has_wd-rm_watch wd e.wd kernel before in (had, rw other apart)

nothing_watched : (kernel : List ℕ) → ((wd : ℕ) → has_wd wd kernel ≡ false) → kernel ≡ []
nothing_watched [] h = refl
nothing_watched (wd ∷ kernel) h = absurd (ground (arith, h wd))

-- The blocks of the backend: one for each entry of its three tables, and its own.
abbrev pub kinds_of : InotifyData → List Resource
kinds_of ino =
    map (λ ce. Resource.pending_event) ino.pending_events
    ++ (map (λ mp. Resource.pending_move) ino.pending_moves
        ++ (map (λ e. Resource.watch) ino.watches.wd_to_target ++ Resource.backend_data ∷ []))

destroy-frees : (ino : InotifyData) (w : World) → frees (kinds_of ino) w ≡ (inotify_destroy ino w).1
unfolding inotify_destroy
destroy-frees ino w =
    let events = map (λ ce. Resource.pending_event) ino.pending_events in
    let moves = map (λ mp. Resource.pending_move) ino.pending_moves in
    let watches = map (λ e. Resource.watch) ino.watches.wd_to_target in
    let own = Resource.backend_data ∷ [] in
    frees-append events (moves ++ (watches ++ own)) w
    ∙ frees-append moves (watches ++ own) (frees events w)
    ∙ frees-append watches own (frees moves (frees events w))
    ∙ ap (λ u. sw_free Resource.backend_data (frees watches (frees moves u)))
        (sym (free_events-frees ino.pending_events w))
    ∙ ap (λ u. sw_free Resource.backend_data (frees watches u))
        (sym (free_moves-frees ino.pending_moves (free_events ino.pending_events w)))
    ∙ ap (sw_free Resource.backend_data) (
        sym (
          free_watches-frees ino.watches.wd_to_target ino.watches.kernel
            (free_moves ino.pending_moves (free_events ino.pending_events w))))

module _ {r : Regex} where
  -- The destruction of the inotify backend with any tables that belong together: the kernel watches
  -- nothing afterwards; one block for each watch, each pending event and each pending move, and the
  -- backend's own, allocated in any order, are all given back, nothing else is freed, and nothing is
  -- freed that is not held. The allocator has both functions or neither.
  pub inotify_destroy_lem :
      (ino : InotifyData) (targets : List (TargetInternal r)) (rs : List Resource) (w v : World)
      → IsPaired w.g_alloc
      → IsAgreed ino.watches targets
      → IsMadeOf (kinds_of ino) rs
      → Holds rs w v
      → ((inotify_destroy ino v).0 ≡ []) × SameHoldings (inotify_destroy ino v).1 w
  unfolding inotify_destroy
  inotify_destroy_lem ino targets rs w v paired agreed made holds =
      let left = frees-Holds (kinds_of ino) rs [] w v paired made holds in
      let u = free_moves ino.pending_moves (free_events ino.pending_events v) in
      (
        nothing_watched (inotify_destroy ino v).0 (λ wd.
            elim (Bool-cases (has_wd wd (inotify_destroy ino v).0)) [
              | inr gone ↦ gone
              | inl there ↦
                  let (had, apart) =
                    free_watches-kernel wd ino.watches.wd_to_target ino.watches.kernel u there in
                  absurd (cc (agreed.covered wd had, apart))
            ]),
        subst (λ u. SameHoldings u w) (destroy-frees ino v)
            (left.blocks, left.misfreed, left.g_alloc),
      )
