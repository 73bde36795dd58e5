-- ===== src/Inotify/ThreadTests.antt =====
-- The recursive addition and the thread on small inputs.
use mathlib.Core.Path.{subst}
use swatcher.Base.{
  ◌≡◌, refl, sym, ap, ◌∙◌, ℕ, true, false, ◌&&◌, Option, none, some, List, [], ◌∷◌, Bytes, codes,
  arith, Bool-cases, inl, inr, if◌then◌else◌, str_eq, str_eq_iff, is_some, In, Sure, hash_find,
}
use swatcher.Platform.{DirEntry, snprintf, ends_with}
use swatcher.Platform.Sample.{sample, a_directory}
use swatcher.Types.{FsEvent, wanted}
use swatcher.Core.Holdings.{IsPaired, SameHoldings}
use swatcher.Core.Targets.{TargetInternal}
use swatcher.Inotify.Masks.{KernelFlag, Mask}
use swatcher.Inotify.Watches.{WatchEntry, Watching, WatchEnv, join_path}
use swatcher.Inotify.Agree.{IsAgreed}
use swatcher.Inotify.Recursive.{add_single, add_child, inotify_add_recursive_locked}
use swatcher.Inotify.Backend.{InotifyData, inotify_destroy, inotify_destroy_lem}
use swatcher.Core.World.{Resource, World, same}
use swatcher.Core.Release.{held}
use swatcher.Inotify.Depth.{Descends, inotify_add_recursive_locked-is_some}
use swatcher.Inotify.Cycle.{LinksBack, inotify_add_recursive_locked_cycle}
use swatcher.Inotify.Leak.{ChildOutcome, add_child_lem}
use swatcher.Inotify.Thread.{MovePending, KernelEvent, ThreadEnv, ThreadState}
use swatcher.Inotify.Events.{find_wd, handle_events}
use swatcher.Inotify.Steady.{Ends, handle_events_lem}
use swatcher.Inotify.Run.{Turn, inotify_thread_func, inotify_thread_func_lem}
use swatcher.Inotify.Pairing.{from_mask, to_mask, half, told, is_heard, handle_events_move}
use swatcher.Inotify.Tests.{dispatch_env, two}
use swatcher.Inotify.WatchTests.{empty, no_regex, target, env, internal, both, both-IsAgreed}

add_child_lem_example :
    (s' : Watching no_regex) × (add_child env
        (add_single env)
        (target (codes "/r"))
        (codes "f")
        both
      ≡ some s')
    × ChildOutcome env (target (codes "/r")) (codes "f") both s'
add_child_lem_example = add_child_lem env (target (codes "/r")) (codes "f") both refl both-IsAgreed

-- A directory with one directory in it.
abbrev sub : DirEntry
sub = record { name = codes "sub"; is_dir = true; is_file = false; is_symlink = false }

unfoldable open_root : Bytes → Option (List DirEntry)
open_root path = if str_eq path (codes "/r") then some (sub ∷ []) else none

abbrev tree : WatchEnv
tree = record env { platform = record sample { dir_open = open_root } }

abbrev rank : Bytes → ℕ
rank path = if str_eq path (codes "/r") then 1 else 0

-- The path of the inner directory is another.
inner_path :
    (path : Bytes)
    → some (join_path tree.platform (codes "/r") (codes "sub")) ≡ some path
    → str_eq path (codes "/r") ≡ false
unfolding join_path ends_with snprintf str_eq
inner_path path named =
    ap (λ o. elim o [ none ↦ false | some q ↦ str_eq q (codes "/r") ]) (sym named)

only_sub : (entry : DirEntry) → In entry (sub ∷ []) → entry ≡ sub
only_sub entry (inl same) = same
only_sub entry (inr other) = absurd other

tree-Descends : Descends tree rank
unfolding open_root
tree-Descends dir entries entry follow path opened inside walked named =
    elim (Bool-cases (str_eq dir (codes "/r"))) [
      | inl root ↦
          let at : dir ≡ codes "/r" = (str_eq_iff dir (codes "/r")).0 root in
          let listed : sub ∷ [] ≡ entries = ground (arith, opened, root) in
          let entry_is : entry ≡ sub =
            only_sub entry (subst (λ es. In entry es) (sym listed) inside) in
          let below : str_eq path (codes "/r") ≡ false = inner_path path (
            sym (
              ap (λ d. some (join_path tree.platform d entry.name)) at
              ∙ ap (λ e. some (join_path tree.platform (codes "/r") e.name)) entry_is)
            ∙ named) in
          rw (below, root) (omega arith)
      | inr other ↦ absurd (ground (arith, opened, other))
    ]

inotify_add_recursive_locked-is_some_example :
    is_some (inotify_add_recursive_locked tree 2 false (internal (codes "/r")) both) ≡ true
unfolding str_eq
inotify_add_recursive_locked-is_some_example =
    inotify_add_recursive_locked-is_some tree rank 2 false (internal (codes "/r")) both
      tree-Descends (omega arith)

-- A directory with a link to itself.
abbrev loop_link : DirEntry
loop_link = record { name = codes "loop"; is_dir = false; is_file = false; is_symlink = true }

abbrev loop : WatchEnv
loop = record env {
  platform = record sample { dir_open = λ path. some (loop_link ∷ []) };
  system = record env.system {
    normalize = λ path follow. some (codes "/r");
    stat = λ path follow. some a_directory;
  };
}

loop-LinksBack : LinksBack loop (codes "/r") loop_link
loop-LinksBack = record {
  is_link = refl;
  is_no_dir = refl;
  is_no_file = refl;
  listed = (loop_link ∷ [], refl, inl refl);
  resolved = refl;
  found = (a_directory, refl, refl);
  memory = λ block. refl;
}

abbrev follower : TargetInternal no_regex
follower = record (internal (codes "/r")) {
  of_target = record (target (codes "/r")) { follow_symlinks = true };
}

inotify_add_recursive_locked_cycle_example :
    inotify_add_recursive_locked loop 100 false follower both ≡ none
inotify_add_recursive_locked_cycle_example =
    inotify_add_recursive_locked_cycle loop (codes "/r") loop_link loop-LinksBack 100 false follower
      both
      (record {
        path = refl;
        is_no_file = refl;
        follows = refl;
        all_kinds = refl;
        no_watch_list = refl;
        no_ignore_list = refl;
        no_watch = refl;
        no_ignore = refl;
      })

abbrev thread_env : ThreadEnv
thread_env = record { watch = env; dispatch = dispatch_env; move_memory = true; fuel = 2 }

abbrev running : ThreadState no_regex
running = record { watching = both; pending_moves = []; dispatched = two }

-- A directory goes from one that is watched.
abbrev rmdir_mask : Mask
rmdir_mask KernelFlag.delete = true
rmdir_mask KernelFlag.isdir = true
rmdir_mask flag = false

-- A directory is made in `/r/d`, and one that was watched goes.
abbrev mkdir_mask : Mask
mkdir_mask KernelFlag.create = true
mkdir_mask KernelFlag.isdir = true
mkdir_mask flag = false

-- The kernel has dropped a watch.
abbrev ignored_mask : Mask
ignored_mask KernelFlag.ignored = true
ignored_mask flag = false

abbrev three_events : List KernelEvent
three_events =
    half mkdir_mask 1 0 (codes "x")
    ∷ half rmdir_mask 1 0 (codes "x")
    ∷ half ignored_mask 1 0 []
    ∷ []

abbrev tree_env : ThreadEnv
tree_env = record thread_env { watch = tree }

tree-Ends : Ends tree_env rank
tree-Ends = record { descends = tree-Descends; lower = λ path. ground arith }

handle_events_lem_example :
    Sure
      (λ s'. IsPaired s'.watching.world.g_alloc × IsAgreed s'.watching.data_ s'.watching.targets)
      (handle_events tree_env three_events running)
handle_events_lem_example =
    handle_events_lem tree_env rank tree-Ends three_events running (refl, (refl, (refl, tt)))
      (refl, both-IsAgreed)

-- A turn with the three events, and one in which the wait times out.
abbrev turns : List Turn
turns =
    record { env = tree_env; events = three_events } ∷ record { env = tree_env; events = [] } ∷ []

inotify_thread_func_lem_example :
    Sure
      (λ s'.
        IsPaired s'.watching.world.g_alloc
        × IsAgreed s'.watching.data_ s'.watching.targets
        × (s'.dispatched.pending_events ≡ []))
      (inotify_thread_func turns tree_env running)
inotify_thread_func_lem_example =
    inotify_thread_func_lem turns tree_env running
      ((rank, tree-Ends, (refl, (refl, (refl, tt)))), ((rank, tree-Ends, tt), tt)) refl
      (refl, both-IsAgreed)

abbrev watch_d : WatchEntry
watch_d = record { wd = 1; target = target (codes "/r/d") }

abbrev watch_e : WatchEntry
watch_e = record { wd = 2; target = target (codes "/r/e") }

handle_events_move_example :
    handle_events thread_env
      (half from_mask 1 7 (codes "a") ∷ half to_mask 2 7 (codes "b") ∷ [])
      running
    ≡ some (record running {
      dispatched =
          if wanted 0xff FsEvent.moved
            && is_heard thread_env both.targets (target (codes "/r/e")) (codes "b")
          then told thread_env
              (target (codes "/r/e"))
              FsEvent.moved
              (codes "b")
              false
              (some (join_path sample (codes "/r/d") (codes "a")))
              two
          else two;
    })
unfolding find_wd hash_find
handle_events_move_example =
    handle_events_move thread_env watch_d watch_e 7 (codes "a") (codes "b") running refl refl refl
      refl refl refl

-- A first half that came at `timestamp_ms`.
abbrev waiting : ℕ → ℕ → MovePending
waiting cookie timestamp_ms = record {
  cookie = cookie;
  path = codes "/r/d/a";
  target = target (codes "/r/d");
  is_dir = false;
  timestamp_ms = timestamp_ms;
}

abbrev halves : ThreadState no_regex
halves = record running { pending_moves = waiting 7 900 ∷ waiting 8 990 ∷ [] }

-- Two watches, a pending event and a pending move.
abbrev busy : InotifyData
busy = record {
  watches = both.data_;
  pending_events = two.pending_events;
  pending_moves = halves.pending_moves;
}

abbrev busy_blocks : List Resource
busy_blocks =
    Resource.backend_data ∷ Resource.watch ∷ Resource.pending_event ∷ Resource.watch
    ∷ Resource.pending_move ∷ Resource.pending_move ∷ Resource.pending_event ∷ []

abbrev busy_world : World
busy_world = record empty { live = held none busy_blocks }

inotify_destroy_lem_example :
    ((inotify_destroy busy busy_world).0 ≡ [])
    × SameHoldings (inotify_destroy busy busy_world).1 empty
unfolding same
inotify_destroy_lem_example =
    inotify_destroy_lem busy both.targets busy_blocks empty busy_world refl both-IsAgreed refl
      (record { blocks = refl; misfreed = refl; g_alloc = refl })
