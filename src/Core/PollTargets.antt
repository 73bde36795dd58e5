-- ===== src/Core/PollTargets.antt =====
-- backend/backend_poll.c: `poll_add_target`, `poll_add_target_recursive` and `poll_remove_target`. The
-- first snapshot has fuel; the addition is `none` when that is used up.
use swatcher.Base.{
  ℕ, Bool, true, false, Option, none, some, List, [], Bytes, ◌>>=◌, hash_find, hash_add, hash_del,
}
use swatcher.Types.{Target, Error}
use swatcher.Pattern.Compile.{Regex}
use swatcher.Poll.State.{FileSnapshot, TargetPatterns, ScanEnv}
use swatcher.Poll.Initial.{poll_initial_snapshot}
use swatcher.Poll.Thread.{TargetPoll, SwatcherPoll}
use swatcher.Core.World.{Resource, sw_malloc, sw_free, fail}
use swatcher.Core.Targets.{
  TargetInternal, TargetSystem, sw_find_target_internal, sw_add_target_internal,
  sw_target_internal_create,
}
use swatcher.Core.Lifecycle.{Shared}

-- The key is the target's address; no two targets of the table have one path.
abbrev pub poll_key : TargetPoll → Bytes
poll_key tp = tp.target.path

-- The lists of a target's internal struct, if it has one.
abbrev pub patterns_of : {r : Regex} → Option (TargetInternal r) → Option (TargetPatterns r)
patterns_of none = none
patterns_of (some ti) = some (record {
  compiled_callback = ti.compiled_callback;
  compiled_watch = ti.compiled_watch;
  compiled_ignore = ti.compiled_ignore;
})

-- What the operations ask of the system.
pub record PollEnv (r : Regex) : Type 0 where
  pub system : TargetSystem
  pub scan_env : Target → Option (TargetPatterns r) → ScanEnv r
  pub fuel : ℕ

module _ {r : Regex} (env : PollEnv r) where
  -- What follows the first snapshot.
  unfoldable pub add_snapshots :
      Target
      → Option (TargetInternal r)
      → List FileSnapshot
      → Shared r SwatcherPoll
      → Bool × Shared r SwatcherPoll
  unfolding sw_target_internal_create sw_add_target_internal
  add_snapshots target (some ti) snapshots s = (
    true,
    record s {
      data_ = hash_add s.data_ (record { target = target; snapshots = snapshots; dir_mtimes = [] });
      targets = sw_add_target_internal s.targets ti;
    },
  )
  add_snapshots target none snapshots s =
      let tp : TargetPoll = record { target = target; snapshots = snapshots; dir_mtimes = [] } in
      elim (sw_target_internal_create r env.system target s.world) [
        | none ↦ (
          false,
          record s {
            data_ = hash_del poll_key target.path (hash_add s.data_ tp);
            world = sw_free Resource.watch s.world;
          },
        )
        | some (ti, w) ↦ (
          true,
          record s {
            data_ = hash_add s.data_ tp;
            targets = sw_add_target_internal s.targets ti;
            world = w;
          },
        )
      ]

  unfoldable pub poll_add_target :
      Target
      → Option (TargetInternal r)
      → Shared r SwatcherPoll
      → Option (Bool × Shared r SwatcherPoll)
  unfolding add_snapshots sw_find_target_internal poll_initial_snapshot
  poll_add_target target ti s = elim (sw_find_target_internal s.targets target.path) [
    | some found ↦ some (false, record s { world = fail Error.target_exists s.world })
    | none ↦ elim (sw_malloc env.system.gives Resource.watch s.world) [
      | none ↦ some (false, record s { world = fail Error.alloc s.world })
      | some w ↦ (do
        snapshots ← poll_initial_snapshot (env.scan_env target (patterns_of ti)) env.fuel
        some (add_snapshots target ti snapshots (record s { world = w })))
    ]
  ]

  -- The recursion is that of the scans.
  unfoldable pub poll_add_target_recursive :
      Bool
      → Target
      → Option (TargetInternal r)
      → Shared r SwatcherPoll
      → Option (Bool × Shared r SwatcherPoll)
  unfolding poll_add_target
  poll_add_target_recursive dont_add_self target ti s = poll_add_target target ti s

module _ {r : Regex} where
  unfoldable pub poll_remove_target :
      Target → Option (TargetInternal r) → Shared r SwatcherPoll → Bool × Shared r SwatcherPoll
  poll_remove_target target none s = (false, s)
  poll_remove_target target (some ti) s = elim (hash_find poll_key target.path s.data_) [
    | none ↦ (true, s)
    | some tp ↦ (
      true,
      record s {
        data_ = hash_del poll_key target.path s.data_;
        world = sw_free Resource.watch s.world;
      },
    )
  ]
