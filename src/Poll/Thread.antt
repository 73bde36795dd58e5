-- ===== src/Poll/Thread.antt =====
-- backend/backend_poll.c: `poll_thread_func`. The time is in milliseconds; the flag `running` is set until
-- `stop_at`, a sleep lasts as long as it is told to, and a round of scans takes some time.
use swatcher.Base.{
  ℕ, zero, suc, ◌+◌, ◌-◌, Bool, true, false, ◌&&◌, Option, none, some, List, [], ◌∷◌, ltb, ◌==◌,
  ◌>>=◌, if◌then◌else◌,
}
use swatcher.Types.{Call, Target}
use swatcher.Vcs.{VcsCache}
use swatcher.Pattern.Compile.{Regex}
use swatcher.Poll.State.{FileSnapshot, DirMtime, ScanEnv, ScanState}
use swatcher.Poll.Target.{poll_scan_target}

-- `swatcher_target_poll`
pub record TargetPoll : Type 0 where
  pub target : Target
  pub snapshots : List FileSnapshot
  pub dir_mtimes : List DirMtime

-- `swatcher_poll`
abbrev pub SwatcherPoll : Type 0
SwatcherPoll = List TargetPoll

-- The table of targets, the cache of vcs.c, and the calls of the callbacks.
pub record PollState : Type 0 where
  pub targets : SwatcherPoll
  pub vcs_cache : VcsCache
  pub calls : List Call

-- What the thread meets: the configured interval, when it is told to stop, what a scan that begins at a
-- time finds and how long the round takes, and the fuel of a scan.
pub record PollWorld (r : Regex) : Type 0 where
  pub poll_interval_ms : ℕ
  pub stop_at : ℕ
  pub env_at : ℕ → Target → ScanEnv r
  pub round_ms : ℕ → ℕ
  pub scan_fuel : ℕ

-- `remaining > 100 ? 100 : remaining`
unfoldable pub chunk : ℕ → ℕ
chunk remaining = if ltb 100 remaining then 100 else remaining

module _ {r : Regex} (world : PollWorld r) where
  abbrev pub interval_ms : ℕ
  interval_ms = if world.poll_interval_ms == 0 then 500 else world.poll_interval_ms

  -- `sw_atomic_load(&sw->running)`
  abbrev pub running : ℕ → Bool
  running t = ltb t world.stop_at

  -- The inner loop; each of its turns takes some of what remains. `sw_sleep_ms` is taken to last exactly
  -- what it is asked for.
  unfoldable pub poll_sleep : ℕ → ℕ → ℕ → ℕ
  poll_sleep zero remaining t = t
  poll_sleep (suc fuel) remaining t =
      let rest = poll_sleep fuel (remaining - chunk remaining) (t + chunk remaining) in
      if ltb 0 remaining && running t then rest else t

  unfoldable pub scan_target : ℕ → TargetPoll → VcsCache → List Call → Option ScanState
  unfolding poll_scan_target
  scan_target t tp vcs_cache calls =
      poll_scan_target (world.env_at t tp.target) world.scan_fuel (record {
        snapshots = tp.snapshots;
        dir_mtimes = tp.dir_mtimes;
        vcs_cache = vcs_cache;
        last_event_time = tp.target.last_event_time;
        calls = calls;
      })

  -- The loop over the targets.
  unfoldable pub scan_targets : ℕ → List TargetPoll → VcsCache → List Call → Option PollState
  unfolding scan_target
  scan_targets t [] vcs_cache calls =
      some (record { targets = []; vcs_cache = vcs_cache; calls = calls })
  scan_targets t (tp ∷ rest) vcs_cache calls = do
    after ← scan_target t tp vcs_cache calls
    others ← scan_targets t rest after.vcs_cache after.calls
    some (record others {
      targets =
          record {
            target = record tp.target { last_event_time = after.last_event_time };
            snapshots = after.snapshots;
            dir_mtimes = after.dir_mtimes;
          }
          ∷ others.targets;
    })

  unfoldable pub scan_round : ℕ → PollState → Option PollState
  unfolding scan_targets
  scan_round t s = scan_targets t s.targets s.vcs_cache s.calls

  -- The outer loop from a time on: when it ends, and what it leaves.
  unfoldable pub poll_thread_func : ℕ → ℕ → PollState → Option (ℕ × PollState)
  unfolding poll_sleep scan_round
  poll_thread_func zero t s = none
  poll_thread_func (suc fuel) t s =
      let t' = poll_sleep interval_ms interval_ms t in
      elim (running t) [
        | false ↦ some (t, s)
        | true ↦ elim (running t') [
          | false ↦ some (t', s)
          | true ↦ (do s' ← scan_round t' s; poll_thread_func fuel (t' + world.round_ms t') s')
        ]
      ]
