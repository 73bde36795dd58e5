-- ===== src/Poll/State.antt =====
-- backend/backend_poll.c: the snapshots of a target, the helpers on them, and `emit_event`.
use Prim.Native.Nat.{◌%◌, ◌^◌}
use swatcher.Base.{
  ℕ, ◌+◌, ◌-◌, Bool, true, false, ◌||◌, not, Option, none, some, List, [], ◌∷◌, ◌++◌, Bytes, ◌==◌,
  if◌then◌else◌, hash_add, hash_set,
}
use swatcher.Platform.{Platform, FileInfo, basename}
use swatcher.Types.{FsEvent, Call, Target, Config, wanted}
use swatcher.Vcs.{VcsCache, pause}
use swatcher.Pattern.Compile.{Regex, CompiledPatterns, sw_pattern_matched}

-- `poll_file_snapshot`
pub record FileSnapshot : Type 0 where
  pub path : Bytes
  pub mtime : ℕ
  pub size : ℕ
  pub seen : Bool
  pub is_new : Bool

abbrev pub snapshot_key : FileSnapshot → Bytes
snapshot_key snap = snap.path

-- `poll_dir_mtime`
pub record DirMtime : Type 0 where
  pub path : Bytes
  pub mtime : ℕ
  pub cached_at : ℕ

abbrev pub dir_key : DirMtime → Bytes
dir_key dm = dm.path

-- The three pattern lists of `swatcher_target_internal`.
pub record TargetPatterns (r : Regex) : Type 0 where
  pub compiled_callback : Option (CompiledPatterns r)
  pub compiled_watch : Option (CompiledPatterns r)
  pub compiled_ignore : Option (CompiledPatterns r)

-- What a scan reads and does not change: the system, the configuration, the target and its internal
-- struct, the wall clock, which allocations succeed, and what fresh memory holds in the flag `is_new`.
pub record ScanEnv (r : Regex) : Type 0 where
  pub platform : Platform
  pub config : Config
  pub target : Target
  pub patterns : Option (TargetPatterns r)
  pub time : ℕ
  pub entry_memory : Bytes → Bool
  pub dir_memory : Bytes → Bool
  pub fresh_flag : Bool

-- What a scan changes: the two tables of `swatcher_target_poll`, the cache of vcs.c, the target's
-- `last_event_time`, and the calls of its callback so far.
pub record ScanState : Type 0 where
  pub snapshots : List FileSnapshot
  pub dir_mtimes : List DirMtime
  pub vcs_cache : VcsCache
  pub last_event_time : ℕ
  pub calls : List Call

-- `a - b` on `uint64_t`
unfoldable pub sub64 : ℕ → ℕ → ℕ
sub64 a b = (a + 2 ^ 64 - b) % 2 ^ 64

module _ {r : Regex} (env : ScanEnv r) where
  -- A list of patterns lets a name pass if it is null or matches.
  unfoldable pub allowed : (TargetPatterns r → Option (CompiledPatterns r)) → Bytes → Bool
  allowed list name = elim env.patterns [
    | none ↦ true
    | some ti ↦ elim (list ti) [
      | none ↦ true
      | some cp ↦ sw_pattern_matched r (some cp) (some name)
    ]
  ]

  -- `ti && ti->compiled_ignore && sw_pattern_matched(ti->compiled_ignore, name)`
  unfoldable pub ignored : Bytes → Bool
  ignored name = elim env.patterns [
    | none ↦ false
    | some ti ↦ sw_pattern_matched r ti.compiled_ignore (some name)
  ]

  unfoldable pub emit_event : FsEvent → Bytes → Bool → Option Bytes → ScanState → ScanState
  emit_event event path is_dir old_path s =
      if wanted env.target.events event
      then (let (paused, cache) = pause env.platform env.config s.vcs_cache env.target.path in
          if paused
          then record s { vcs_cache = cache }
          else if allowed (λ ti. ti.compiled_callback) (basename env.platform.separator path)
          then record s {
            vcs_cache = cache;
            last_event_time = env.time;
            calls =
                s.calls
                ++ record {
                  event = event;
                  target = env.target.path;
                  event_name = some path;
                  info = some (record { old_path = old_path; is_dir = is_dir });
                }
                  ∷ [];
          }
          else record s { vcs_cache = cache })
      else s

  -- `snapshot_add`: the flag `is_new` is what the caller sets, or what the memory held.
  unfoldable pub snapshot_add : Bytes → ℕ → ℕ → Bool → List FileSnapshot → List FileSnapshot
  snapshot_add path mtime size is_new snapshots =
      if env.entry_memory path
      then hash_add snapshots
          (record { path = path; mtime = mtime; size = size; seen = true; is_new = is_new })
      else snapshots

  -- A known file is seen again: its flag is set, and if its time or size has changed they are stored
  -- and reported.
  unfoldable pub refresh : FileSnapshot → FileInfo → ScanState → ScanState
  refresh snap info s =
      if not (snap.mtime == info.mtime) || not (snap.size == info.size)
      then emit_event FsEvent.modified snap.path false none (record s {
        snapshots =
            hash_set snapshot_key snap.path
              (λ e. record e { seen = true; mtime = info.mtime; size = info.size }) s.snapshots;
      })
      else record s {
        snapshots = hash_set snapshot_key snap.path (λ e. record e { seen = true }) s.snapshots;
      }
