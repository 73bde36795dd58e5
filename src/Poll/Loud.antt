-- ===== src/Poll/Loud.antt =====
-- backend/backend_poll.c: `emit_event` for a target that wants every event, with no callback patterns
-- and no pause for version control; and what it leaves alone for any target.
use swatcher.Base.{
  ℕ, ◌+◌, ◌≡◌, refl, Bool, true, false, Option, some, [], ◌∷◌, ◌++◌, Bytes, count, count-append,
  arith, one_if, ◌==◌,
}
use swatcher.Platform.{basename}
use swatcher.Types.{FsEvent, Call, bits, wanted, wanted_all}
use swatcher.Vcs.{pause}
use swatcher.Pattern.Compile.{Regex}
use swatcher.Poll.State.{ScanEnv, ScanState, allowed, emit_event}

-- The calls with this event.
abbrev pub calls_of : FsEvent → ScanState → ℕ
calls_of event s = count (λ (c : Call). bits c.event == bits event) s.calls

-- Every event of the target reaches the callback.
pub record IsLoud {r : Regex} (env : ScanEnv r) : Type 0 where
  pub all_events : env.target.events ≡ 0xff
  pub no_pause : env.config.vcs_aware ≡ false
  pub no_filter : (name : Bytes) → allowed env (λ ti. ti.compiled_callback) name ≡ true

module _ {r : Regex} (env : ScanEnv r) where
  pub emit_event-snapshots :
      (event : FsEvent) (path : Bytes) (is_dir : Bool) (old_path : Option Bytes) (s : ScanState)
      → ((emit_event env event path is_dir old_path s).snapshots ≡ s.snapshots)
        × ((emit_event env event path is_dir old_path s).dir_mtimes ≡ s.dir_mtimes)
  unfolding emit_event
  emit_event-snapshots event path is_dir old_path s = ground arith

  wanted_loud : (event : FsEvent) → env.target.events ≡ 0xff → wanted env.target.events event ≡ true
  wanted_loud event h = rw h (wanted_all event)

  -- The call that `emit_event` makes.
  abbrev pub call_for : FsEvent → Bytes → Bool → Option Bytes → Call
  call_for event path is_dir old_path = record {
    event = event;
    target = env.target.path;
    event_name = some path;
    info = some (record { old_path = old_path; is_dir = is_dir });
  }

  pause_off :
      (s : ScanState)
      → env.config.vcs_aware ≡ false
      → pause env.platform env.config s.vcs_cache env.target.path ≡ (false, s.vcs_cache)
  unfolding pause
  pause_off s h = ground arith

  pub emit_event-calls :
      (event : FsEvent) (path : Bytes) (is_dir : Bool) (old_path : Option Bytes) (s : ScanState)
      → IsLoud env
      → (emit_event env event path is_dir old_path s).calls
        ≡ s.calls ++ call_for event path is_dir old_path ∷ []
  unfolding emit_event
  emit_event-calls event path is_dir old_path s loud =
      rw
        (
          wanted_loud event loud.all_events,
          pause_off s loud.no_pause,
          loud.no_filter (basename env.platform.separator path),
        )
        refl

  pub calls_of-emit_event :
      (e event : FsEvent) (path : Bytes) (is_dir : Bool) (old_path : Option Bytes) (s : ScanState)
      → IsLoud env
      → calls_of e (emit_event env event path is_dir old_path s)
        ≡ calls_of e s + one_if (bits event == bits e)
  calls_of-emit_event e event path is_dir old_path s loud =
      rw
        (
          emit_event-calls event path is_dir old_path s loud,
          count-append (λ (c : Call). bits c.event == bits e) s.calls,
        )
        (ground arith)
