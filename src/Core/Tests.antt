-- ===== src/Core/Tests.antt =====
-- The watcher with the poll backend on small inputs.
use mathlib.Core.Path.{subst}
use swatcher.Base.{
  ◌≡◌, refl, ℕ, Bool, true, false, Option, none, some, List, [], ◌∷◌, Bytes, codes, any, is_some,
  str_eq,
}
use swatcher.Platform.{FileInfo}
use swatcher.Types.{TargetDesc, Config, Allocator, Error}
use swatcher.Pattern.Compile.{Regex}
use swatcher.Core.World.{Resource, Block, World, sw_malloc, sw_alloc_set, sw_alloc_clear, take_back}
use swatcher.Core.Holdings.{IsPaired}
use swatcher.Poll.Thread.{SwatcherPoll}
use swatcher.Core.Registry.{
  System, Constructors, sw_backend_find, sw_backend_list, DefaultIsFirst, sw_backend_find_lem,
}
use swatcher.Core.Targets.{TargetInternal, TargetSystem, swatcher_target_create}
use swatcher.Core.Lifecycle.{
  Shared, Backend, Setting, choose, pre_install, swatcher_init_with_backend,
  swatcher_create_with_backend, swatcher_start, swatcher_destroy,
}
use swatcher.Core.Creation.{TargetOutcome, target_error, swatcher_target_create_lem}
use swatcher.Core.PollBackend.{poll_init, poll_backend, poll_backend-IsTidy}
use swatcher.Core.Init.{IsTidy, Outcome, first_error, swatcher_init_with_backend_lem}
use swatcher.Core.Made.{fresh}
use swatcher.Core.Lifetime.{swatcher_destroy-create}
use swatcher.Core.Stale.{swatcher_destroy-create_stale}

-- A backend is found by its name; the default on Linux is inotify.
abbrev numbered : Constructors ℕ
numbered = record {
  inotify = 1;
  fanotify = 2;
  uring = 3;
  kqueue = 4;
  fsevents = 5;
  win32 = 6;
  poll = 7;
}

abbrev no_regex : Regex
no_regex = record { Re = Bytes; re_compile = λ s. none; re_matchp = λ re s. none }

abbrev idle :
    TargetInternal no_regex → Shared no_regex SwatcherPoll → Bool × Shared no_regex SwatcherPoll
idle ti s = (false, s)

abbrev always : Resource → Bool
always resource = true

abbrev quiet : Backend no_regex SwatcherPoll
quiet = poll_backend always idle (λ target ti s. (false, s)) (λ dont_add_self. idle)

quiet-IsTidy : IsTidy quiet
quiet-IsTidy = poll_backend-IsTidy always idle (λ target ti s. (false, s)) (λ dont_add_self. idle)

abbrev setting : Setting no_regex SwatcherPoll
setting = record { gives = always; find = λ name. none; default = quiet }

abbrev custom : Allocator
custom = record { id = 5; has_malloc = true; has_free = true }

abbrev plain : Config
plain = record {
  poll_interval_ms = 100;
  enable_logging = false;
  coalesce_ms = 0;
  allocator = none;
  overflow_rescan = false;
  vcs_aware = false;
}

abbrev own : Config
own = record plain { allocator = some custom }

abbrev start : World
start = record { g_alloc = none; last_error = Error.no_error; live = []; misfreed = [] }

abbrev used : World
used = record start { g_alloc = some custom }

default-IsTidy : (b : Backend no_regex SwatcherPoll) → choose setting none ≡ some b → IsTidy b
default-IsTidy b h = subst (λ o. elim o [ none ↦ Unit | some x ↦ IsTidy x ]) h quiet-IsTidy

own-IsPaired : (c : Config) → some own ≡ some c → IsPaired c.allocator
own-IsPaired c h = subst (λ o. elim o [ none ↦ Unit | some x ↦ IsPaired x.allocator ]) h refl

sw_backend_find_lem_example :
    (is_some (sw_backend_find numbered System.linux (codes "poll"))
      ≡ any (λ n. str_eq n (codes "poll")) (sw_backend_list numbered System.linux))
    × (sw_backend_find numbered System.linux (codes "poll") ≡ some 7)
    × DefaultIsFirst numbered System.linux
sw_backend_find_lem_example = sw_backend_find_lem numbered System.linux (codes "poll")

swatcher_init_with_backend_lem_example :
    Outcome setting
      (some own)
      none
      start
      (swatcher_init_with_backend setting true (some own) none start)
      (first_error setting (some own) none start)
swatcher_init_with_backend_lem_example =
    swatcher_init_with_backend_lem setting (some own) none start own-IsPaired default-IsTidy

abbrev block : Option ℕ → Resource → Block
block owner resource = record { resource = resource; owner = owner }

-- The blocks of a watcher that has been created.
abbrev four : Option ℕ → Option ℕ → List Block
four watcher_owner owner =
    block owner Resource.backend_data
    ∷ block owner Resource.mutex
    ∷ block owner Resource.internal
    ∷ block watcher_owner Resource.watcher
    ∷ []

abbrev own_world : World
own_world = record used { live = four (some 5) (some 5) }

abbrev stale_world : World
stale_world = record start { live = four (some 5) none }

create_own :
    swatcher_create_with_backend setting (some own) none start
    ≡ (some (fresh setting own quiet []), own_world)
unfolding swatcher_create_with_backend sw_malloc sw_alloc_set sw_alloc_clear poll_init
create_own = refl

create_stale :
    swatcher_create_with_backend setting (some plain) none used
    ≡ (some (fresh setting plain quiet []), stale_world)
unfolding swatcher_create_with_backend sw_malloc sw_alloc_set sw_alloc_clear poll_init
create_stale = refl

swatcher_destroy-create_example :
    let begun = swatcher_start setting (some (fresh setting own quiet [])) own_world in
    let left = swatcher_destroy (some begun.1) begun.2 in
    (left.live ≡ []) × (left.misfreed ≡ []) × (left.g_alloc ≡ none)
unfolding pre_install sw_alloc_set
swatcher_destroy-create_example =
    swatcher_destroy-create setting own none start own_world (fresh setting own quiet []) refl refl
      default-IsTidy create_own

swatcher_destroy-create_stale_example :
    (swatcher_destroy (some (some (fresh setting plain quiet []))) stale_world).misfreed
    ≡ Resource.watcher ∷ []
unfolding take_back
swatcher_destroy-create_stale_example =
    swatcher_destroy-create_stale setting plain none used stale_world (fresh setting plain quiet [])
      custom refl refl refl refl default-IsTidy create_stale

abbrev a_file : FileInfo
a_file = record { is_file = true; is_directory = false; is_symlink = false; size = 3; mtime = 9 }

abbrev system : TargetSystem
system = record {
  gives = always;
  gives_patterns = true;
  gives_array = true;
  normalize = λ path follow. some path;
  stat = λ path follow. some a_file;
  time = 1000;
}

abbrev desc : TargetDesc
desc = record {
  path = codes "/r";
  is_recursive = true;
  events = 0xff;
  watch_options = 0;
  callback_patterns = none;
  watch_patterns = none;
  ignore_patterns = some (codes "a" ∷ []);
  user_data = 0;
  follow_symlinks = true;
  callback = true;
}

swatcher_target_create_lem_example :
    TargetOutcome no_regex system
      (some desc)
      start
      (swatcher_target_create no_regex system (some desc) start)
      (target_error no_regex system (some desc))
swatcher_target_create_lem_example =
    swatcher_target_create_lem no_regex system (some desc) start refl
