-- ===== src/Core/Registry.antt =====
-- backend/backend_registry.c: the table of backends of a build, and the lookups in it.
use swatcher.Base.{
  ◌≡◌, refl, Option, none, some, List, [], ◌∷◌, ◌++◌, Bytes, codes, map, any, if◌then◌else◌,
  is_some, str_eq, arith,
}

-- The systems that the preprocessor tells apart.
pub data System : Type 0 where
  linux apple bsd windows other : System

-- The table of a build; `B` is the type of the backends, and each constructor is a parameter.
pub record Constructors (B : Type 0) : Type 0 where
  pub inotify : B
  pub fanotify : B
  pub uring : B
  pub kqueue : B
  pub fsevents : B
  pub win32 : B
  pub poll : B

module _ {B : Type 0} (ctor : Constructors B) where
  unfoldable pub native_backends : System → List (Bytes × B)
  native_backends System.linux =
      (codes "inotify", ctor.inotify)
      ∷ (codes "fanotify", ctor.fanotify)
      ∷ (codes "io_uring", ctor.uring)
      ∷ []
  native_backends System.apple =
      (codes "kqueue", ctor.kqueue) ∷ (codes "fsevents", ctor.fsevents) ∷ []
  native_backends System.bsd = (codes "kqueue", ctor.kqueue) ∷ []
  native_backends System.windows = (codes "win32", ctor.win32) ∷ []
  native_backends System.other = []

  unfoldable pub backends : System → List (Bytes × B)
  unfolding native_backends
  backends system = native_backends system ++ (codes "poll", ctor.poll) ∷ []

  -- The loop of `sw_backend_find`.
  unfoldable pub find_entry : Bytes → List (Bytes × B) → Option B
  find_entry name [] = none
  find_entry name ((n, b) ∷ rest) = if str_eq n name then some b else find_entry name rest

  unfoldable pub sw_backend_find : System → Bytes → Option B
  unfolding find_entry backends
  sw_backend_find system name = find_entry name (backends system)

  unfoldable pub sw_backend_list : System → List Bytes
  unfolding backends
  sw_backend_list system = map (λ e. e.0) (backends system)

  unfoldable pub first : List (Bytes × B) → B
  first [] = ctor.poll
  first ((_, b) ∷ _) = b

  -- `backends[0].ctor()`: the table always has an entry.
  unfoldable pub swatcher_backend_default : System → B
  unfolding first backends
  swatcher_backend_default system = first (backends system)

  find_entry_names :
      (name : Bytes) (entries : List (Bytes × B))
      → is_some (find_entry name entries) ≡ any (λ n. str_eq n name) (map (λ e. e.0) entries)
  unfolding find_entry
  find_entry_names name [] = refl
  find_entry_names name ((n, b) ∷ rest) = ground (arith, find_entry_names name rest)

  finds_poll : (system : System) → sw_backend_find system (codes "poll") ≡ some ctor.poll
  unfolding sw_backend_find backends native_backends find_entry str_eq
  finds_poll System.linux = refl
  finds_poll System.apple = refl
  finds_poll System.bsd = refl
  finds_poll System.windows = refl
  finds_poll System.other = refl

  -- What the second half of `sw_backend_find_lem` says of one system.
  abbrev pub DefaultIsFirst : System → Type 0
  DefaultIsFirst system =
      (default : Bytes) × (rest : List Bytes) × (sw_backend_list system ≡ default ∷ rest)
      × (sw_backend_find system default ≡ some (swatcher_backend_default system))

  default_first : (system : System) → DefaultIsFirst system
  unfolding sw_backend_find sw_backend_list swatcher_backend_default backends native_backends
      find_entry first str_eq
  default_first System.linux = (codes "inotify", _, refl, refl)
  default_first System.apple = (codes "kqueue", _, refl, refl)
  default_first System.bsd = (codes "kqueue", _, refl, refl)
  default_first System.windows = (codes "win32", _, refl, refl)
  default_first System.other = (codes "poll", _, refl, refl)

  -- On every system a backend is found by a name exactly if the name is on the list of names; "poll" is
  -- found and gives the poll backend; and the first name on the list finds the default backend.
  pub sw_backend_find_lem :
      (system : System) (name : Bytes)
      → (is_some (sw_backend_find system name) ≡ any (λ n. str_eq n name) (sw_backend_list system))
        × (sw_backend_find system (codes "poll") ≡ some ctor.poll)
        × DefaultIsFirst system
  unfolding sw_backend_find sw_backend_list backends
  sw_backend_find_lem system name =
      (find_entry_names name (backends system), finds_poll system, default_first system)
