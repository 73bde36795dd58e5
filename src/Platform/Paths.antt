-- ===== src/Platform/Paths.antt =====
-- The types of platform/platform.h, and the path expressions that rescan.c, vcs.c and the backends
-- repeat: joining a directory and an entry's name, and cutting a path at its last separator.
use swatcher.Base.{
  ℕ, ◌-◌, Bool, false, ◌&&◌, ◌||◌, not, Option, none, some, List, [], ◌∷◌, ◌++◌, Bytes, take, ◌==◌,
  if◌then◌else◌, str_eq, starts_with, has_byte,
}

-- `sw_file_info`
pub record FileInfo : Type 0 where
  pub is_file : Bool
  pub is_directory : Bool
  pub is_symlink : Bool
  pub size : ℕ
  pub mtime : ℕ

-- `sw_dir_entry`
pub record DirEntry : Type 0 where
  pub name : Bytes
  pub is_dir : Bool
  pub is_file : Bool
  pub is_symlink : Bool

-- What the operating system answers: `SW_PATH_MAX`, `sw_path_separator`, `sw_stat` (path and
-- follow_symlinks), the entries that `sw_dir_open` and `sw_dir_next` yield, and the monotonic clock
-- as it is read on the way through a directory.
pub record Platform : Type 0 where
  pub path_max : ℕ
  pub separator : ℕ
  pub stat : Bytes → Bool → Option FileInfo
  pub dir_open : Bytes → Option (List DirEntry)
  pub time_now_ms : Bytes → ℕ

-- What `snprintf(buf, n, "%s", s)` leaves in `buf`: at most `n - 1` bytes and the NUL.
unfoldable pub snprintf : ℕ → Bytes → Bytes
snprintf n s = take (n - 1) s

-- `len > 0 && s[len - 1] == c`
unfoldable pub ends_with : ℕ → Bytes → Bool
ends_with c [] = false
ends_with c (x ∷ []) = x == c
ends_with c (_ ∷ y ∷ s) = ends_with c (y ∷ s)

-- `child_path`: the directory and the name with one separator between them
unfoldable pub child_path : Platform → Bytes → Bytes → Bytes
unfolding snprintf ends_with
child_path p dir name =
    if ends_with p.separator dir
    then snprintf p.path_max (dir ++ name)
    else snprintf p.path_max (dir ++ p.separator ∷ name)

-- `strrchr(s, c)`, as what stands before the last `c` and what stands behind it
unfoldable pub strrchr_at : ℕ → Bytes → Option (Bytes × Bytes)
strrchr_at c [] = none
strrchr_at c (x ∷ s) = elim (strrchr_at c s) [
  | some (before, after) ↦ some (x ∷ before, after)
  | none ↦ if x == c then some ([], s) else none
]

-- `strrchr(s, c) + 1`
unfoldable pub strrchr : ℕ → Bytes → Option Bytes
unfolding strrchr_at
strrchr c s = elim (strrchr_at c s) [ some (_, after) ↦ some after | none ↦ none ]

-- `name = strrchr(path, sep); name = name ? name + 1 : path`
unfoldable pub basename : ℕ → Bytes → Bytes
unfolding strrchr
basename c path = elim (strrchr c path) [ some name ↦ name | none ↦ path ]

-- `strcmp(name, ".") == 0 || strcmp(name, "..") == 0`
unfoldable pub is_dot : Bytes → Bool
unfolding str_eq
is_dot name = str_eq name (b'.' ∷ []) || str_eq name (b'.' ∷ b'.' ∷ [])

-- `path + strlen(dir)`, one separator skipped, is neither empty nor holds another separator.
unfoldable pub plain_rest : ℕ → Bytes → Bool
plain_rest c [] = false
plain_rest c (x ∷ s) = not (has_byte c (x ∷ s))

unfoldable pub skip_separator : ℕ → Bytes → Bytes
skip_separator c [] = []
skip_separator c (x ∷ s) = if x == c then s else x ∷ s

unfoldable pub drop_prefix : Bytes → Bytes → Bytes
drop_prefix [] s = s
drop_prefix (_ ∷ p) [] = []
drop_prefix (_ ∷ p) (_ ∷ s) = drop_prefix p s

-- The test of `scan_path` for the direct children of a directory.
unfoldable pub is_direct_child : ℕ → Bytes → Bytes → Bool
is_direct_child c dir path =
    starts_with dir path && plain_rest c (skip_separator c (drop_prefix dir path))
