-- ===== src/Platform/Sample.antt =====
-- A small file system for the tests: a root with a file, a subdirectory and a repository.
use swatcher.Base.{
  ℕ, Bool, true, false, Option, none, some, List, [], ◌∷◌, Bytes, codes, str_eq, if◌then◌else◌,
}
use swatcher.Platform.Paths.{FileInfo, DirEntry, Platform}

abbrev pub file_entry : Bytes → DirEntry
file_entry name = record { name = name; is_dir = false; is_file = true; is_symlink = false }

abbrev pub dir_entry : Bytes → DirEntry
dir_entry name = record { name = name; is_dir = true; is_file = false; is_symlink = false }

abbrev pub file_of : ℕ → ℕ → FileInfo
file_of size mtime = record {
  is_file = true;
  is_directory = false;
  is_symlink = false;
  size = size;
  mtime = mtime;
}

abbrev pub a_directory : FileInfo
a_directory = record {
  is_file = false;
  is_directory = true;
  is_symlink = false;
  size = 0;
  mtime = 7;
}

unfoldable pub sample_stat : Bytes → Bool → Option FileInfo
unfolding str_eq
sample_stat path follow =
    if str_eq path (codes "/r/a.txt")
    then some (file_of 3 5)
    else if str_eq path (codes "/r/sub/b.txt")
    then some (file_of 4 6)
    else if str_eq path (codes "/r")
    then some a_directory
    else if str_eq path (codes "/r/sub")
    then some a_directory
    else if str_eq path (codes "/r/.git")
    then some a_directory
    else if str_eq path (codes "/r/.git/index.lock")
    then some (file_of 0 1)
    else none

abbrev pub root_entries : List DirEntry
root_entries = dir_entry (codes ".") ∷ file_entry (codes "a.txt") ∷ dir_entry (codes "sub") ∷ []

unfoldable pub sample_dir_open : Bytes → Option (List DirEntry)
unfolding str_eq
sample_dir_open path =
    if str_eq path (codes "/r")
    then some root_entries
    else if str_eq path (codes "/r/sub")
    then some (file_entry (codes "b.txt") ∷ [])
    else none

abbrev pub sample : Platform
sample = record {
  path_max = 64;
  separator = b'/';
  stat = sample_stat;
  dir_open = sample_dir_open;
  time_now_ms = λ path. 1000;
}
