-- ===== src/Platform/Posix.antt =====
-- src/platform/platform_posix.c: file information, directory entries, path normalisation and the
-- test for remote file systems, over the C library's calls.
use swatcher.Base.{
  ℕ, ◌*◌, Bool, false, Option, none, some, List, [], ◌∷◌, ◌++◌, Bytes, take, map, any, bit_and,
  ◌==◌, if◌then◌else◌,
}
use swatcher.Platform.Paths.{FileInfo, DirEntry, Platform, snprintf}

-- `struct stat`
pub record StatBuf : Type 0 where
  pub st_mode : ℕ
  pub st_size : ℕ
  pub st_mtime : ℕ

-- `struct dirent`
pub record Dirent : Type 0 where
  pub d_name : Bytes
  pub d_type : ℕ

-- The C library and the kernel behind it. `none` is a call that fails.
pub record Libc : Type 0 where
  pub path_max : ℕ
  pub stat : Bytes → Option StatBuf
  pub lstat : Bytes → Option StatBuf
  pub opendir : Bytes → Option (List Dirent)
  pub getcwd : Option Bytes
  pub realpath : Bytes → Option Bytes
  pub statfs : Bytes → Option ℕ
  pub clock_ms : Bytes → ℕ

-- `S_ISREG`, `S_ISDIR`, `S_ISLNK`: the file type in the high bits of the mode
abbrev file_type : ℕ → ℕ
file_type mode = bit_and mode 0xf000

unfoldable pub file_info : StatBuf → FileInfo
file_info st = record {
  is_file = file_type st.st_mode == 0x8000;
  is_directory = file_type st.st_mode == 0x4000;
  is_symlink = file_type st.st_mode == 0xa000;
  size = st.st_size;
  mtime = st.st_mtime;
}

unfoldable pub sw_stat : Libc → Bytes → Bool → Option FileInfo
unfolding file_info
sw_stat libc path follow_symlinks =
    elim (if follow_symlinks then libc.stat path else libc.lstat path) [
      | none ↦ none
      | some st ↦ some (file_info st)
    ]

-- `entry->name` has 256 bytes; `DT_DIR`, `DT_REG` and `DT_LNK` are 4, 8 and 10.
unfoldable pub sw_dir_next : Dirent → DirEntry
sw_dir_next de = record {
  name = take 255 de.d_name;
  is_dir = de.d_type == 4;
  is_file = de.d_type == 8;
  is_symlink = de.d_type == 10;
}

unfoldable pub sw_dir_open : Libc → Bytes → Option (List DirEntry)
unfolding sw_dir_next
sw_dir_open libc path = elim (libc.opendir path) [
  | none ↦ none
  | some entries ↦ some (map sw_dir_next entries)
]

unfoldable pub sw_path_is_absolute : Bytes → Bool
sw_path_is_absolute [] = false
sw_path_is_absolute (c ∷ _) = c == b'/'

-- What `output` holds on success.
unfoldable pub sw_path_normalize : Libc → Bytes → ℕ → Bool → Option Bytes
unfolding snprintf sw_path_is_absolute
sw_path_normalize libc input size resolve_symlinks =
    if resolve_symlinks
    then (if sw_path_is_absolute input then libc.realpath input else elim libc.getcwd [
      | none ↦ none
      | some cwd ↦ libc.realpath (snprintf (libc.path_max * 2) (cwd ++ b'/' ∷ input))
    ])
    else if sw_path_is_absolute input
    then some (snprintf size input)
    else elim libc.getcwd [ none ↦ none | some cwd ↦ some (snprintf size (cwd ++ b'/' ∷ input)) ]

-- NFS, CIFS, SMB2, FUSE, AFS, NCP, OCFS2, 9P
abbrev remote_types : List ℕ
remote_types =
    0x6969 ∷ 0xff534d42 ∷ 0xfe534d42 ∷ 0x65735546 ∷ 0x5346414f ∷ 0x564c ∷ 0x6f636673 ∷ 0x01021997
    ∷ []

unfoldable pub sw_filesystem_is_remote : Libc → Bytes → Bool
sw_filesystem_is_remote libc path = elim (libc.statfs path) [
  | none ↦ false
  | some f_type ↦ any (λ t. f_type == t) remote_types
]

-- The portable code's view of a POSIX system.
unfoldable pub posix : Libc → Platform
unfolding sw_stat sw_dir_open
posix libc = record {
  path_max = libc.path_max;
  separator = b'/';
  stat = sw_stat libc;
  dir_open = sw_dir_open libc;
  time_now_ms = libc.clock_ms;
}
