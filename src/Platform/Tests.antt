-- ===== src/Platform/Tests.antt =====
-- Tests of the path arithmetic, and the theorems at concrete inputs.
use swatcher.Base.{
  ◌<◌, ◌≡◌, ◌↔◌, ◌⊎◌, refl, true, false, none, some, ◌∷◌, ◌++◌, Bytes, codes, length, starts_with,
  has_byte, arith,
}
use swatcher.Platform.Paths.{
  child_path, basename, is_direct_child, plain_rest, skip_separator, drop_prefix, ends_with,
  snprintf,
}
use swatcher.Platform.Names.{basename-child_path}
use swatcher.Platform.Posix.{Libc, sw_path_is_absolute, sw_path_normalize, sw_filesystem_is_remote}
use swatcher.Platform.Normalize.{sw_path_normalize_absolute, CwdIsAbsolute}
use swatcher.Platform.Children.{IsComponent, is_direct_child_iff}
use swatcher.Platform.Sample.{sample}

joined : child_path sample (codes "/r") (codes "a.txt") ≡ codes "/r/a.txt"
unfolding child_path ends_with snprintf
joined = refl

sibling_passes : is_direct_child b'/' (codes "/a") (codes "/ab") ≡ true
unfolding is_direct_child starts_with plain_rest skip_separator drop_prefix has_byte
sibling_passes = refl

abbrev libc : Libc
libc = record {
  path_max = 64;
  stat = λ path. some (record { st_mode = 0x81a4; st_size = 3; st_mtime = 5 });
  lstat = λ path. none;
  opendir = λ path. none;
  getcwd = some (codes "/home");
  realpath = λ path. none;
  statfs = λ path. some 0x6969;
  clock_ms = λ path. 0;
}

remote : sw_filesystem_is_remote libc (codes "/mnt") ≡ true
unfolding sw_filesystem_is_remote
remote = refl

cwd_absolute : CwdIsAbsolute libc
unfolding sw_path_is_absolute
cwd_absolute cwd h = ground arith

basename-child_path_example :
    basename sample.separator (child_path sample (codes "/r") (codes "a.txt")) ≡ codes "a.txt"
unfolding has_byte
basename-child_path_example =
    basename-child_path sample (codes "/r") (codes "a.txt") refl (omega arith)

sw_path_normalize_absolute_example :
    (sw_path_is_absolute (codes "/home/x") ≡ true)
    × (length (codes "/home/x") < 64)
    × (sw_path_normalize libc (codes "/home/x") 64 false ≡ some (codes "/home/x"))
unfolding sw_path_normalize
sw_path_normalize_absolute_example =
    sw_path_normalize_absolute libc (codes "x") 64 (codes "/home/x") cwd_absolute (omega arith) refl

is_direct_child_iff_example : (is_direct_child b'/' (codes "/a") (codes "/a/b") ≡ true) ↔ (
    (name : Bytes) × IsComponent b'/' name
    × ((codes "/a/b" ≡ codes "/a" ++ name) ⊎ (codes "/a/b" ≡ codes "/a" ++ b'/' ∷ name)))
is_direct_child_iff_example = is_direct_child_iff b'/' (codes "/a") (codes "/a/b")
