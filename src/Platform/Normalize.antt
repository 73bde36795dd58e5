-- ===== src/Platform/Normalize.antt =====
-- platform/platform_posix.c: what `sw_path_normalize` and `sw_stat` promise.
use swatcher.Base.{
  ℕ, suc, ◌-◌, ◌<◌, ◌≡◌, refl, Bool, true, false, some, [], ◌∷◌, ◌++◌, Bytes, length, length-take,
  take_of_length-le, if◌then◌else◌, arith, ◌&&◌, Bool-cases, Option-cases, inl, inr, ◌∙◌,
}
use swatcher.Platform.Paths.{snprintf, FileInfo}
use swatcher.Platform.Names.{length-snprintf}
use swatcher.Platform.Posix.{Libc, sw_path_normalize, sw_path_is_absolute, sw_stat, StatBuf}

absolute-snprintf :
    (n : ℕ) (s : Bytes)
    → 1 < n
    → sw_path_is_absolute s ≡ true
    → sw_path_is_absolute (snprintf n s) ≡ true
unfolding sw_path_is_absolute snprintf
absolute-snprintf n [] h e = cc
absolute-snprintf n (x ∷ s) h e = let p : n - 1 ≡ suc (n - 2) = omega arith in rw p e

absolute-append : (s t : Bytes) → sw_path_is_absolute s ≡ true → sw_path_is_absolute (s ++ t) ≡ true
unfolding sw_path_is_absolute
absolute-append [] t e = cc
absolute-append (x ∷ s) t e = e

snprintf-snprintf : (n : ℕ) (s : Bytes) → snprintf n (snprintf n s) ≡ snprintf n s
unfolding snprintf
snprintf-snprintf n s = take_of_length-le (n - 1) _ (omega (arith, length-take (n - 1) s))

-- The working directory that the C library reports is an absolute path.
abbrev pub CwdIsAbsolute : Libc → Type 0
CwdIsAbsolute libc = (cwd : Bytes) → libc.getcwd ≡ some cwd → sw_path_is_absolute cwd ≡ true

-- What a normalisation without symbolic links writes is cut from an absolute path.
normalize_from :
    (libc : Libc) (input : Bytes) (size : ℕ) (q : Bytes)
    → CwdIsAbsolute libc
    → sw_path_normalize libc input size false ≡ some q
    → (s : Bytes) × (q ≡ snprintf size s) × (sw_path_is_absolute s ≡ true)
unfolding sw_path_normalize
normalize_from libc input size q h e = elim (Bool-cases (sw_path_is_absolute input)) [
  | inl a ↦ (input, ground arith, a)
  | inr r ↦ elim (Option-cases libc.getcwd) [
    | inl gone ↦ absurd (ground arith)
    | inr (cwd, found) ↦ (cwd ++ b'/' ∷ input, ground arith, absolute-append cwd _ (h cwd found))
  ]
]

normalize_absolute :
    (libc : Libc) (q : Bytes) (size : ℕ)
    → sw_path_is_absolute q ≡ true
    → sw_path_normalize libc q size false ≡ some (snprintf size q)
unfolding sw_path_normalize
normalize_absolute libc q size h = rw h

-- Without the resolution of symbolic links, and with an absolute working directory and a buffer of at
-- least two bytes, a normalised path is absolute, fits in the buffer with its NUL, and is its own
-- normalisation.
pub sw_path_normalize_absolute :
    (libc : Libc) (input : Bytes) (size : ℕ) (q : Bytes)
    → CwdIsAbsolute libc
    → 1 < size
    → sw_path_normalize libc input size false ≡ some q
    → (sw_path_is_absolute q ≡ true)
      × (length q < size)
      × (sw_path_normalize libc q size false ≡ some q)
sw_path_normalize_absolute libc input size q h big e =
    let (s, cut, absolute) = normalize_from libc input size q h e in
    let q_absolute : sw_path_is_absolute q ≡ true =
      rw cut (absolute-snprintf size s big absolute) in
    (
      q_absolute,
      rw cut (omega (arith, length-snprintf size s)),
      normalize_absolute libc q size q_absolute ∙ rw (cut, snprintf-snprintf) refl,
    )

-- Whatever the mode, at most one of the three kinds is reported, and the size and the time are those
-- of the call that `follow_symlinks` selects.
sw_stat_lem :
    (libc : Libc) (path : Bytes) (follow : Bool) (info : FileInfo)
    → sw_stat libc path follow ≡ some info
    → (info.is_file && info.is_directory ≡ false)
      × (info.is_file && info.is_symlink ≡ false)
      × (info.is_directory && info.is_symlink ≡ false)
      × ((st : StatBuf) × ((if follow then libc.stat path else libc.lstat path) ≡ some st)
          × (info.size ≡ st.st_size)
          × (info.mtime ≡ st.st_mtime))
unfolding sw_stat
sw_stat_lem libc path follow info e =
    elim (Option-cases (if follow then libc.stat path else libc.lstat path)) [
      | inl gone ↦ absurd (ground arith)
      | inr (st, found) ↦
          (ground arith, ground arith, ground arith, (st, found, ground arith, ground arith))
    ]
