-- ===== src/Platform/Names.antt =====
-- Path arithmetic: what a joined path is cut into again, and how long it is.

use swatcher.Base.{
  ℕ, ◌-◌, ◌+◌, ◌≤◌, ◌<◌, ◌≡◌, refl, ap, true, false, none, some, [], ◌∷◌, ◌++◌, Bytes, length,
  length-append, length-take, take_of_length-le, take-append, has_byte, arith, Bool-cases, inl, inr,
  append_assoc,
}
use swatcher.Platform.Paths.{
  Platform, snprintf, ends_with, child_path, strrchr_at, strrchr, basename,
}

pub length-snprintf : (n : ℕ) (s : Bytes) → length (snprintf n s) ≤ n - 1
unfolding snprintf
length-snprintf n s = omega (arith, length-take (n - 1) s)

pub snprintf_fits : (n : ℕ) (s : Bytes) → length s < n → snprintf n s ≡ s
unfolding snprintf
snprintf_fits n s h = take_of_length-le (n - 1) s (omega arith)

strrchr_at_absent : (c : ℕ) (s : Bytes) → has_byte c s ≡ false → strrchr_at c s ≡ none
unfolding strrchr_at has_byte
strrchr_at_absent c [] h = refl
strrchr_at_absent c (x ∷ s) h = ground (arith, strrchr_at_absent c s)

strrchr_at-join :
    (c : ℕ) (dir name : Bytes)
    → has_byte c name ≡ false
    → strrchr_at c (dir ++ c ∷ name) ≡ some (dir, name)
unfolding strrchr_at
strrchr_at-join c [] name h = ground (arith, strrchr_at_absent c name h)
strrchr_at-join c (x ∷ dir) name h = ground (arith, strrchr_at-join c dir name h)

-- A string that ends in `c` is a shorter one followed by `c`.
ends_with_split : (c : ℕ) (s : Bytes) → ends_with c s ≡ true → (t : Bytes) × (s ≡ t ++ c ∷ [])
unfolding ends_with
ends_with_split c [] h = cc
ends_with_split c (x ∷ []) h = ([], ground arith)
ends_with_split c (x ∷ y ∷ s) h = let (t, e) = ends_with_split c (y ∷ s) h in (x ∷ t, ap (◌∷◌ x) e)

basename-join :
    (c : ℕ) (dir name : Bytes) → has_byte c name ≡ false → basename c (dir ++ c ∷ name) ≡ name
unfolding basename strrchr
basename-join c dir name h = rw (strrchr_at-join c dir name h, basename, strrchr) refl

-- The last component of a joined path that fits in its buffer is the entry's name.
pub basename-child_path :
    (p : Platform) (dir name : Bytes)
    → has_byte p.separator name ≡ false
    → length dir + length name + 1 < p.path_max
    → basename p.separator (child_path p dir name) ≡ name
unfolding child_path
basename-child_path p dir name h fits = elim (Bool-cases (ends_with p.separator dir)) [
  | inl e ↦
      let (t, split) = ends_with_split p.separator dir e in
      rw
        (
          e,
          snprintf_fits p.path_max (dir ++ name) (omega (arith, length-append dir name)),
          split,
          append_assoc,
        )
        (basename-join p.separator t name h)
  | inr e ↦
      rw
        (
          e,
          snprintf_fits p.path_max (dir ++ p.separator ∷ name)
              (omega (arith, length-append dir (p.separator ∷ name))),
        )
        (basename-join p.separator dir name h)
]

-- A joined path fits in its buffer, and is longer than the directory unless it was cut.
pub length-child_path :
    (p : Platform) (dir name : Bytes)
    → 0 < p.path_max
    → 0 < length name
    → (length (child_path p dir name) < p.path_max)
      × (length dir < p.path_max - 1 → length dir < length (child_path p dir name))
unfolding child_path snprintf
length-child_path p dir name pos named = elim (Bool-cases (ends_with p.separator dir)) [
  | inl e ↦ rw e (omega (arith, length-take (p.path_max - 1) (dir ++ name), length-append dir name))
  | inr e ↦ rw e (
      omega (
        arith,
        length-take (p.path_max - 1) (dir ++ p.separator ∷ name),
        length-append dir (p.separator ∷ name),
      ))
]

-- A directory whose path fills the buffer and does not end in a separator has itself for its child:
-- the name is cut off.
pub child_path_full :
    (p : Platform) (dir name : Bytes) → length dir ≡ p.path_max - 1 → child_path p dir name ≡ dir
unfolding child_path snprintf
child_path_full p dir name full = elim (Bool-cases (ends_with p.separator dir)) [
  | inl e ↦
      rw (e, ← full, take-append (length dir) dir name (omega arith))
        (take_of_length-le _ dir (omega arith))
  | inr e ↦
      rw (e, ← full, take-append (length dir) dir (p.separator ∷ name) (omega arith))
        (take_of_length-le _ dir (omega arith))
]
