-- ===== src/Pattern/Translate.antt =====
-- core/pattern.c: the buffered translation against the unbounded one.
use swatcher.Base.{
  ℕ, ◌+◌, ◌≤◌, ◌<◌, ◌≡◌, true, Option, none, some, [], ◌∷◌, ◌++◌, Bytes, length, leb, if◌then◌else◌,
  length-append, append_assoc, append-nil, arith, Bool-cases, inl, inr,
}
use swatcher.Pattern.Glob.{glob_char, glob_loop, sw_glob_to_regex}

-- Every byte's translation, one after the other.
abbrev pub bodies : Bytes → Bytes
bodies [] = []
bodies (c ∷ s) = glob_char c ++ bodies s

-- The anchored regex of a glob, with no buffer in sight.
abbrev pub translate : Bytes → Bytes
translate glob = b'^' ∷ (bodies glob ++ b'$' ∷ [])

glob_char_bounds : (c : ℕ) → (1 ≤ length (glob_char c)) × (length (glob_char c) ≤ 2)
unfolding glob_char
glob_char_bounds c = ground arith

-- The loop succeeds as soon as the end of the string will have room; where it fails there is none.
glob_loop_room :
    (n : ℕ) (glob : Bytes) (pos : ℕ) (out : Bytes)
    → pos + length (bodies glob) + 2 < n
    → glob_loop n glob pos out ≡ some (pos + length (bodies glob), out ++ bodies glob)
unfolding glob_loop
glob_loop_room n [] pos out h = ground (arith, append-nil out)
glob_loop_room n (c ∷ s) pos out h = ground (
  arith,
  glob_loop_room n s (pos + length (glob_char c)) (out ++ glob_char c),
  glob_char_bounds c,
  length-append (glob_char c) (bodies s),
  append_assoc out (glob_char c) (bodies s),
)

-- Whatever the room, a loop that succeeds ends at the end of the translation.
abbrev EndsAt : ℕ → Option (ℕ × Bytes) → Type 0
EndsAt n none = Unit
EndsAt n (some r) = r.0 ≡ n

glob_loop_some :
    (n : ℕ) (glob : Bytes) (pos : ℕ) (out : Bytes)
    → EndsAt (pos + length (bodies glob)) (glob_loop n glob pos out)
unfolding glob_loop
glob_loop_some n [] pos out = omega arith
glob_loop_some n (c ∷ s) pos out = ground (
  arith,
  glob_loop_some n s (pos + length (glob_char c)) (out ++ glob_char c),
  length-append (glob_char c) (bodies s),
)

-- `sw_glob_to_regex` on a glob and a buffer writes the anchored translation exactly if the buffer has two
-- bytes more than the translation, one more than its NUL needs, and else fails.
pub sw_glob_to_regex_lem :
    (glob : Bytes) (buf_size : ℕ)
    → sw_glob_to_regex (some glob) true buf_size
      ≡ (if leb (length (translate glob) + 2) buf_size then some (translate glob) else none)
unfolding sw_glob_to_regex
sw_glob_to_regex_lem glob n = elim (Bool-cases (leb n (length (bodies glob) + 3))) [
  | inl full ↦
      ground (arith, length-append (bodies glob) (b'$' ∷ []), glob_loop_some n glob 1 (b'^' ∷ []))
  | inr room ↦
      ground (arith, glob_loop_room n glob 1 (b'^' ∷ []), length-append (bodies glob) (b'$' ∷ []))
]
