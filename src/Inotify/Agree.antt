-- ===== src/Inotify/Agree.antt =====
-- backend/backend_inotify.c: the table of watches, its count, the kernel's watches and the table of
-- targets belong together.
use swatcher.Base.{
  ◌≡◌, ◌⊎◌, refl, sym, ap, ◌∙◌, ℕ, Bool, true, false, none, some, List, [], ◌∷◌, ◌++◌, Bytes,
  length, length-append, any, map, arith, Bool-cases, Option-cases, inl, inr, is_some, str_eq, ◌==◌,
  hash_find, hash_add, hash_del, IsKeyed, IsKeyed-hash_add, IsKeyed-hash_del, is_some-hash_find,
  map-hash_add, map-hash_del, length-hash_del, del_key,
}
use swatcher.Pattern.Compile.{Regex}
use swatcher.Core.Targets.{TargetInternal, internal_key}
use swatcher.Inotify.Watches.{
  WatchEntry, watch_key, SwatcherInotify, has_wd, rm_watch, watch_wd, drop_watch, keep_watch, ask,
}

-- An entry of the table has the descriptor.
abbrev pub has_entry : ℕ → List WatchEntry → Bool
has_entry wd es = any (λ e. e.wd == wd) es

-- No path is watched twice, the targets are those of the watches, the count is the table's, and every
-- descriptor that the kernel watches is in the table.
pub record IsAgreed {r : Regex} (ino : SwatcherInotify) (targets : List (TargetInternal r))
    : Type 0 where
  pub keyed : IsKeyed watch_key ino.wd_to_target
  pub same_paths : map watch_key ino.wd_to_target ≡ map internal_key targets
  pub counted : ino.watch_count ≡ length ino.wd_to_target
  pub covered : (wd : ℕ) → has_wd wd ino.kernel ≡ true → has_entry wd ino.wd_to_target ≡ true

has_wd-append :
    (wd x : ℕ) (kernel : List ℕ)
    → has_wd wd (kernel ++ x ∷ []) ≡ true
    → x == wd ≡ false
    → has_wd wd kernel ≡ true
has_wd-append wd x [] there other = ground (arith, there, other)
has_wd-append wd x (y ∷ kernel) there other = elim (Bool-cases (y == wd)) [
  | inl same ↦ rw same refl
  | inr apart ↦ rw apart (has_wd-append wd x kernel (ground (arith, there, apart)) other)
]

has_wd-watch_wd :
    (wd x : ℕ) (kernel : List ℕ)
    → has_wd wd (watch_wd x kernel) ≡ true
    → x == wd ≡ false
    → has_wd wd kernel ≡ true
unfolding watch_wd
has_wd-watch_wd wd x kernel there other = elim (Bool-cases (has_wd x kernel)) [
  | inl had ↦ ground (arith, there, had)
  | inr new ↦ has_wd-append wd x kernel (ground (arith, there, new)) other
]

-- What a removal leaves was there.
pub has_wd-rm_watch :
    (wd x : ℕ) (kernel : List ℕ)
    → has_wd wd (rm_watch x kernel) ≡ true
    → (has_wd wd kernel ≡ true) × (x == wd ≡ false)
unfolding rm_watch
has_wd-rm_watch wd x [] there = cc
has_wd-rm_watch wd x (y ∷ kernel) there = ground (arith, has_wd-rm_watch wd x kernel)

has_entry-hash_add :
    (wd : ℕ) (es : List WatchEntry) (e : WatchEntry)
    → (has_entry wd es ≡ true) ⊎ (e.wd == wd ≡ true)
    → has_entry wd (hash_add es e) ≡ true
has_entry-hash_add wd [] e here = ground (arith, here)
has_entry-hash_add wd (x ∷ es) e here = ground (arith, here, has_entry-hash_add wd es e)

-- Without the entry of a path, the other descriptors stay.
has_entry-hash_del :
    (wd : ℕ) (k : Bytes) (es : List WatchEntry) (e : WatchEntry)
    → hash_find watch_key k es ≡ some e
    → e.wd == wd ≡ false
    → has_entry wd es ≡ true
    → has_entry wd (hash_del watch_key k es) ≡ true
unfolding hash_find hash_del
has_entry-hash_del wd k [] e found other there = cc
has_entry-hash_del wd k (x ∷ es) e found other there = elim (Bool-cases (str_eq (watch_key x) k)) [
  | inl here ↦
      let same : x ≡ e = ground (arith, found, here) in
      let apart : x.wd == wd ≡ false = ap (λ y. y.wd == wd) same ∙ other in
      rw here (ground (arith, there, apart))
  | inr later ↦ elim (Bool-cases (x.wd == wd)) [
    | inl same ↦ rw (later, same) refl
    | inr apart ↦
        rw (later, apart)
          (has_entry-hash_del wd k es e (ground (arith, found, later)) other
            (ground (arith, there, apart)))
  ]
]

module _ {r : Regex} where
  -- A path is watched exactly if it is a target's.
  pub watched-target :
      (ino : SwatcherInotify) (targets : List (TargetInternal r)) (k : Bytes)
      → IsAgreed ino targets
      → is_some (hash_find watch_key k ino.wd_to_target)
        ≡ is_some (hash_find internal_key k targets)
  watched-target ino targets k agreed =
      is_some-hash_find watch_key k ino.wd_to_target
      ∙ ap (any (λ x. str_eq x k)) agreed.same_paths
      ∙ sym (is_some-hash_find internal_key k targets)

  -- A path that is no target's is not watched.
  pub unwatched :
      (ino : SwatcherInotify) (targets : List (TargetInternal r)) (k : Bytes)
      → IsAgreed ino targets
      → hash_find internal_key k targets ≡ none
      → hash_find watch_key k ino.wd_to_target ≡ none
  unwatched ino targets k agreed new =
      let same = watched-target ino targets k agreed in
      elim (Option-cases (hash_find watch_key k ino.wd_to_target)) [
        | inl fresh ↦ fresh
        | inr (e, h) ↦ absurd (cc (ap is_some h, same, ap is_some new))
      ]

  pub ask-IsAgreed :
      (ino : SwatcherInotify) (targets : List (TargetInternal r))
      → IsAgreed ino targets
      → IsAgreed (ask ino) targets
  unfolding ask
  ask-IsAgreed ino targets agreed = record {
    keyed = agreed.keyed;
    same_paths = agreed.same_paths;
    counted = agreed.counted;
    covered = agreed.covered;
  }

  -- The kernel can drop any watch.
  pub rm_watch-IsAgreed :
      (wd : ℕ) (ino : SwatcherInotify) (targets : List (TargetInternal r))
      → IsAgreed ino targets
      → IsAgreed (record ino { kernel = rm_watch wd ino.kernel }) targets
  rm_watch-IsAgreed wd ino targets agreed = record {
    keyed = agreed.keyed;
    same_paths = agreed.same_paths;
    counted = agreed.counted;
    covered = λ x there. agreed.covered x (has_wd-rm_watch x wd ino.kernel there).0;
  }

  pub keep_watch-IsAgreed :
      (e : WatchEntry) (ti : TargetInternal r) (ino : SwatcherInotify)
      (targets : List (TargetInternal r))
      → IsAgreed ino targets
      → hash_find watch_key e.target.path ino.wd_to_target ≡ none
      → ti.of_target.path ≡ e.target.path
      → IsAgreed (keep_watch e ino) (hash_add targets ti)
  unfolding keep_watch
  keep_watch-IsAgreed e ti ino targets agreed fresh same = record {
    keyed = IsKeyed-hash_add watch_key ino.wd_to_target e fresh agreed.keyed;
    same_paths =
        map-hash_add watch_key ino.wd_to_target e
        ∙ ap (λ paths. paths ++ e.target.path ∷ []) agreed.same_paths
        ∙ ap (λ path. map internal_key targets ++ path ∷ []) (sym same)
        ∙ sym (map-hash_add internal_key targets ti);
    counted = omega (arith, agreed.counted, length-append ino.wd_to_target (e ∷ []));
    covered = λ wd there. has_entry-hash_add wd ino.wd_to_target e (elim (Bool-cases (e.wd == wd)) [
      | inl here ↦ inr here
      | inr other ↦ inl (agreed.covered wd (has_wd-watch_wd wd e.wd ino.kernel there other))
    ]);
  }

  pub drop_watch-IsAgreed :
      (e : WatchEntry) (ino : SwatcherInotify) (targets : List (TargetInternal r))
      → IsAgreed ino targets
      → hash_find watch_key e.target.path ino.wd_to_target ≡ some e
      → IsAgreed (drop_watch e ino) (hash_del internal_key e.target.path targets)
  unfolding drop_watch
  drop_watch-IsAgreed e ino targets agreed h = record {
    keyed = IsKeyed-hash_del watch_key e.target.path ino.wd_to_target agreed.keyed;
    same_paths =
        map-hash_del watch_key e.target.path ino.wd_to_target
        ∙ ap (del_key e.target.path) agreed.same_paths
        ∙ sym (map-hash_del internal_key e.target.path targets);
    counted = omega (
      arith,
      agreed.counted,
      length-hash_del watch_key e.target.path ino.wd_to_target (ap is_some h),
    );
    covered = λ wd there.
        let (had, other) = has_wd-rm_watch wd e.wd ino.kernel there in
        has_entry-hash_del wd e.target.path ino.wd_to_target e h other (agreed.covered wd had);
  }
