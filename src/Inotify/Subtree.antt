-- ===== src/Inotify/Subtree.antt =====
-- backend/backend_inotify.c: what `inotify_remove_children` and `inotify_handle_dynamic_rmdir` leave.
use mathlib.Core.Path.{subst}
use swatcher.Base.{
  ◌≡◌, refl, sym, ap, ◌∙◌, Bool, not, ◌||◌, none, some, List, [], ◌∷◌, ◌++◌, Bytes, append_assoc,
  filter, arith, Bool-cases, Option-cases, inl, inr, is_some, str_eq, hash_find, hash_del, IsKeyed,
  hash_find-key, hash_del_absent, find_before, hash_del-middle, hash_find-middle, hash_del-filter,
}
use swatcher.Platform.{Platform}
use swatcher.Types.{Target}
use swatcher.Pattern.Compile.{Regex}
use swatcher.Core.Targets.{
  TargetInternal, internal_key, sw_find_target_internal, sw_remove_target_internal,
}
use swatcher.Inotify.Watches.{
  WatchEntry, watch_key, SwatcherInotify, Watching, drop_watch, is_below, join_path,
  forget_internal, remove_child, remove_below, inotify_remove_children, remove_own,
  remove_directory, inotify_handle_dynamic_rmdir,
}
use swatcher.Inotify.Agree.{IsAgreed, watched-target, unwatched, drop_watch-IsAgreed}

drop_watch-table :
    (e : WatchEntry) (ino : SwatcherInotify)
    → (drop_watch e ino).wd_to_target ≡ hash_del watch_key e.target.path ino.wd_to_target
unfolding drop_watch
drop_watch-table e ino = refl

filter_twice :
    (dir : Bytes) (es : List WatchEntry)
    → filter
        (λ e. not (str_eq e.target.path dir))
        (filter (λ e. not (is_below dir e.target.path)) es)
      ≡ filter (λ e. not (is_below dir e.target.path || str_eq e.target.path dir)) es
filter_twice dir [] = refl
filter_twice dir (e ∷ es) = ground (arith, filter_twice dir es)

hash_find-filter :
    (k : Bytes) (test : WatchEntry → Bool) (es : List WatchEntry)
    → hash_find watch_key k es ≡ none
    → hash_find watch_key k (filter test es) ≡ none
unfolding hash_find
hash_find-filter k test [] fresh = refl
hash_find-filter k test (e ∷ es) fresh = ground (arith, hash_find-filter k test es)

IsKeyed-filter :
    (test : WatchEntry → Bool) (es : List WatchEntry)
    → IsKeyed watch_key es
    → IsKeyed watch_key (filter test es)
IsKeyed-filter test [] keyed = tt
IsKeyed-filter test (e ∷ es) (fresh, keyed) = elim (Bool-cases (test e)) [
  | inl stays ↦
      rw (stays, filter)
        (hash_find-filter e.target.path test es fresh, IsKeyed-filter test es keyed)
  | inr goes ↦ rw (goes, filter) (IsKeyed-filter test es keyed)
]

module _ {r : Regex} where
  -- A watched path is a target's.
  target_of :
      (e : WatchEntry) (k : Bytes) (s : Watching r)
      → IsAgreed s.data_ s.targets
      → hash_find watch_key k s.data_.wd_to_target ≡ some e
      → (ti : TargetInternal r) × (hash_find internal_key k s.targets ≡ some ti)
        × (ti.of_target.path ≡ k)
  target_of e k s agreed h =
      let same = watched-target s.data_ s.targets k agreed in
      elim (Option-cases (hash_find internal_key k s.targets)) [
        | inl absent ↦ absurd (cc (ap is_some h, same, ap is_some absent))
        | inr (ti, found) ↦ (ti, found, hash_find-key internal_key k s.targets ti found)
      ]

  remove_child-tables :
      (e : WatchEntry) (s : Watching r)
      → IsAgreed s.data_ s.targets
      → hash_find watch_key e.target.path s.data_.wd_to_target ≡ some e
      → ((remove_child e s).data_ ≡ drop_watch e s.data_)
        × ((remove_child e s).targets ≡ hash_del internal_key e.target.path s.targets)
  unfolding remove_child forget_internal sw_find_target_internal sw_remove_target_internal
  remove_child-tables e s agreed h =
      let (ti, found, same) = target_of e e.target.path s agreed h in
      rw (found, remove_child, forget_internal, sw_find_target_internal)
        (refl, ap (λ path. hash_del internal_key path s.targets) same)

  remove_child-IsAgreed :
      (e : WatchEntry) (s : Watching r)
      → IsAgreed s.data_ s.targets
      → hash_find watch_key e.target.path s.data_.wd_to_target ≡ some e
      → IsAgreed (remove_child e s).data_ (remove_child e s).targets
  remove_child-IsAgreed e s agreed h =
      let (tables, targets) = remove_child-tables e s agreed h in
      rw (tables, targets) (drop_watch-IsAgreed e s.data_ s.targets agreed h)

  -- What the loop over `todo` leaves when `kept` stands before it in the table.
  remove_below_lem :
      (dir : Bytes) (kept todo : List WatchEntry) (s : Watching r)
      → IsAgreed s.data_ s.targets
      → s.data_.wd_to_target ≡ kept ++ todo
      → let s' = remove_below dir todo s in
        IsAgreed s'.data_ s'.targets
        × (s'.data_.wd_to_target ≡ kept ++ filter (λ e. not (is_below dir e.target.path)) todo)
  unfolding remove_below
  remove_below_lem dir kept [] s agreed at = (agreed, at)
  remove_below_lem dir kept (e ∷ todo) s agreed at =
      elim (Bool-cases (is_below dir e.target.path)) [
        | inl below ↦
            let keyed = subst (IsKeyed watch_key) at agreed.keyed in
            let before = find_before watch_key kept todo e keyed in
            let found : hash_find watch_key e.target.path s.data_.wd_to_target ≡ some e =
              ap (hash_find watch_key e.target.path) at
              ∙ hash_find-middle watch_key kept todo e before in
            let at' : (remove_child e s).data_.wd_to_target ≡ kept ++ todo =
              ap (λ ino. ino.wd_to_target) (remove_child-tables e s agreed found).0
              ∙ drop_watch-table e s.data_
              ∙ ap (hash_del watch_key e.target.path) at
              ∙ hash_del-middle watch_key kept todo e before in
            let ih =
              remove_below_lem dir kept todo (remove_child e s)
                (remove_child-IsAgreed e s agreed found) at' in
            rw (below, remove_below) ih
        | inr apart ↦
            let ih =
              remove_below_lem dir (kept ++ e ∷ []) todo s agreed
                (at ∙ sym (append_assoc kept (e ∷ []) todo)) in
            rw (apart, remove_below)
              (
                ih.0,
                ih.1
                    ∙ append_assoc kept (e ∷ [])
                        (filter (λ x. not (is_below dir x.target.path)) todo),
              )
      ]

  -- The watch of a target.
  watch_of :
      (ti : TargetInternal r) (k : Bytes) (s : Watching r)
      → IsAgreed s.data_ s.targets
      → hash_find internal_key k s.targets ≡ some ti
      → (e : WatchEntry) × (hash_find watch_key k s.data_.wd_to_target ≡ some e)
        × (e.target.path ≡ k)
  watch_of ti k s agreed h =
      let same = watched-target s.data_ s.targets k agreed in
      elim (Option-cases (hash_find watch_key k s.data_.wd_to_target)) [
        | inl absent ↦ absurd (cc (ap is_some h, same, ap is_some absent))
        | inr (e, found) ↦ (e, found, hash_find-key watch_key k s.data_.wd_to_target e found)
      ]

  remove_own_lem :
      (ti : TargetInternal r) (k : Bytes) (s : Watching r)
      → IsAgreed s.data_ s.targets
      → hash_find internal_key k s.targets ≡ some ti
      → IsAgreed (remove_own ti s).data_ (remove_own ti s).targets
        × ((remove_own ti s).data_.wd_to_target ≡ hash_del watch_key k s.data_.wd_to_target)
  unfolding remove_own sw_remove_target_internal
  remove_own_lem ti k s agreed h =
      let path : ti.of_target.path ≡ k = hash_find-key internal_key k s.targets ti h in
      let (e, found, same) = watch_of ti k s agreed h in
      let at : hash_find watch_key e.target.path s.data_.wd_to_target ≡ some e = rw same found in
      let there : hash_find watch_key ti.of_target.path s.data_.wd_to_target ≡ some e =
        rw path found in
      rw (there, remove_own)
        (
          subst (λ j. IsAgreed (drop_watch e s.data_) (hash_del internal_key j s.targets))
              (same ∙ sym path) (drop_watch-IsAgreed e s.data_ s.targets agreed at),
          drop_watch-table e s.data_ ∙ ap (λ j. hash_del watch_key j s.data_.wd_to_target) same,
        )

  remove_directory_lem :
      (dir : Bytes) (s : Watching r)
      → IsAgreed s.data_ s.targets
      → let s' = remove_directory dir s in
        IsAgreed s'.data_ s'.targets
        × (s'.data_.wd_to_target
            ≡ hash_del watch_key dir
                (filter (λ e. not (is_below dir e.target.path)) s.data_.wd_to_target))
  unfolding remove_directory inotify_remove_children sw_find_target_internal
  remove_directory_lem dir s agreed =
      let after = inotify_remove_children dir s in
      let (agreed', table) = remove_below_lem dir [] s.data_.wd_to_target s agreed refl in
      elim (Option-cases (hash_find internal_key dir after.targets)) [
        | inl absent ↦
            rw (absent, remove_directory)
              (
                agreed',
                table
                    ∙ sym (
                        hash_del_absent watch_key dir
                          (filter (λ e. not (is_below dir e.target.path)) s.data_.wd_to_target)
                          (ap (hash_find watch_key dir) (sym table)
                            ∙ unwatched after.data_ after.targets dir agreed' absent)),
              )
        | inr (ti, found) ↦
            let (own, left) = remove_own_lem ti dir after agreed' found in
            rw (found, remove_directory) (own, left ∙ ap (hash_del watch_key dir) table)
      ]

  pub inotify_handle_dynamic_rmdir_lem :
      (p : Platform) (parent : Target) (name : Bytes) (s : Watching r)
      → IsAgreed s.data_ s.targets
      → let dir = join_path p parent.path name in
        let s' = inotify_handle_dynamic_rmdir p parent name s in
        IsAgreed s'.data_ s'.targets
        × (s'.data_.wd_to_target
            ≡ filter
                (λ e. not (is_below dir e.target.path || str_eq e.target.path dir))
                s.data_.wd_to_target)
  unfolding inotify_handle_dynamic_rmdir
  inotify_handle_dynamic_rmdir_lem p parent name s agreed =
      let dir = join_path p parent.path name in
      let (agreed', table) = remove_directory_lem dir s agreed in
      (
        agreed',
        table
            ∙ hash_del-filter watch_key dir _ (
                IsKeyed-filter (λ e. not (is_below dir e.target.path)) s.data_.wd_to_target
                  agreed.keyed)
            ∙ filter_twice dir s.data_.wd_to_target,
      )
