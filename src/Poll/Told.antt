-- ===== src/Poll/Told.antt =====
-- backend/backend_poll.c: what the calls after a scan tell, path by path.
use mathlib.Core.List.{append-nil, append_assoc}
use swatcher.Base.{
  ◌+◌, ◌≡◌, ◌⊎◌, refl, sym, ap, ◌∙◌, Bool, true, false, ◌&&◌, ◌||◌, Option, none, some, List, [],
  ◌∷◌, ◌++◌, Bytes, All, count, one_if, ◌==◌, hash_find, str_eq, inl, inr,
}
use swatcher.Types.{FsEvent, Call, bits}
use swatcher.Pattern.Compile.{Regex}
use swatcher.Poll.State.{FileSnapshot, snapshot_key, ScanEnv, ScanState}
use swatcher.Poll.Target.{is_deleted}
use swatcher.Poll.Loud.{call_for}
use swatcher.Poll.Settle.{Table, IsScanned, is_new}

-- The option is this path.
abbrev is_path : Bytes → Option Bytes → Bool
is_path j none = false
is_path j (some path) = str_eq path j

abbrev old_path_of : Call → Option Bytes
old_path_of call = elim call.info [ none ↦ none | some info ↦ info.old_path ]

-- The call says that what was at the path is gone: it was deleted, or moved away from there.
abbrev pub tells_gone : Bytes → Call → Bool
tells_gone j call =
    (bits call.event == bits FsEvent.deleted && is_path j call.event_name)
    || (bits call.event == bits FsEvent.moved && is_path j (old_path_of call))

-- The call says that something has come to the path: it was created, or moved there.
abbrev pub tells_new : Bytes → Call → Bool
tells_new j call =
    (bits call.event == bits FsEvent.created || bits call.event == bits FsEvent.moved)
    && is_path j call.event_name

-- The entry at the path passes the test.
abbrev pub at_path : (FileSnapshot → Bool) → Bytes → Table → Bool
at_path test j t = elim (hash_find snapshot_key j t) [ none ↦ false | some e ↦ test e ]

-- The table has the entry at its path, and it passes the test.
abbrev pub HasEntry : (FileSnapshot → Bool) → Table → FileSnapshot → Type 0
HasEntry test t e = (hash_find snapshot_key e.path t ≡ some e) × (test e ≡ true)

module _ {r : Regex} (env : ScanEnv r) where
  -- What the table says of a call: a move from a deleted entry to a new one of its size, the deletion of
  -- a deleted entry, or the creation of a new one, each with the entry's path.
  abbrev pub Justified : Table → Call → Type 0
  Justified t call =
      ((gone : FileSnapshot) × (c : FileSnapshot) × HasEntry is_deleted t gone
        × HasEntry is_new t c
        × (c.size ≡ gone.size)
        × (call ≡ call_for env FsEvent.moved c.path false (some gone.path)))
      ⊎ (((gone : FileSnapshot) × HasEntry is_deleted t gone
            × (call ≡ call_for env FsEvent.deleted gone.path false none))
          ⊎ ((c : FileSnapshot) × HasEntry is_new t c
              × (call ≡ call_for env FsEvent.created c.path false none)))

  -- What a step tells.
  pub record Tells (s t : ScanState) : Type 0 where
    pub scanned : IsScanned t.snapshots
    pub gone :
        (j : Bytes)
        → count (tells_gone j) t.calls + one_if (at_path is_deleted j t.snapshots)
          ≡ count (tells_gone j) s.calls + one_if (at_path is_deleted j s.snapshots)
    pub come :
        (j : Bytes)
        → count (tells_new j) t.calls + one_if (at_path is_new j t.snapshots)
          ≡ count (tells_new j) s.calls + one_if (at_path is_new j s.snapshots)
    pub deleted_before :
        (e : FileSnapshot) → HasEntry is_deleted t.snapshots e → HasEntry is_deleted s.snapshots e
    pub new_before :
        (e : FileSnapshot) → HasEntry is_new t.snapshots e → HasEntry is_new s.snapshots e
    pub added : List Call
    pub appended : t.calls ≡ s.calls ++ added
    pub justified : All (Justified s.snapshots) added

  pub Tells-refl : (s : ScanState) → IsScanned s.snapshots → Tells s s
  Tells-refl s ok = record {
    scanned = ok;
    gone = λ j. refl;
    come = λ j. refl;
    deleted_before = λ e h. h;
    new_before = λ e h. h;
    added = [];
    appended = sym (append-nil s.calls);
    justified = tt;
  }

  -- What a later table says, an earlier one said.
  Justified-before :
      (t u : Table) (call : Call)
      → ((e : FileSnapshot) → HasEntry is_deleted u e → HasEntry is_deleted t e)
      → ((e : FileSnapshot) → HasEntry is_new u e → HasEntry is_new t e)
      → Justified u call
      → Justified t call
  Justified-before t u call deleted new (inl (gone, c, d, n, same, at)) =
      inl (gone, c, deleted gone d, new c n, same, at)
  Justified-before t u call deleted new (inr (inl (gone, d, at))) =
      inr (inl (gone, deleted gone d, at))
  Justified-before t u call deleted new (inr (inr (c, n, at))) = inr (inr (c, new c n, at))

  All-Justified :
      (t u : Table) (a b : List Call)
      → ((e : FileSnapshot) → HasEntry is_deleted u e → HasEntry is_deleted t e)
      → ((e : FileSnapshot) → HasEntry is_new u e → HasEntry is_new t e)
      → All (Justified t) a
      → All (Justified u) b
      → All (Justified t) (a ++ b)
  All-Justified t u [] [] deleted new first second = tt
  All-Justified t u [] (call ∷ b) deleted new first (here, second) =
      (Justified-before t u call deleted new here, All-Justified t u [] b deleted new first second)
  All-Justified t u (call ∷ a) b deleted new (here, first) second =
      (here, All-Justified t u a b deleted new first second)

  pub Tells-trans : (s t u : ScanState) → Tells s t → Tells t u → Tells s u
  Tells-trans s t u a b = record {
    scanned = b.scanned;
    gone = λ j. b.gone j ∙ a.gone j;
    come = λ j. b.come j ∙ a.come j;
    deleted_before = λ e h. a.deleted_before e (b.deleted_before e h);
    new_before = λ e h. a.new_before e (b.new_before e h);
    added = a.added ++ b.added;
    appended =
        b.appended
        ∙ ap (λ calls. calls ++ b.added) a.appended
        ∙ append_assoc s.calls a.added b.added;
    justified =
        All-Justified s.snapshots t.snapshots a.added b.added a.deleted_before a.new_before
          a.justified b.justified;
  }
