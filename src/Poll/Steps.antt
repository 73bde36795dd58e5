-- ===== src/Poll/Steps.antt =====
-- backend/backend_poll.c: what a settled deletion and an announced creation tell.
use swatcher.Base.{
  ◌≡◌, refl, ◌∙◌, true, false, none, some, [], ◌∷◌, ◌++◌, arith, hash_find, hash_set, hash_del,
  IsKeyed, IsKeyed-hash_set, str_eq, Bool-cases, inl, inr,
}
use swatcher.Types.{FsEvent, bits}
use swatcher.Pattern.Compile.{Regex}
use swatcher.Poll.State.{FileSnapshot, snapshot_key, ScanEnv, ScanState}
use swatcher.Poll.Target.{clear_new, is_deleted, find_candidate, settle, announce}
use swatcher.Poll.Loud.{IsLoud, call_for, emit_event-calls}
use swatcher.Poll.Settle.{Table, IsScanned, is_new, find_candidate_found}
use swatcher.Poll.Moves.{settle-snapshots, settle-Accounts}
use swatcher.Poll.Created.{announce-snapshots, announce-Accounts}
use swatcher.Poll.Told.{tells_gone, tells_new, at_path, Tells}
use swatcher.Poll.Flags.{
  count-one, at_path-del, HasEntry-del, deleted-clear, new-clear, deleted-before, new-before,
  at_found,
}

module _ {r : Regex} (env : ScanEnv r) (loud : IsLoud env) where
  announce-call :
      (c : FileSnapshot) (s : ScanState)
      → (announce env c s).calls ≡ s.calls ++ call_for env FsEvent.created c.path false none ∷ []
  unfolding announce
  announce-call c s = emit_event-calls env FsEvent.created c.path false none s loud

  settle_alone-calls :
      (gone : FileSnapshot) (s : ScanState)
      → find_candidate gone.size s.snapshots ≡ none
      → (settle env gone s).calls
        ≡ s.calls ++ call_for env FsEvent.deleted gone.path false none ∷ []
  unfolding settle
  settle_alone-calls gone s alone =
      rw (alone, settle, emit_event-calls env FsEvent.deleted gone.path false none s loud) refl

  settle_pair-calls :
      (gone c : FileSnapshot) (s : ScanState)
      → find_candidate gone.size s.snapshots ≡ some c
      → (settle env gone s).calls
        ≡ s.calls ++ call_for env FsEvent.moved c.path false (some gone.path) ∷ []
  unfolding settle
  settle_pair-calls gone c s paired =
      rw (paired, settle, emit_event-calls env FsEvent.moved c.path false (some gone.path) s loud)
        refl

  -- A deleted entry for which no new one has the size is reported as deleted.
  pub settle_alone-Tells :
      (gone : FileSnapshot) (s : ScanState)
      → IsScanned s.snapshots
      → hash_find snapshot_key gone.path s.snapshots ≡ some gone
      → is_deleted gone ≡ true
      → find_candidate gone.size s.snapshots ≡ none
      → Tells env s (settle env gone s)
  unfolding bits
  settle_alone-Tells gone s ok found deleted alone =
      let call = call_for env FsEvent.deleted gone.path false none in
      let table : (settle env gone s).snapshots ≡ hash_del snapshot_key gone.path s.snapshots =
        settle-snapshots env loud gone s ∙ rw alone refl in
      let calls : (settle env gone s).calls ≡ s.calls ++ call ∷ [] =
        settle_alone-calls gone s alone in
      record {
        scanned = (settle-Accounts env loud gone s ok found deleted).scanned;
        gone = λ j.
            rw
              (
                table,
                calls,
                count-one (tells_gone j) s.calls call,
                at_path-del is_deleted j gone.path s.snapshots ok.keyed,
              )
              (elim (Bool-cases (str_eq gone.path j)) [
                | inr other ↦ ground (arith, other)
                | inl same ↦ ground (arith, same, at_found is_deleted j gone s.snapshots found same)
              ]);
        come = λ j.
            rw
              (
                table,
                calls,
                count-one (tells_new j) s.calls call,
                at_path-del is_new j gone.path s.snapshots ok.keyed,
              )
              (elim (Bool-cases (str_eq gone.path j)) [
                | inr other ↦ ground (arith, other)
                | inl same ↦ ground (arith, same, at_found is_new j gone s.snapshots found same)
              ]);
        deleted_before =
            λ e h. HasEntry-del is_deleted gone.path s.snapshots e ok.keyed (rw (← table) h);
        new_before = λ e h. HasEntry-del is_new gone.path s.snapshots e ok.keyed (rw (← table) h);
        added = call ∷ [];
        appended = calls;
        justified = (inr (inl (gone, (found, deleted), refl)), tt);
      }

  -- One for which a new one has the size is reported as moved there.
  pub settle_pair-Tells :
      (gone c : FileSnapshot) (s : ScanState)
      → IsScanned s.snapshots
      → hash_find snapshot_key gone.path s.snapshots ≡ some gone
      → is_deleted gone ≡ true
      → find_candidate gone.size s.snapshots ≡ some c
      → Tells env s (settle env gone s)
  unfolding bits
  settle_pair-Tells gone c s ok found deleted paired =
      let (at_c, new, sized) = find_candidate_found gone.size s.snapshots c ok.keyed paired in
      let u : Table = hash_set snapshot_key c.path clear_new s.snapshots in
      let keyed : IsKeyed snapshot_key u =
        IsKeyed-hash_set snapshot_key c.path clear_new s.snapshots (λ e. refl) ok.keyed in
      let call = call_for env FsEvent.moved c.path false (some gone.path) in
      let table : (settle env gone s).snapshots ≡ hash_del snapshot_key gone.path u =
        settle-snapshots env loud gone s ∙ rw paired refl in
      let calls = settle_pair-calls gone c s paired in
      record {
        scanned = (settle-Accounts env loud gone s ok found deleted).scanned;
        gone = λ j.
            rw
              (
                table,
                calls,
                count-one (tells_gone j) s.calls call,
                at_path-del is_deleted j gone.path u keyed,
                deleted-clear c s.snapshots ok at_c new j,
              )
              (elim (Bool-cases (str_eq gone.path j)) [
                | inr other ↦ ground (arith, other)
                | inl same ↦ ground (arith, same, at_found is_deleted j gone s.snapshots found same)
              ]);
        come = λ j.
            rw
              (
                table,
                calls,
                count-one (tells_new j) s.calls call,
                at_path-del is_new j gone.path u keyed,
                new-clear c s.snapshots ok at_c new j,
              )
              (elim (Bool-cases (str_eq gone.path j)) [
                | inr other ↦ elim (Bool-cases (str_eq c.path j)) [
                  | inr apart ↦ ground (arith, other, apart)
                  | inl same ↦
                      ground (arith, other, same, at_found is_new j c s.snapshots at_c same)
                ]
                | inl here ↦
                    let not_new : at_path is_new j s.snapshots ≡ false =
                      at_found is_new j gone s.snapshots found here ∙ ground (arith, deleted) in
                    elim (Bool-cases (str_eq c.path j)) [
                      | inr apart ↦ ground (arith, here, apart, not_new)
                      | inl same ↦
                          absurd (cc (at_found is_new j c s.snapshots at_c same, new, not_new))
                    ]
              ]);
        deleted_before = λ e h.
            deleted-before c s.snapshots ok at_c new e
              (HasEntry-del is_deleted gone.path u e keyed (rw (← table) h));
        new_before = λ e h.
            new-before c s.snapshots ok at_c new e
              (HasEntry-del is_new gone.path u e keyed (rw (← table) h));
        added = call ∷ [];
        appended = calls;
        justified = (inl (gone, c, (found, deleted), (at_c, new), sized, refl), tt);
      }

  -- A new entry is reported as created.
  pub announce-Tells :
      (c : FileSnapshot) (s : ScanState)
      → IsScanned s.snapshots
      → hash_find snapshot_key c.path s.snapshots ≡ some c
      → c.is_new ≡ true
      → Tells env s (announce env c s)
  unfolding bits
  announce-Tells c s ok found new =
      let call = call_for env FsEvent.created c.path false none in
      let table = announce-snapshots env loud c s in
      let calls = announce-call c s in
      record {
        scanned = (announce-Accounts env loud c s ok found new).scanned;
        gone = λ j.
            rw
              (
                table,
                calls,
                count-one (tells_gone j) s.calls call,
                deleted-clear c s.snapshots ok found new j,
              )
              (ground arith);
        come = λ j.
            rw
              (
                table,
                calls,
                count-one (tells_new j) s.calls call,
                new-clear c s.snapshots ok found new j,
              )
              (elim (Bool-cases (str_eq c.path j)) [
                | inr apart ↦ ground (arith, apart)
                | inl same ↦ ground (arith, same, at_found is_new j c s.snapshots found same)
              ]);
        deleted_before = λ e h. deleted-before c s.snapshots ok found new e (rw (← table) h);
        new_before = λ e h. new-before c s.snapshots ok found new e (rw (← table) h);
        added = call ∷ [];
        appended = calls;
        justified = (inr (inr (c, (found, new), refl)), tt);
      }
