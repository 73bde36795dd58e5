-- ===== src/Poll/Flags.antt =====
-- backend/backend_poll.c: the flags of the entries at a path, when one goes or is new no longer.
use swatcher.Base.{
  ◌+◌, ◌≡◌, ◌⊎◌, refl, sym, ap, ◌∙◌, Bool, true, false, none, some, List, [], ◌∷◌, ◌++◌, Bytes,
  if◌then◌else◌, count, count-append, arith, one_if, hash_find, hash_set, hash_del, IsKeyed,
  hash_find-set, hash_find-del_ne, hash_find-del_self, str_eq, str_eq_iff, Option-cases, Bool-cases,
  inl, inr,
}
use swatcher.Types.{Call}
use swatcher.Poll.State.{FileSnapshot, snapshot_key}
use swatcher.Poll.Target.{clear_new, is_deleted}
use swatcher.Poll.Settle.{Table, IsScanned, is_new}
use swatcher.Poll.Told.{at_path, HasEntry}

-- One more call.
pub count-one :
    (test : Call → Bool) (calls : List Call) (c : Call)
    → count test (calls ++ c ∷ []) ≡ count test calls + one_if (test c)
count-one test calls c = rw (count-append test calls) (ground arith)

pub at_path-del :
    (test : FileSnapshot → Bool) (j k : Bytes) (t : Table)
    → IsKeyed snapshot_key t
    → at_path test j (hash_del snapshot_key k t) ≡ (if str_eq k j then false else at_path test j t)
at_path-del test j k t keyed = elim (Bool-cases (str_eq k j)) [
  | inr other ↦ rw (at_path, hash_find-del_ne snapshot_key k j t other, other) refl
  | inl same ↦
      let at : j ≡ k = ground (arith, str_eq_iff k j) in
      rw (same) (
        ap (λ o. elim o [ none ↦ false | some e ↦ test e ])
          (ap (λ i. hash_find snapshot_key i (hash_del snapshot_key k t)) at
            ∙ hash_find-del_self snapshot_key k t keyed))
]

-- An entry that is left after a deletion was there before.
pub HasEntry-del :
    (test : FileSnapshot → Bool) (k : Bytes) (t : Table) (e : FileSnapshot)
    → IsKeyed snapshot_key t
    → HasEntry test (hash_del snapshot_key k t) e
    → HasEntry test t e
HasEntry-del test k t e keyed (found, passes) = elim (Bool-cases (str_eq k e.path)) [
  | inr other ↦ (sym (hash_find-del_ne snapshot_key k e.path t other) ∙ found, passes)
  | inl same ↦
      let at : e.path ≡ k = ground (arith, str_eq_iff k e.path) in
      absurd (
        cc (
          found,
          ap (λ i. hash_find snapshot_key i (hash_del snapshot_key k t)) at,
          hash_find-del_self snapshot_key k t keyed,
        ))
]

-- A new entry loses its flag.
module _ (c : FileSnapshot) (t : Table) (ok : IsScanned t)
    (found : hash_find snapshot_key c.path t ≡ some c) (new : c.is_new ≡ true) where
  pub cleared :
      (j : Bytes)
      → hash_find snapshot_key j (hash_set snapshot_key c.path clear_new t)
        ≡ elim (hash_find snapshot_key j t) [
          | none ↦ none
          | some e ↦ some (if str_eq c.path j then clear_new e else e)
        ]
  cleared j = hash_find-set snapshot_key c.path j clear_new t (λ e. refl)

  here : (j : Bytes) → str_eq c.path j ≡ true → hash_find snapshot_key j t ≡ some c
  here j same =
      let at : j ≡ c.path = ground (arith, str_eq_iff c.path j) in
      ap (λ i. hash_find snapshot_key i t) at ∙ found

  pub deleted-clear :
      (j : Bytes)
      → at_path is_deleted j (hash_set snapshot_key c.path clear_new t) ≡ at_path is_deleted j t
  deleted-clear j =
      let seen : c.seen ≡ true = ok.new_seen c.path c found new in
      elim (Bool-cases (str_eq c.path j)) [
        | inl same ↦ rw (at_path, cleared j, here j same, same, seen) refl
        | inr other ↦ elim (Option-cases (hash_find snapshot_key j t)) [
          | inl gone ↦ rw (at_path, cleared j, gone) refl
          | inr (e, there) ↦ rw (at_path, cleared j, there, other) refl
        ]
      ]

  pub new-clear :
      (j : Bytes)
      → at_path is_new j (hash_set snapshot_key c.path clear_new t)
        ≡ (if str_eq c.path j then false else at_path is_new j t)
  new-clear j = elim (Bool-cases (str_eq c.path j)) [
    | inl same ↦ rw (at_path, cleared j, here j same, same) refl
    | inr other ↦ elim (Option-cases (hash_find snapshot_key j t)) [
      | inl gone ↦ rw (at_path, cleared j, gone, other) refl
      | inr (e, there) ↦ rw (at_path, cleared j, there, other) refl
    ]
  ]

  new_at : (j : Bytes) → str_eq c.path j ≡ true → at_path is_new j t ≡ true
  new_at j same = rw (at_path, here j same) new

  cleared_entry :
      (e : FileSnapshot)
      → hash_find snapshot_key e.path (hash_set snapshot_key c.path clear_new t) ≡ some e
      → ((hash_find snapshot_key e.path t ≡ some e) ⊎ (e ≡ clear_new c))
  cleared_entry e there = elim (Bool-cases (str_eq c.path e.path)) [
    | inl same ↦ inr (ground (arith, cleared e.path, here e.path same, there, same))
    | inr other ↦ inl (ground (arith, cleared e.path, there, other))
  ]

  pub deleted-before :
      (e : FileSnapshot)
      → HasEntry is_deleted (hash_set snapshot_key c.path clear_new t) e
      → HasEntry is_deleted t e
  deleted-before e (there, passes) = elim (cleared_entry e there) [
    | inl before ↦ (before, passes)
    | inr same ↦
        let seen : c.seen ≡ true = ok.new_seen c.path c found new in
        absurd (cc (same, passes, seen))
  ]

  pub new-before :
      (e : FileSnapshot)
      → HasEntry is_new (hash_set snapshot_key c.path clear_new t) e
      → HasEntry is_new t e
  new-before e (there, passes) = elim (cleared_entry e there) [
    | inl before ↦ (before, passes)
    | inr same ↦ absurd (cc (same, passes))
  ]

pub at_found :
    (test : FileSnapshot → Bool) (j : Bytes) (e : FileSnapshot) (t : Table)
    → hash_find snapshot_key e.path t ≡ some e
    → str_eq e.path j ≡ true
    → at_path test j t ≡ test e
at_found test j e t found same =
    let at : j ≡ e.path = ground (arith, str_eq_iff e.path j) in
    ap (λ o. elim o [ none ↦ false | some x ↦ test x ])
      (ap (λ i. hash_find snapshot_key i t) at ∙ found)

-- Where nothing is counted, nothing is at a path.
pub none_at :
    (test : FileSnapshot → Bool) (j : Bytes) (t : Table)
    → count test t ≡ 0
    → at_path test j t ≡ false
unfolding hash_find
none_at test j [] none_there = refl
none_at test j (e ∷ t) none_there = elim (Bool-cases (str_eq e.path j)) [
  | inl here ↦ ground (arith, here, none_there)
  | inr other ↦ rw (at_path, hash_find, other) (none_at test j t (ground (arith, none_there)))
]
