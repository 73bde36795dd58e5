-- ===== src/Poll/Settle.antt =====
-- backend/backend_poll.c: one step of the move detection, on the table of snapshots.
use swatcher.Base.{
  ℕ, ◌+◌, ◌≡◌, refl, Bool, true, false, ◌&&◌, Option, none, some, List, [], ◌∷◌, Bytes, count,
  arith, ◌==◌, hash_find, hash_set, hash_del, IsKeyed, IsKeyed-hash_del, IsKeyed-hash_set,
  hash_find-set, hash_find-del_ne, hash_find-del_self, count-hash_del, count-hash_set, str_eq,
  str_eq_iff, str_eq_refl, Bool-cases, inl, inr,
}
use swatcher.Poll.State.{FileSnapshot, snapshot_key}
use swatcher.Poll.Target.{clear_new, is_deleted, find_candidate}

abbrev pub Table : Type 0
Table = List FileSnapshot

-- Each path once, and what is new has been seen.
pub record IsScanned (t : Table) : Type 0 where
  pub keyed : IsKeyed snapshot_key t
  pub new_seen :
      (k : Bytes) (e : FileSnapshot)
      → hash_find snapshot_key k t ≡ some e
      → e.is_new ≡ true
      → e.seen ≡ true

abbrev pub is_new : FileSnapshot → Bool
is_new e = e.is_new

-- A candidate for a move is in the table, new, and of the size that is asked for.
pub find_candidate_found :
    (size : ℕ) (t : Table) (c : FileSnapshot)
    → IsKeyed snapshot_key t
    → find_candidate size t ≡ some c
    → (hash_find snapshot_key c.path t ≡ some c) × (c.is_new ≡ true) × (c.size ≡ size)
unfolding find_candidate hash_find
find_candidate_found size [] c d h = absurd (ground arith)
find_candidate_found size (x ∷ t) c d h = elim (Bool-cases (x.is_new && x.size == size)) [
  | inl fits ↦
      let same : x ≡ c = ground arith in
      rw (← same) (rw (str_eq_refl x.path) refl, ground arith, ground arith)
  | inr skip ↦
      let (found, new, sized) = find_candidate_found size t c d.1 (ground arith) in
      (ground (arith, str_eq_iff x.path c.path), new, sized)
]

-- The table after an entry has gone, once a candidate may have lost its flag.
abbrev pub after : Option FileSnapshot → FileSnapshot → Table → Table
after none gone t = hash_del snapshot_key gone.path t
after (some c) gone t = hash_del snapshot_key gone.path (hash_set snapshot_key c.path clear_new t)

-- What a step does to a table.
pub record Settles (candidate : Option FileSnapshot) (gone : FileSnapshot) (t t' : Table)
    : Type 0 where
  pub scanned : IsScanned t'
  pub left :
      (j : Bytes) (e : FileSnapshot)
      → hash_find snapshot_key j t' ≡ some e
      → is_deleted e ≡ true
      → (hash_find snapshot_key j t ≡ some e) × (str_eq gone.path j ≡ false)
  pub deleted_count : count is_deleted t ≡ 1 + count is_deleted t'
  pub new_count : count is_new t ≡ elim candidate [ none ↦ 0 | some c ↦ 1 ] + count is_new t'

module _ (t : Table) (gone : FileSnapshot) (ok : IsScanned t) where
  module _ (found : hash_find snapshot_key gone.path t ≡ some gone)
      (deleted : is_deleted gone ≡ true) where
    -- An entry that is found after a deletion was found before, elsewhere.
    found_before :
        (u : Table) (j : Bytes) (e : FileSnapshot)
        → IsKeyed snapshot_key u
        → hash_find snapshot_key j (hash_del snapshot_key gone.path u) ≡ some e
        → (hash_find snapshot_key j u ≡ some e) × (str_eq gone.path j ≡ false)
    found_before u j e d h = elim (Bool-cases (str_eq gone.path j)) [
      | inl same ↦
          absurd
            (ground (arith, str_eq_iff gone.path j, hash_find-del_self snapshot_key gone.path u d))
      | inr other ↦ (ground (arith, hash_find-del_ne snapshot_key gone.path j u other), other)
    ]

    pub Settles-none : Settles none gone t (after none gone t)
    Settles-none = record {
      scanned = record {
        keyed = IsKeyed-hash_del snapshot_key gone.path t ok.keyed;
        new_seen = λ k e h. ok.new_seen k e (found_before t k e ok.keyed h).0;
      };
      left = λ j e h d. found_before t j e ok.keyed h;
      deleted_count = ground (arith, count-hash_del snapshot_key is_deleted gone.path t gone found);
      new_count = ground (arith, count-hash_del snapshot_key is_new gone.path t gone found);
    }

    pub Settles-some :
        (c : FileSnapshot)
        → hash_find snapshot_key c.path t ≡ some c
        → c.is_new ≡ true
        → Settles (some c) gone t (after (some c) gone t)
    Settles-some c at_c new =
        let u : Table = hash_set snapshot_key c.path clear_new t in
        let keyed : IsKeyed snapshot_key u =
          IsKeyed-hash_set snapshot_key c.path clear_new t (λ e. refl) ok.keyed in
        let seen : c.seen ≡ true = ok.new_seen c.path c at_c new in
        let apart : str_eq c.path gone.path ≡ false = ground (arith, str_eq_iff c.path gone.path) in
        let still : hash_find snapshot_key gone.path u ≡ some gone =
          ground (arith, hash_find-set snapshot_key c.path gone.path clear_new t (λ e. refl)) in
        record {
          scanned = record {
            keyed = IsKeyed-hash_del snapshot_key gone.path u keyed;
            new_seen = λ k e h n. ground (
              arith,
              (found_before u k e keyed h).0,
              hash_find-set snapshot_key c.path k clear_new t (λ e. refl),
              ok.new_seen k e,
            );
          };
          left = λ j e h d.
              let (before, other) = found_before u j e keyed h in
              (
                ground (
                  arith,
                  before,
                  str_eq_iff c.path j,
                  hash_find-set snapshot_key c.path j clear_new t (λ e. refl),
                ),
                other,
              );
          deleted_count = ground (
            arith,
            count-hash_del snapshot_key is_deleted gone.path u gone still,
            count-hash_set snapshot_key is_deleted c.path clear_new t c at_c,
          );
          new_count = ground (
            arith,
            count-hash_del snapshot_key is_new gone.path u gone still,
            count-hash_set snapshot_key is_new c.path clear_new t c at_c,
          );
        }
