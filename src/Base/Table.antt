-- ===== src/Base/Table.antt =====
-- uthash tables keyed by a string: the entries in insertion order, which is the order in which
-- `HASH_ITER` visits them.
use mathlib.Core.Path.{◌≡◌, refl}
use mathlib.Core.Bool.{false}
use mathlib.Core.List.{List, [], ◌∷◌, ◌++◌}
use mathlib.Core.Option.{Option, none, some}
use native.Mathlib.Omega.{arith}
use swatcher.Base.Tests.{if◌then◌else◌}
use swatcher.Base.Lists.{Bytes, str_eq, str_eq_iff, str_eq_refl, All}

-- `HASH_ADD_STR`, which does not look for the key
abbrev pub hash_add : {E : Type 0} → List E → E → List E
hash_add es e = es ++ e ∷ []

module _ {E : Type 0} (key : E → Bytes) where
  -- `HASH_FIND_STR`
  unfoldable pub hash_find : Bytes → List E → Option E
  hash_find k [] = none
  hash_find k (e ∷ es) = if str_eq (key e) k then some e else hash_find k es

  -- `HASH_DEL` of the entry with this key
  unfoldable pub hash_del : Bytes → List E → List E
  hash_del k [] = []
  hash_del k (e ∷ es) = if str_eq (key e) k then es else e ∷ hash_del k es

  -- A write through the pointer that `HASH_FIND_STR` gave.
  unfoldable pub hash_set : Bytes → (E → E) → List E → List E
  hash_set k f [] = []
  hash_set k f (e ∷ es) = if str_eq (key e) k then f e ∷ es else e ∷ hash_set k f es

  -- No key twice.
  abbrev pub IsKeyed : List E → Type 0
  IsKeyed [] = Unit
  IsKeyed (e ∷ es) = (hash_find (key e) es ≡ none) × IsKeyed es

  pub hash_find-key : (k : Bytes) (es : List E) (e : E) → hash_find k es ≡ some e → key e ≡ k
  unfolding hash_find
  hash_find-key k [] e h = cc
  hash_find-key k (x ∷ es) e h = ground (arith, str_eq_iff (key x) k, hash_find-key k es e)

  pub hash_find-add :
      (k : Bytes) (es : List E) (e : E)
      → hash_find k (hash_add es e) ≡ elim (hash_find k es) [
        | some x ↦ some x
        | none ↦ if str_eq (key e) k then some e else none
      ]
  unfolding hash_find
  hash_find-add k [] e = refl
  hash_find-add k (x ∷ es) e = ground (arith, hash_find-add k es e)

  pub IsKeyed-hash_add :
      (es : List E) (e : E) → hash_find (key e) es ≡ none → IsKeyed es → IsKeyed (hash_add es e)
  unfolding hash_find
  IsKeyed-hash_add [] e h d = (refl, tt)
  IsKeyed-hash_add (x ∷ es) e h d = ground (
    arith,
    IsKeyed-hash_add es e,
    hash_find-add (key x) es e,
    str_eq_iff (key e) (key x),
    str_eq_iff (key x) (key e),
  )

  pub hash_find-del_self :
      (k : Bytes) (es : List E) → IsKeyed es → hash_find k (hash_del k es) ≡ none
  unfolding hash_find hash_del
  hash_find-del_self k [] d = refl
  hash_find-del_self k (x ∷ es) d = ground (arith, hash_find-del_self k es, str_eq_iff (key x) k)

  pub hash_find-del_ne :
      (k j : Bytes) (es : List E)
      → str_eq k j ≡ false
      → hash_find j (hash_del k es) ≡ hash_find j es
  unfolding hash_find hash_del
  hash_find-del_ne k j [] h = refl
  hash_find-del_ne k j (x ∷ es) h =
      ground
        (arith, hash_find-del_ne k j es, str_eq_iff (key x) k, str_eq_iff (key x) j, str_eq_iff k j)

  pub hash_del_absent : (k : Bytes) (es : List E) → hash_find k es ≡ none → hash_del k es ≡ es
  unfolding hash_find hash_del
  hash_del_absent k [] h = refl
  hash_del_absent k (x ∷ es) h = ground (arith, hash_del_absent k es)

  pub hash_find-del_none :
      (k j : Bytes) (es : List E) → hash_find j es ≡ none → hash_find j (hash_del k es) ≡ none
  unfolding hash_find hash_del
  hash_find-del_none k j [] h = refl
  hash_find-del_none k j (x ∷ es) h = ground (arith, hash_find-del_none k j es)

  pub IsKeyed-hash_del : (k : Bytes) (es : List E) → IsKeyed es → IsKeyed (hash_del k es)
  unfolding hash_del
  IsKeyed-hash_del k [] d = tt
  IsKeyed-hash_del k (x ∷ es) d =
      ground (arith, IsKeyed-hash_del k es, hash_find-del_none k (key x) es)

  -- A write that keeps the key changes what is found under that key, and nothing else.
  pub hash_find-set :
      (k j : Bytes) (f : E → E) (es : List E)
      → ((e : E) → key (f e) ≡ key e)
      → hash_find j (hash_set k f es)
        ≡ elim (hash_find j es) [ none ↦ none | some e ↦ some (if str_eq k j then f e else e) ]
  unfolding hash_find hash_set
  hash_find-set k j f [] h = refl
  hash_find-set k j f (x ∷ es) h = ground (
    arith,
    h x,
    hash_find-set k j f es h,
    str_eq_iff (key x) k,
    str_eq_iff (key x) j,
    str_eq_iff k j,
  )

  pub IsKeyed-hash_set :
      (k : Bytes) (f : E → E) (es : List E)
      → ((e : E) → key (f e) ≡ key e)
      → IsKeyed es
      → IsKeyed (hash_set k f es)
  unfolding hash_set
  IsKeyed-hash_set k f [] h d = tt
  IsKeyed-hash_set k f (x ∷ es) h d =
      ground (arith, h x, IsKeyed-hash_set k f es h, hash_find-set k (key x) f es h)

  found_above :
      (x : E) (es : List E) (ys : List E)
      → hash_find (key x) es ≡ none
      → All (λ e. hash_find (key e) es ≡ some e) ys
      → All (λ e. hash_find (key e) (x ∷ es) ≡ some e) ys
  unfolding hash_find
  found_above x es [] h a = tt
  found_above x es (y ∷ ys) h a =
      (ground (arith, a.0, str_eq_iff (key x) (key y)), found_above x es ys h a.1)

  -- In a keyed table each entry is found under its key.
  pub IsKeyed-All : (es : List E) → IsKeyed es → All (λ e. hash_find (key e) es ≡ some e) es
  unfolding hash_find
  IsKeyed-All [] d = tt
  IsKeyed-All (x ∷ es) d =
      (ground (arith, str_eq_refl (key x)), found_above x es es d.0 (IsKeyed-All es d.1))
