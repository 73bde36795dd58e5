-- ===== src/Base/Keys.antt =====
-- The keys of a uthash table, and an entry in the middle of one.
use Prim.Native.Nat.{◌+◌}
use mathlib.Core.Path.{◌≡◌, refl, ap}
use mathlib.Core.Bool.{true, false, not}
use mathlib.Core.List.{List, [], ◌∷◌, ◌++◌, map}
use mathlib.Core.Option.{none, some}
use native.Mathlib.Omega.{arith}
use swatcher.Base.Tests.{if◌then◌else◌, is_some}
use swatcher.Base.Lists.{Bytes, str_eq, str_eq_iff, str_eq_refl, any, length, filter, All}
use swatcher.Base.Table.{hash_find, hash_add, hash_del, IsKeyed}

-- The first of these keys goes.
unfoldable pub del_key : Bytes → List Bytes → List Bytes
del_key k [] = []
del_key k (x ∷ keys) = if str_eq x k then keys else x ∷ del_key k keys

pub All-hash_add {ℓ} :
    {E : Type 0} (P : E → Type ℓ) (es : List E) (e : E) → All P es → P e → All P (hash_add es e)
All-hash_add P [] e none_yet new = (new, tt)
All-hash_add P (x ∷ es) e (first, others) new = (first, All-hash_add P es e others new)

module _ {E : Type 0} (key : E → Bytes) where
  pub is_some-hash_find :
      (k : Bytes) (es : List E) → is_some (hash_find key k es) ≡ any (λ x. str_eq x k) (map key es)
  unfolding hash_find
  is_some-hash_find k [] = refl
  is_some-hash_find k (e ∷ es) = ground (arith, is_some-hash_find k es)

  pub map-hash_add : (es : List E) (e : E) → map key (hash_add es e) ≡ map key es ++ key e ∷ []
  map-hash_add [] e = refl
  map-hash_add (x ∷ es) e = ap (◌∷◌ (key x)) (map-hash_add es e)

  pub map-hash_del :
      (k : Bytes) (es : List E) → map key (hash_del key k es) ≡ del_key k (map key es)
  unfolding hash_del del_key
  map-hash_del k [] = refl
  map-hash_del k (e ∷ es) = ground (arith, map-hash_del k es)

  pub length-hash_del :
      (k : Bytes) (es : List E)
      → is_some (hash_find key k es) ≡ true
      → length (hash_del key k es) + 1 ≡ length es
  unfolding hash_find hash_del
  length-hash_del k [] h = cc
  length-hash_del k (e ∷ es) h = ground (arith, length-hash_del k es)

  pub All-hash_del {ℓ} :
      (P : E → Type ℓ) (k : Bytes) (es : List E) → All P es → All P (hash_del key k es)
  unfolding hash_del
  All-hash_del P k [] h = tt
  All-hash_del P k (e ∷ es) (here, there) =
      elim (str_eq (key e) k) as (λ b. All P (if b then es else e ∷ hash_del key k es)) [
        | true ↦ there
        | false ↦ (here, All-hash_del P k es there)
      ]

  find_none-middle :
      (k : Bytes) (kept todo : List E) (e : E)
      → hash_find key k (kept ++ e ∷ todo) ≡ none
      → str_eq (key e) k ≡ false
  unfolding hash_find
  find_none-middle k [] todo e h = ground arith
  find_none-middle k (x ∷ kept) todo e h = ground (arith, find_none-middle k kept todo e)

  -- An entry's key is not that of one before it.
  pub find_before :
      (kept todo : List E) (e : E)
      → IsKeyed key (kept ++ e ∷ todo)
      → hash_find key (key e) kept ≡ none
  unfolding hash_find
  find_before [] todo e keyed = refl
  find_before (x ∷ kept) todo e (fresh, keyed) = ground (
    arith,
    find_none-middle (key x) kept todo e fresh,
    find_before kept todo e keyed,
    str_eq_iff (key x) (key e),
    str_eq_iff (key e) (key x),
  )

  pub hash_del-middle :
      (kept todo : List E) (e : E)
      → hash_find key (key e) kept ≡ none
      → hash_del key (key e) (kept ++ e ∷ todo) ≡ kept ++ todo
  unfolding hash_find hash_del
  hash_del-middle [] todo e h = ground (arith, str_eq_refl (key e))
  hash_del-middle (x ∷ kept) todo e h = ground (arith, hash_del-middle kept todo e)

  pub hash_find-middle :
      (kept todo : List E) (e : E)
      → hash_find key (key e) kept ≡ none
      → hash_find key (key e) (kept ++ e ∷ todo) ≡ some e
  unfolding hash_find
  hash_find-middle [] todo e h = ground (arith, str_eq_refl (key e))
  hash_find-middle (x ∷ kept) todo e h = ground (arith, hash_find-middle kept todo e)

  -- Where no key stands twice, to take an entry out is to filter by its key.
  filter-absent :
      (k : Bytes) (es : List E)
      → hash_find key k es ≡ none
      → filter (λ e. not (str_eq (key e) k)) es ≡ es
  unfolding hash_find
  filter-absent k [] h = refl
  filter-absent k (e ∷ es) h = ground (arith, filter-absent k es)

  pub hash_del-filter :
      (k : Bytes) (es : List E)
      → IsKeyed key es
      → hash_del key k es ≡ filter (λ e. not (str_eq (key e) k)) es
  unfolding hash_del
  hash_del-filter k [] keyed = refl
  hash_del-filter k (e ∷ es) keyed =
      ground (arith, hash_del-filter k es, filter-absent k es, str_eq_iff (key e) k)
