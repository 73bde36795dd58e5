-- ===== src/Base/Counting.antt =====
-- How many entries of a table pass a test, before and after a write or a deletion.
use Prim.Native.Nat.{ℕ, ◌+◌}
use mathlib.Core.Path.{◌≡◌, refl}
use mathlib.Core.Bool.{Bool, false}
use mathlib.Core.List.{List, [], ◌∷◌, ◌++◌}
use mathlib.Core.Option.{some}
use native.Mathlib.Omega.{arith}
use swatcher.Base.Tests.{if◌then◌else◌}
use swatcher.Base.Lists.{Bytes, count, All}
use swatcher.Base.Table.{hash_find, hash_del, hash_set, IsKeyed, IsKeyed-All}

abbrev pub one_if : Bool → ℕ
one_if b = if b then 1 else 0

pub count-append {ℓ} :
    {A : Type ℓ} (test : A → Bool) (xs ys : List A)
    → count test (xs ++ ys) ≡ count test xs + count test ys
count-append test [] ys = omega arith
count-append test (x ∷ xs) ys = ground (arith, count-append test xs ys)

module _ {E : Type 0} (key : E → Bytes) (test : E → Bool) where
  pub count-hash_del :
      (k : Bytes) (es : List E) (e : E)
      → hash_find key k es ≡ some e
      → count test es ≡ one_if (test e) + count test (hash_del key k es)
  unfolding hash_find hash_del
  count-hash_del k [] e h = cc
  count-hash_del k (x ∷ es) e h = ground (arith, count-hash_del k es e)

  pub count-hash_set :
      (k : Bytes) (f : E → E) (es : List E) (e : E)
      → hash_find key k es ≡ some e
      → count test (hash_set key k f es) + one_if (test e) ≡ count test es + one_if (test (f e))
  unfolding hash_find hash_set
  count-hash_set k f [] e h = cc
  count-hash_set k f (x ∷ es) e h = ground (arith, count-hash_set k f es e)

  count_of_All : (es : List E) → All (λ e. test e ≡ false) es → count test es ≡ 0
  count_of_All [] h = refl
  count_of_All (x ∷ es) h = ground (arith, count_of_All es h.1)

  All-of_found :
      (table es : List E)
      → ((k : Bytes) (e : E) → hash_find key k table ≡ some e → test e ≡ false)
      → All (λ e. hash_find key (key e) table ≡ some e) es
      → All (λ e. test e ≡ false) es
  All-of_found table [] h found = tt
  All-of_found table (x ∷ es) h found = (h (key x) x found.0, All-of_found table es h found.1)

  -- If no entry that can be found passes, none does.
  pub count_none :
      (es : List E)
      → IsKeyed key es
      → ((k : Bytes) (e : E) → hash_find key k es ≡ some e → test e ≡ false)
      → count test es ≡ 0
  count_none es keyed h = count_of_All es (All-of_found es es h (IsKeyed-All key es keyed))
