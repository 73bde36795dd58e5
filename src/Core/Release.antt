-- ===== src/Core/Release.antt =====
-- What the loops over a backend's tables give back when it is destroyed: one block for each entry.
use mathlib.Core.Path.{subst}
use swatcher.Base.{
  ◌≡◌, refl, sym, ap, ◌∙◌, ℕ, true, Option, none, some, List, [], ◌∷◌, ◌++◌, map, arith, Bool-cases,
  Option-cases, inl, inr, if◌then◌else◌,
}
use swatcher.Core.World.{
  Resource, Block, World, same, same_owner, malloc_owner, free_owner, take_back, sw_free,
}
use swatcher.Core.Holdings.{IsPaired}

-- The frees, one after the other.
abbrev pub frees : List Resource → World → World
frees [] w = w
frees (r ∷ rs) w = frees rs (sw_free r w)

-- The kinds without one that is given.
abbrev remove : Resource → List Resource → Option (List Resource)
remove r [] = none
remove r (x ∷ rs) =
    let rest = remove r rs in
    if same x r then some rs else elim rest [ none ↦ none | some left ↦ some (x ∷ left) ]

abbrev remove_all : List Resource → List Resource → Option (List Resource)
remove_all [] rs = some rs
remove_all (r ∷ needed) rs = elim (remove r rs) [ none ↦ none | some rest ↦ remove_all needed rest ]

-- The kinds are those that are needed, in some order.
abbrev pub IsMadeOf : List Resource → List Resource → Type 0
IsMadeOf needed rs = remove_all needed rs ≡ some []

abbrev pub held : Option ℕ → List Resource → List Block
held owner rs = map (λ x. record { resource = x; owner = owner }) rs

-- The second world is the first with blocks of the kinds on top.
pub record Holds (rs : List Resource) (w v : World) : Type 0 where
  pub blocks : v.live ≡ held (malloc_owner w.g_alloc) rs ++ w.live
  pub misfreed : v.misfreed ≡ w.misfreed
  pub g_alloc : v.g_alloc ≡ w.g_alloc

same_owner_refl : (o : Option ℕ) → same_owner o o ≡ true
unfolding same_owner
same_owner_refl none = refl
same_owner_refl (some a) = ground arith

take_back-held :
    (r : Resource) (o : Option ℕ) (rs rest : List Resource) (live : List Block)
    → remove r rs ≡ some rest
    → take_back r o (held o rs ++ live) ≡ some (held o rest ++ live)
unfolding take_back
take_back-held r o [] rest live h = cc
take_back-held r o (x ∷ rs) rest live h = elim (Bool-cases (same x r)) [
  | inl here ↦
      let found : rs ≡ rest = ground (arith, h, here) in
      rw (here, same_owner_refl o) (ap (λ l. some (held o l ++ live)) found)
  | inr other ↦ elim (Option-cases (remove r rs)) [
    | inl absent ↦ absurd (ground (arith, h, other, absent))
    | inr (left, found) ↦
        let split : x ∷ left ≡ rest = ground (arith, h, other, found) in
        rw (other, take_back-held r o rs left live found) (ap (λ l. some (held o l ++ live)) split)
  ]
]

sw_free-Holds :
    (r : Resource) (rs rest : List Resource) (w v : World)
    → IsPaired w.g_alloc
    → remove r rs ≡ some rest
    → Holds rs w v
    → Holds rest w (sw_free r v)
unfolding sw_free
sw_free-Holds r rs rest w v paired h holds =
    let owner : free_owner v.g_alloc ≡ malloc_owner w.g_alloc =
      ap free_owner holds.g_alloc ∙ sym paired in
    let taken : take_back r (free_owner v.g_alloc) v.live
        ≡ some (held (malloc_owner w.g_alloc) rest ++ w.live) =
      ap (λ o. take_back r o v.live) owner
      ∙ ap (take_back r (malloc_owner w.g_alloc)) holds.blocks
      ∙ take_back-held r (malloc_owner w.g_alloc) rs rest w.live h in
    rw (taken, sw_free)
      (record { blocks = refl; misfreed = holds.misfreed; g_alloc = holds.g_alloc })

pub frees-Holds :
    (needed rs rest : List Resource) (w v : World)
    → IsPaired w.g_alloc
    → remove_all needed rs ≡ some rest
    → Holds rs w v
    → Holds rest w (frees needed v)
frees-Holds [] rs rest w v paired h holds =
    let same_kinds : rs ≡ rest = ground (arith, h) in subst (λ l. Holds l w v) same_kinds holds
frees-Holds (r ∷ needed) rs rest w v paired h holds = elim (Option-cases (remove r rs)) [
  | inl absent ↦ absurd (ground (arith, h, absent))
  | inr (left, found) ↦
      frees-Holds needed left rest w (sw_free r v) paired (ground (arith, h, found))
        (sw_free-Holds r rs left w v paired found holds)
]

pub frees-append : (a b : List Resource) (w : World) → frees (a ++ b) w ≡ frees b (frees a w)
frees-append [] b w = refl
frees-append (r ∷ a) b w = frees-append a b (sw_free r w)
