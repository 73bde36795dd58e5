-- ===== src/Platform/Children.antt =====
-- backend/backend_poll.c: which paths the test for direct children takes.
use swatcher.Base.{
  ℕ, ◌≡◌, ◌↔◌, ◌⊎◌, refl, ap, true, false, [], ◌∷◌, ◌++◌, Bytes, length, length-append, ◌<◌, ◌==◌,
  starts_with, has_byte, arith, Bool-cases, inl, inr, ◌∙◌,
}
use swatcher.Platform.Paths.{plain_rest, skip_separator, drop_prefix, is_direct_child}

starts_with_iff :
    (dir path : Bytes) → starts_with dir path ≡ true → path ≡ dir ++ drop_prefix dir path
unfolding starts_with drop_prefix
starts_with_iff [] path h = refl
starts_with_iff (x ∷ dir) [] h = cc
starts_with_iff (x ∷ dir) (y ∷ path) h = ground (arith, starts_with_iff dir path)

starts_with-append : (dir rest : Bytes) → starts_with dir (dir ++ rest) ≡ true
unfolding starts_with
starts_with-append [] rest = refl
starts_with-append (x ∷ dir) rest = ground (arith, starts_with-append dir rest)

drop_prefix-append : (dir rest : Bytes) → drop_prefix dir (dir ++ rest) ≡ rest
unfolding drop_prefix
drop_prefix-append [] rest = refl
drop_prefix-append (x ∷ dir) rest = drop_prefix-append dir rest

-- One component: a name that is not empty and holds no separator.
abbrev pub IsComponent : ℕ → Bytes → Type 0
IsComponent c [] = ⊥
IsComponent c (x ∷ s) = has_byte c (x ∷ s) ≡ false

component_long : (c : ℕ) (name : Bytes) → IsComponent c name → 0 < length name
component_long c [] named = absurd named
component_long c (x ∷ s) named = omega arith

module _ (c : ℕ) where
  rest-IsComponent :
      (rest : Bytes)
      → plain_rest c (skip_separator c rest) ≡ true
      → IsComponent c rest ⊎ ((name : Bytes) × (rest ≡ c ∷ name) × IsComponent c name)
  unfolding plain_rest skip_separator
  rest-IsComponent [] h = cc
  rest-IsComponent (x ∷ []) h = elim (Bool-cases (x == c)) [
    | inl sep ↦ absurd (ground arith)
    | inr other ↦ inl (ground arith)
  ]
  rest-IsComponent (x ∷ y ∷ s) h = elim (Bool-cases (x == c)) [
    | inl sep ↦ inr (y ∷ s, ground arith, ground arith)
    | inr other ↦ inl (ground arith)
  ]

  component_plain :
      (name : Bytes) → IsComponent c name → plain_rest c (skip_separator c name) ≡ true
  unfolding plain_rest skip_separator has_byte
  component_plain [] h = absurd h
  component_plain (x ∷ s) h = ground arith

  component_behind :
      (name : Bytes) → IsComponent c name → plain_rest c (skip_separator c (c ∷ name)) ≡ true
  unfolding plain_rest skip_separator
  component_behind [] h = absurd h
  component_behind (x ∷ s) h = ground arith

-- A path passes for a direct child of a directory exactly if it is the directory's path followed by
-- one component, with one separator between them or with none: `/ab` passes for a child of `/a`.
pub is_direct_child_iff :
    (c : ℕ) (dir path : Bytes)
    → (is_direct_child c dir path ≡ true)
      ↔ ((name : Bytes) × IsComponent c name × ((path ≡ dir ++ name) ⊎ (path ≡ dir ++ c ∷ name)))
unfolding is_direct_child
is_direct_child_iff c dir path = (
  λ h.
      let begins : starts_with dir path ≡ true = ground arith in
      let split = starts_with_iff dir path begins in
      elim (rest-IsComponent c (drop_prefix dir path) (ground arith)) [
        | inl bare ↦ (drop_prefix dir path, bare, inl split)
        | inr (name, behind, named) ↦ (name, named, inr (split ∙ ap (λ t. dir ++ t) behind))
      ],
  λ (name, named, shape). elim shape [
    | inl bare ↦ rw (bare, starts_with-append, drop_prefix-append) (component_plain c name named)
    | inr behind ↦
        rw (behind, starts_with-append, drop_prefix-append) (component_behind c name named)
  ],
)

-- A direct child has the longer path.
pub is_direct_child-longer :
    (c : ℕ) (dir path : Bytes) → is_direct_child c dir path ≡ true → length dir < length path
is_direct_child-longer c dir path h =
    let (name, named, shape) = (is_direct_child_iff c dir path).0 h in
    elim shape [
      | inl bare ↦ rw bare (omega (arith, length-append dir name, component_long c name named))
      | inr behind ↦ rw behind (omega (arith, length-append dir (c ∷ name)))
    ]
