-- ===== src/Base/Bind.antt =====
-- `do` blocks of options: a step that has no result ends the block.
use mathlib.Core.Path.{◌≡◌, refl}
use mathlib.Core.Option.{Option, none, some}
use mathlib.Core.Bool.{Bool, true, false}
use swatcher.Base.Tests.{if◌then◌else◌, is_some}

infixl 5 ◌>>=◌
abbrev pub ◌>>=◌ {ℓ κ} : {A : Type ℓ} {B : Type κ} → Option A → (A → Option B) → Option B
none >>= f = none
some a >>= f = f a

-- A block with a result has one at its first step.
pub >>=-eq-some {ℓ κ} :
    {A : Type ℓ} {B : Type κ} (m : Option A) (f : A → Option B) (b : B)
    → (m >>= f) ≡ some b
    → (a : A) × (m ≡ some a) × (f a ≡ some b)
>>=-eq-some none f b h = cc
>>=-eq-some (some a) f b h = (a, refl, h)

-- The result, if there is one, has the property.
abbrev pub Within {ℓ κ} : {A : Type ℓ} → (A → Type κ) → Option A → Type κ
Within P none = Unit
Within P (some a) = P a

pub Within->>= {ℓ κ μ ν} :
    {A : Type ℓ} {B : Type κ} {P : A → Type μ} (Q : B → Type ν) (m : Option A) (f : A → Option B)
    → Within P m
    → ((a : A) → P a → Within Q (f a))
    → Within Q (m >>= f)
Within->>= Q none f first next = tt
Within->>= Q (some a) f first next = next a first

pub Within-if {ℓ κ} :
    {A : Type ℓ} (P : A → Type κ) (b : Bool) (x y : Option A)
    → Within P x
    → Within P y
    → Within P (if b then x else y)
Within-if P true x y yes_case no_case = yes_case
Within-if P false x y yes_case no_case = no_case

pub is_some->>= {ℓ κ} :
    {A : Type ℓ} {B : Type κ} (m : Option A) (f : A → Option B)
    → is_some m ≡ true
    → ((a : A) → is_some (f a) ≡ true)
    → is_some (m >>= f) ≡ true
is_some->>= none f first next = cc
is_some->>= (some a) f first next = next a

-- Each branch has a result where its condition holds.
pub is_some-if {ℓ} :
    {A : Type ℓ} (b : Bool) (x y : Option A)
    → (b ≡ true → is_some x ≡ true)
    → (b ≡ false → is_some y ≡ true)
    → is_some (if b then x else y) ≡ true
is_some-if true x y yes_case no_case = yes_case refl
is_some-if false x y yes_case no_case = no_case refl

-- There is a result, and it has the property.
abbrev pub Sure {ℓ} : {A : Type ℓ} → (A → Type 0) → Option A → Type 0
Sure P none = ⊥
Sure P (some a) = P a

pub Sure-some {ℓ} :
    {A : Type ℓ} {P : A → Type 0} (o : Option A) → Sure P o → (a : A) × (o ≡ some a) × P a
Sure-some none sure = absurd sure
Sure-some (some a) sure = (a, refl, sure)

pub Sure-if {ℓ} :
    {A : Type ℓ} (P : A → Type 0) (b : Bool) (x y : Option A)
    → Sure P x
    → Sure P y
    → Sure P (if b then x else y)
Sure-if P true x y yes_case no_case = yes_case
Sure-if P false x y yes_case no_case = no_case

pub Sure-Within {ℓ} :
    {A : Type ℓ} (P : A → Type 0) (o : Option A) → is_some o ≡ true → Within P o → Sure P o
Sure-Within P none found within = cc
Sure-Within P (some a) found within = within

pub Sure->>= {ℓ κ} :
    {A : Type ℓ} {B : Type κ} {P : A → Type 0} (Q : B → Type 0) (m : Option A) (f : A → Option B)
    → Sure P m
    → ((a : A) → P a → Sure Q (f a))
    → Sure Q (m >>= f)
Sure->>= Q none f first next = absurd first
Sure->>= Q (some a) f first next = next a first
