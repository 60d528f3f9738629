-- ===== src/Prelude/Tests.antt =====
-- Boolean tests on the native numbers, the conditional, and case splits that keep the equation.
use Prim.Native.Nat.{ℕ, compare, Ordering}
use mathlib.Core.Path.{◌≡◌, refl}
use mathlib.Core.Logic.{◌⊎◌, inl, inr}
use mathlib.Core.Bool.{Bool, true, false}
use mathlib.Core.Option.{Option, none, some}

abbrev pub ltb : ℕ → ℕ → Bool
ltb a b = elim (compare a b) [ Ordering.lt ↦ true | _ ↦ false ]

abbrev pub leb : ℕ → ℕ → Bool
leb a b = elim (compare a b) [ Ordering.gt ↦ false | _ ↦ true ]

infix 50 ◌==◌
abbrev pub ◌==◌ : ℕ → ℕ → Bool
a == b = elim (compare a b) [ Ordering.eq ↦ true | _ ↦ false ]

infix 1 if◌then◌else◌
abbrev pub if◌then◌else◌ {ℓ} : {A : Type ℓ} → Bool → A → A → A
if true then x else _ = x
if false then _ else y = y

pub Bool-cases : (b : Bool) → (b ≡ true) ⊎ (b ≡ false)
Bool-cases true = inl refl
Bool-cases false = inr refl

pub Option-cases {ℓ} : {A : Type ℓ} (o : Option A) → (o ≡ none) ⊎ ((a : A) × (o ≡ some a))
Option-cases none = inl refl
Option-cases (some a) = inr (a, refl)

-- Python's `x is not None`
abbrev pub is_some {ℓ} : {A : Type ℓ} → Option A → Bool
is_some none = false
is_some (some _) = true

-- Python's `x if x is not None else y`
abbrev pub or_else {ℓ} : {A : Type ℓ} → Option A → A → A
or_else none y = y
or_else (some x) _ = x

-- What holds of both branches holds of the choice between them.
pub either {ℓ m} :
    {A : Type ℓ} (P : A → Type m) {x y : A} (b : Bool)
    → P x
    → P y
    → P (elim b [ true ↦ x | false ↦ y ])
either P true yes_holds no_holds = yes_holds
either P false yes_holds no_holds = no_holds

-- The same, where each branch knows the test.
pub either_known {ℓ m} :
    {A : Type ℓ} (P : A → Type m) {x y : A} (b : Bool)
    → (b ≡ true → P x)
    → (b ≡ false → P y)
    → P (elim b [ true ↦ x | false ↦ y ])
either_known P true yes_holds no_holds = yes_holds refl
either_known P false yes_holds no_holds = no_holds refl

pub either_option {ℓ k m} :
    {A : Type ℓ} {B : Type k} (P : B → Type m) {x : B} {f : A → B} (o : Option A)
    → P x
    → ((a : A) → P (f a))
    → P (elim o [ none ↦ x | some a ↦ f a ])
either_option P none on_none on_some = on_none
either_option P (some a) on_none on_some = on_some a

pub either_option_known {ℓ k m} :
    {A : Type ℓ} {B : Type k} (P : B → Type m) {x : B} {f : A → B} (o : Option A)
    → (o ≡ none → P x)
    → ((a : A) → o ≡ some a → P (f a))
    → P (elim o [ none ↦ x | some a ↦ f a ])
either_option_known P none on_none on_some = on_none refl
either_option_known P (some a) on_none on_some = on_some a refl
