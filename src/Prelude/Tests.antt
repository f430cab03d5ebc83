-- ===== src/Prelude/Tests.antt =====
-- Boolean tests on numbers, the conditional, and case splits that keep their equation.
use Prim.Native.Nat.{ℕ, compare, Ordering}
use Prim.Native.String.{String}
use mathlib.Core.Path.{◌≡◌, refl}
use mathlib.Core.Logic.{◌↔◌, ◌⊎◌, inl, inr}
use mathlib.Core.Bool.{Bool, true, false}
use mathlib.Core.Option.{Option, none, some}
use native.Mathlib.Decide.{ℕ_discrete}
use native.Mathlib.Omega.{arith}
use text.Mathlib.Text.{◌==◌ as str_eq}
use text.Mathlib.TextEquality.{eq_iff}

abbrev pub ltb : ℕ → ℕ → Bool
ltb a b = elim (compare a b) [ Ordering.lt ↦ true | _ ↦ false ]

abbrev pub leb : ℕ → ℕ → Bool
leb a b = elim (compare a b) [ Ordering.gt ↦ false | _ ↦ true ]

infix 50 ◌==◌
abbrev pub ◌==◌ : ℕ → ℕ → Bool
a == b = elim (compare a b) [ Ordering.eq ↦ true | _ ↦ false ]

infix 1 if◌then◌else◌
abbrev pub if◌then◌else◌ {ℓ} : {A : Type ℓ} → Bool → A → A → A
if true then x else y = x
if false then x else y = y

pub Bool-cases : (b : Bool) → (b ≡ true) ⊎ (b ≡ false)
Bool-cases true = inl refl
Bool-cases false = inr refl

pub Option-cases {ℓ} : {A : Type ℓ} (o : Option A) → (o ≡ none) ⊎ ((a : A) × (o ≡ some a))
Option-cases none = inl refl
Option-cases (some a) = inr (a, refl)

dec_of_bool : {P : Type 0} (b : Bool) → (b ≡ true) ↔ P → Dec P
dec_of_bool true e = yes (e.0 refl)
dec_of_bool false e = no (λ p. cc (e.1 p))

-- `==` on Python strings.
unfoldable pub String-discrete : Discrete String
unfolding dec_of_bool
String-discrete a b = dec_of_bool (str_eq a b) (eq_iff a b)

-- A type whose values serve as dictionary keys or are compared by `==`.
pub record Key {ℓ} (K : Type ℓ) : Type ℓ where
  pub same : Discrete K

-- `==` as a test
abbrev pub equal {ℓ} : {K : Type ℓ} ⦃e : Key K⦄ → K → K → Bool
equal ⦃e⦄ a b = elim (e.same a b) [ yes _ ↦ true | no _ ↦ false ]

instance abbrev pub nat_key : Key ℕ
unfolding ℕ_discrete
nat_key = record { same = ℕ_discrete }

instance abbrev pub string_key : Key String
unfolding String-discrete
string_key = record { same = String-discrete }

pub equal_sound : {K : Type 0} ⦃e : Key K⦄ (a b : K) → equal a b ≡ true → a ≡ b
equal_sound ⦃e⦄ a b h = ground (arith, h)

pub equal_refl : {K : Type 0} ⦃e : Key K⦄ (a : K) → equal a a ≡ true
equal_refl ⦃e⦄ a = ground arith
