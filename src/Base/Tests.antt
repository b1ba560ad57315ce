-- ===== src/Base/Tests.antt =====
-- Boolean tests on numbers, decisions on texts, and the conditional.
use Prim.Native.Nat.{ℕ, compare, Ordering}
use Prim.Native.String.{String}
use mathlib.Core.Path.{◌≡◌, refl}
use mathlib.Core.Logic.{◌⊎◌, inl, inr}
use mathlib.Core.Bool.{Bool, true, false}
use mathlib.Core.Option.{Option, none, some}
use text.Mathlib.Text.{◌==◌ as str_eq}
use text.Mathlib.TextEquality.{eq_iff}

abbrev pub ltb : ℕ → ℕ → Bool
ltb a b = elim (compare a b) [ Ordering.lt ↦ true | _ ↦ false ]

abbrev pub leb : ℕ → ℕ → Bool
leb a b = elim (compare a b) [ Ordering.gt ↦ false | _ ↦ true ]

infix 50 ◌==◌
abbrev pub ◌==◌ : ℕ → ℕ → Bool
a == b = elim (compare a b) [ Ordering.eq ↦ true | _ ↦ false ]

infix 1 if◌then◌else◌
abbrev pub if◌then◌else◌ {ℓ} : {A : Type ℓ} → Bool → A → A → A
if true then x else y = x
if false then x else y = y

-- To split on a computed value and keep the equation.
pub Bool-cases : (b : Bool) → (b ≡ true) ⊎ (b ≡ false)
Bool-cases true = inl refl
Bool-cases false = inr refl

pub Option-cases {ℓ} : {A : Type ℓ} (o : Option A) → (o ≡ none) ⊎ ((a : A) × (o ≡ some a))
Option-cases none = inl refl
Option-cases (some a) = inr (a, refl)

dec_of_test : (s t : String) (b : Bool) → str_eq s t ≡ b → Dec (s ≡ t)
dec_of_test s t true h = yes ((eq_iff s t).0 h)
dec_of_test s t false h = no (λ e. cc ((eq_iff s t).1 e, h))

-- Equality of texts, decided by the native comparison.
unfoldable pub str_dec : Discrete String
unfolding dec_of_test
str_dec s t = dec_of_test s t (str_eq s t) refl

-- `s == t` on texts, as a test.
abbrev pub same : String → String → Bool
same s t = elim (str_dec s t) [ yes _ ↦ true | no _ ↦ false ]
