-- ===== src/Prelude/Equality.antt =====
-- `===` of the source: an instance for each type that the code compares.
use Prim.Native.Nat.{ℕ}
use Prim.Native.String.{String}
use mathlib.Core.Path.{◌≡◌, refl, sym, ap, ◌∙◌}
use mathlib.Core.Logic.{◌↔◌, ◌≢◌}
use mathlib.Core.Bool.{Bool, true, false, ◌||◌}
use mathlib.Core.Option.{Option, none, some}
use mathlib.Core.List.{List, [], ◌∷◌}
use text.Mathlib.Text.{◌==◌ as str_eq}
use text.Mathlib.TextEquality.{eq_iff}
use native.Mathlib.Omega.{arith}
use gachinol.Prelude.Tests.{nat_eq, nat_eq_iff, Bool-cases}
use gachinol.Prelude.Lists.{get_elem?}

pub record Eq {ℓ} (A : Type ℓ) : Type ℓ where
  pub equal : A → A → Bool
  pub equal_iff : (x y : A) → (equal x y ≡ true) ↔ (x ≡ y)

infix 50 ◌==◌
abbrev pub ◌==◌ {ℓ} : {B : Type ℓ} ⦃test : Eq B⦄ → B → B → Bool
◌==◌ ⦃test⦄ = test.equal

instance abbrev pub string_eq : Eq String
string_eq = record { equal = str_eq; equal_iff = eq_iff }

instance abbrev pub number_eq : Eq ℕ
number_eq = record { equal = nat_eq; equal_iff = nat_eq_iff }

-- A string union of the source: its members in the order of their declaration, by position.
pub record Enum {ℓ} (A : Type ℓ) : Type ℓ where
  pub values : List A
  pub index : A → ℕ
  pub index_lem : (a : A) → get_elem? values (index a) ≡ some a

module _ {ℓ} {A : Type ℓ} (m : Enum A) where
  abbrev pub index_eq : A → A → Bool
  index_eq a b = nat_eq (m.index a) (m.index b)

  abbrev unwrap : A → Option A → A
  unwrap d none = d
  unwrap d (some a) = a

  pub index_eq_iff : (a b : A) → (index_eq a b ≡ true) ↔ (a ≡ b)
  index_eq_iff a b = (
    λ h.
        ap (unwrap a)
          (sym (m.index_lem a) ∙ ap (get_elem? m.values) ((nat_eq_iff _ _).0 h) ∙ m.index_lem b),
    λ e. (nat_eq_iff _ _).1 (ap m.index e),
  )

  abbrev pub eq_of_enum : Eq A
  eq_of_enum = record { equal = index_eq; equal_iff = index_eq_iff }

module _ {ℓ} {A : Type ℓ} ⦃e : Eq A⦄ where
  pub eq_self : (a : A) → (a == a) ≡ true
  eq_self a = (e.equal_iff a a).1 refl

  pub eq_of_test : (a b : A) → (a == b) ≡ true → a ≡ b
  eq_of_test a b h = (e.equal_iff a b).0 h

  pub ne_of_test : (a b : A) → (a == b) ≡ false → a ≢ b
  ne_of_test a b h p = cc ((e.equal_iff a b).1 p)

  pub test_of_ne : (a b : A) → a ≢ b → (a == b) ≡ false
  test_of_ne a b h = ground (arith, Bool-cases (a == b), eq_of_test a b)

  -- `xs.includes(a)`
  abbrev pub includes : List A → A → Bool
  includes [] a = false
  includes (x ∷ xs) a = x == a || includes xs a

  abbrev option_test : Option A → Option A → Bool
  option_test none none = true
  option_test (some a) (some b) = a == b
  option_test _ _ = false

  pub option_test_iff : (a b : Option A) → (option_test a b ≡ true) ↔ (a ≡ b)
  option_test_iff none none = (λ h. refl, λ h. refl)
  option_test_iff (some a) (some b) =
      (λ h. ap some (eq_of_test a b h), λ h. ground (arith, e.equal_iff a b))
  option_test_iff none (some b) = (λ h. cc, λ h. cc)
  option_test_iff (some a) none = (λ h. cc, λ h. cc)

  -- a nullable value
  instance abbrev pub option_eq : Eq (Option A)
  option_eq = record { equal = option_test; equal_iff = option_test_iff }
