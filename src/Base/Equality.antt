-- ===== src/Base/Equality.antt =====
-- Equality tests (`===`, and the comparison of nullable values and lists) with their laws.
use Prim.Native.Nat.{ℕ}
use Prim.Native.String.{String}
use mathlib.Core.Path.{◌≡◌, refl, ap}
use mathlib.Core.Logic.{◌↔◌}
use mathlib.Core.Bool.{Bool, true, false, ◌&&◌, ◌||◌, not}
use mathlib.Core.Option.{Option, none, some}
use mathlib.Core.List.{List, [], ◌∷◌}
use native.Mathlib.Omega.{arith}
use text.Mathlib.Text.{◌==◌ as str_eq}
use text.Mathlib.TextEquality.{eq_iff}
use codex_unlock.Base.Tests.{nat_beq, nat_beq_iff}

-- `===` on a type, and what it decides.
pub record StrictEquality {ℓ} (A : Type ℓ) : Type ℓ where
  pub equals : A → A → Bool
  pub equals_iff : (left right : A) → (equals left right ≡ true) ↔ (left ≡ right)

abbrev pub bool_beq : Bool → Bool → Bool
bool_beq true b = b
bool_beq false b = not b

pub bool_beq_iff : (a b : Bool) → (bool_beq a b ≡ true) ↔ (a ≡ b)
bool_beq_iff a b = ground arith

module _ {ℓ} {A : Type ℓ} ⦃e : StrictEquality A⦄ where
  abbrev pub option_beq : Option A → Option A → Bool
  option_beq none none = true
  option_beq (some a) (some b) = e.equals a b
  option_beq _ _ = false

  pub option_beq_iff : (a b : Option A) → (option_beq a b ≡ true) ↔ (a ≡ b)
  option_beq_iff none none = (λ _. refl, λ _. refl)
  option_beq_iff none (some b) = (λ h. cc, λ h. cc)
  option_beq_iff (some a) none = (λ h. cc, λ h. cc)
  option_beq_iff (some a) (some b) =
      let inner = e.equals_iff a b in (λ h. ap some (inner.0 h), λ h. inner.1 (cc h))

  abbrev pub list_beq : List A → List A → Bool
  list_beq [] [] = true
  list_beq (a ∷ as') (b ∷ bs) = e.equals a b && list_beq as' bs
  list_beq _ _ = false

  pub list_beq_iff : (a b : List A) → (list_beq a b ≡ true) ↔ (a ≡ b)
  list_beq_iff [] [] = (λ _. refl, λ _. refl)
  list_beq_iff [] (b ∷ bs) = (λ h. cc, λ h. cc)
  list_beq_iff (a ∷ as') [] = (λ h. cc, λ h. cc)
  list_beq_iff (a ∷ as') (b ∷ bs) =
      let head_iff = e.equals_iff a b in
      let tail_iff = list_beq_iff as' bs in
      (λ h. ground (arith, head_iff, tail_iff), λ h. ground (arith, head_iff, tail_iff))

  -- `values.includes(value)`.
  abbrev pub includes : List A → A → Bool
  includes [] v = false
  includes (x ∷ xs) v = e.equals x v || includes xs v

  pub includes-head : (v : A) (xs : List A) → includes (v ∷ xs) v ≡ true
  includes-head v xs = rw ((e.equals_iff v v).1 refl) refl

  -- What is not equal under the test is not equal.
  pub beq-false : (a b : A) → e.equals a b ≡ false → a ≡ b → ⊥
  beq-false a b h p = cc ((e.equals_iff a b).1 p)

instance abbrev pub bool_eq : StrictEquality Bool
bool_eq = record { equals_iff = bool_beq_iff; equals = bool_beq }

instance abbrev pub option_eq {ℓ} : {A : Type ℓ} ⦃e : StrictEquality A⦄ → StrictEquality (Option A)
option_eq = record { equals_iff = option_beq_iff; equals = option_beq }

instance abbrev pub list_eq {ℓ} : {A : Type ℓ} ⦃e : StrictEquality A⦄ → StrictEquality (List A)
list_eq = record { equals_iff = list_beq_iff; equals = list_beq }

instance abbrev pub string_eq : StrictEquality String
string_eq = record { equals_iff = eq_iff; equals = str_eq }

instance abbrev pub nat_eq : StrictEquality ℕ
nat_eq = record { equals_iff = nat_beq_iff; equals = nat_beq }

infix 50 ◌==◌
abbrev pub ◌==◌ {ℓ} : {A : Type ℓ} ⦃equality : StrictEquality A⦄ → A → A → Bool
◌==◌ ⦃equality⦄ left right = equality.equals left right

-- What passes the test is equal.
pub eq_of_test {ℓ} : {A : Type ℓ} ⦃e : StrictEquality A⦄ (a b : A) → (a == b) ≡ true → a ≡ b
eq_of_test ⦃e⦄ a b h = (e.equals_iff a b).0 h
