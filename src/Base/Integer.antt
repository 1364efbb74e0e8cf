-- ===== src/Base/Integer.antt =====
-- Integers on the native numbers, as the program compares them.
use Prim.Native.Nat.{ℕ}
use mathlib.Core.Path.{◌≡◌, ap}
use mathlib.Core.Logic.{◌↔◌}
use mathlib.Core.Bool.{Bool, true, false}
use codex_unlock.Base.Tests.{nat_beq, nat_beq_iff}
use codex_unlock.Base.Equality.{StrictEquality}

-- `negsuc n` is `-(n + 1)`.
pub data ℤ : Type 0 where
  pos negsuc : ℕ → ℤ

abbrev pub integer_beq : ℤ → ℤ → Bool
integer_beq (pos a) (pos b) = nat_beq a b
integer_beq (negsuc a) (negsuc b) = nat_beq a b
integer_beq _ _ = false

pub integer_beq_iff : (a b : ℤ) → (integer_beq a b ≡ true) ↔ (a ≡ b)
integer_beq_iff (pos a) (pos b) =
    let same = nat_beq_iff a b in (λ h. ap pos (same.0 h), λ h. same.1 (cc h))
integer_beq_iff (negsuc a) (negsuc b) =
    let same = nat_beq_iff a b in (λ h. ap negsuc (same.0 h), λ h. same.1 (cc h))
integer_beq_iff (pos a) (negsuc b) = (λ h. cc, λ h. cc)
integer_beq_iff (negsuc a) (pos b) = (λ h. cc, λ h. cc)

instance abbrev pub integer_eq : StrictEquality ℤ
integer_eq = record { equals_iff = integer_beq_iff; equals = integer_beq }
