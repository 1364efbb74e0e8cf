-- ===== src/Policy/Blockers.antt =====
-- `addOnce` of src/policy.ts, and lists of blockers that grow by conditions.
use codex_unlock.Base.{
  ◌≡◌, refl, String, Bool, true, false, List, [], ◌∷◌, ◌++◌, string_eq, includes, if◌then◌else◌,
  arith,
}

unfoldable pub add_once : List String → String → List String
add_once values value = if includes values value then values else values ++ value ∷ []

-- `if (test) addOnce(values, value)`
unfoldable pub block_if : Bool → String → List String → List String
unfolding add_once
block_if test value values = if test then add_once values value else values

pub add_once-ne-nil : (values : List String) (value : String) → add_once values value ≡ [] → ⊥
unfolding add_once
add_once-ne-nil [] value h = cc
add_once-ne-nil (v ∷ vs) value h = ground arith

-- Nothing is blocked exactly when nothing was before and the test fails.
pub block_if-eq-nil :
    (test : Bool) (value : String) (values : List String)
    → block_if test value values ≡ []
    → (test ≡ false) × (values ≡ [])
unfolding block_if
block_if-eq-nil true value values h = absurd (add_once-ne-nil values value h)
block_if-eq-nil false value values h = (refl, h)

pub block_if-of_false :
    (test : Bool) (value : String) (values : List String)
    → test ≡ false
    → values ≡ []
    → block_if test value values ≡ []
unfolding block_if
block_if-of_false test value values h k = rw (h, k)
