-- ===== src/Util/Lists.antt =====
-- `unique` of src/util.ts, on the texts and paths it is used for: a Set keeps first occurrences.
use codex_unlock.Base.{
  Bool, true, false, ◌||◌, subst, or-eq-true, inl, inr, arith, ◌≡◌, refl, List, [], ◌∷◌,
  StrictEquality, includes, if◌then◌else◌,
}

module _ {ℓ} {A : Type ℓ} ⦃e : StrictEquality A⦄ where
  unique_from : List A → List A → List A
  unique_from seen [] = []
  unique_from seen (x ∷ xs) =
      let again = unique_from seen xs in
      let first = x ∷ unique_from (x ∷ seen) xs in if includes seen x then again else first

  unfoldable pub unique : List A → List A
  unfolding unique_from
  unique xs = unique_from [] xs

  pub unique-eq-nil : (xs : List A) → unique xs ≡ [] → xs ≡ []
  unfolding unique
  unique-eq-nil [] h = refl
  unique-eq-nil (x ∷ xs) h = cc

  pub unique-nil : unique [] ≡ []
  unfolding unique
  unique-nil = refl

  unique_from-includes :
      (xs seen : List A) (v : A)
      → includes xs v ≡ true
      → (includes seen v || includes (unique_from seen xs) v) ≡ true
  unfolding unique_from
  unique_from-includes [] seen v h = cc
  unique_from-includes (x ∷ xs) seen v h = elim (or-eq-true (e.equals x v) (includes xs v) h) [
    | inl p ↦ first (includes seen x) refl p
    | inr p ↦
        later (includes seen x) (includes seen v) _ _ (unique_from-includes xs seen v p)
          (unique_from-includes xs (x ∷ seen) v p)
  ]
    where
      first :
          (b : Bool)
          → includes seen x ≡ b
          → e.equals x v ≡ true
          → (includes seen v
              || includes (if b then unique_from seen xs else x ∷ unique_from (x ∷ seen) xs) v)
            ≡ true
      first true q p = rw (subst (λ w. includes seen w ≡ true) ((e.equals_iff x v).0 p) q) refl
      first false q p = rw p (ground arith)

      later :
          (b s : Bool) (ms ns : List A)
          → (s || includes ms v) ≡ true
          → ((e.equals x v || s) || includes ns v) ≡ true
          → (s || includes (if b then ms else x ∷ ns) v) ≡ true
      later true s ms ns f g = f
      later false s ms ns f g = shuffled s (e.equals x v) (includes ns v) g
        where
          shuffled : (s q n : Bool) → ((q || s) || n) ≡ true → (s || (q || n)) ≡ true
          shuffled s q n h = ground arith

  pub includes-unique : (xs : List A) (v : A) → includes xs v ≡ true → includes (unique xs) v ≡ true
  unfolding unique
  includes-unique xs v h = unique_from-includes xs [] v h
