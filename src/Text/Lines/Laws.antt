-- ===== src/Text/Lines/Laws.antt =====
-- Sorting keeps the members.
use codex_unlock.Base.{
  ◌≡◌, refl, ◌∙◌, Bool, ◌||◌, List, [], ◌∷◌, StrictEquality, includes, arith, ap,
}
use codex_unlock.Text.Lines.{insert_sorted, sort_by}

module _ {ℓ} {A : Type ℓ} ⦃e : StrictEquality A⦄ (less : A → A → Bool) where
  includes-insert_sorted :
      (x : A) (ys : List A) (v : A)
      → includes (insert_sorted less x ys) v ≡ (e.equals x v || includes ys v)
  unfolding insert_sorted
  includes-insert_sorted x [] v = refl
  includes-insert_sorted x (y ∷ ys) v = ground (arith, includes-insert_sorted x ys v)

  pub includes-sort_by : (xs : List A) (v : A) → includes (sort_by less xs) v ≡ includes xs v
  unfolding sort_by
  includes-sort_by [] v = refl
  includes-sort_by (x ∷ xs) v =
      includes-insert_sorted x (sort_by less xs) v
      ∙ ap (λ b. e.equals x v || b) (includes-sort_by xs v)
