-- ===== src/Text/Lines.antt =====
-- Splitting and sorting texts.
pub mod Laws
use Prim.Native.Char.{code}
use Prim.Native.String.{String}
use Prim.Native.String
use codex_unlock.Base.{
  ℕ, ◌+◌, ◌-◌, ◌/◌, ◌%◌, Bool, true, false, not, ◌&&◌, ◌||◌, List, [], ◌∷◌, ◌++◌, ◌==◌, nat_eq, ltb,
  leb, if◌then◌else◌,
}
use codex_unlock.Text.{points}

abbrev on_first : (String → String) → List String → List String
on_first f [] = f String.[] ∷ []
on_first f (t ∷ ts) = f t ∷ ts

-- `text.split` at every character of a class.
pub split_at : (ℕ → Bool) → String → List String
split_at separates String.[] = String.[] ∷ []
split_at separates (String.◌∷◌ c s) =
    let rest = split_at separates s in
    if separates (code c) then String.[] ∷ rest else on_first (String.◌∷◌ c) rest

-- `output.split(/[\0\n]/)`
abbrev pub split_fields : String → List String
split_fields = split_at (λ c. c == 0 || c == 10)

abbrev pub split_lines : String → List String
split_lines = split_at (λ c. c == 10)

-- The UTF-16 units of a text, by which JavaScript sorts.
abbrev units_of : List ℕ → List ℕ
units_of [] = []
units_of (c ∷ cs) =
    (if ltb c 65_536
      then c ∷ []
      else (55_296 + (c - 65_536) / 1_024) ∷ (56_320 + (c - 65_536) % 1_024) ∷ [])
    ++ units_of cs

less_units : List ℕ → List ℕ → Bool
less_units left [] = false
less_units [] (r ∷ rs) = true
less_units (l ∷ ls) (r ∷ rs) = ltb l r || (l == r && less_units ls rs)

pub text_less : String → String → Bool
unfolding less_units
text_less left right = less_units (units_of (points left)) (units_of (points right))

module _ {ℓ} {A : Type ℓ} (less : A → A → Bool) where
  -- A stable sort.
  unfoldable pub insert_sorted : A → List A → List A
  insert_sorted x [] = x ∷ []
  insert_sorted x (y ∷ ys) = if less y x then y ∷ insert_sorted x ys else x ∷ y ∷ ys

  unfoldable pub sort_by : List A → List A
  sort_by [] = []
  sort_by (x ∷ xs) = insert_sorted x (sort_by xs)

abbrev pub sort_texts : List String → List String
sort_texts = sort_by text_less
