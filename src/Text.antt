-- ===== src/Text.antt =====
-- JavaScript's operations on texts that several parts use, on native strings: the ones that only
-- look at ASCII or at white space. A text is walked by its code points; the operations here give
-- the same answers on UTF-16 units, because what they look for is one unit each.
pub mod Numbers
pub mod Lines
use Prim.Native.Char.{Char, code}
use Prim.Native.String.{String, count}
use Prim.Native.String
use codex_unlock.Base.{
  ℕ, ◌+◌, Bool, true, false, not, ◌&&◌, ◌||◌, Option, none, some, List, [], ◌∷◌, leb, nat_eq, ◌==◌,
  if◌then◌else◌, includes, any, string_eq,
}

-- `\s`, and what `trim` removes.
abbrev pub is_space : ℕ → Bool
is_space c =
    (leb 9 c && leb c 13)
    || c == 32
    || c == 160
    || c == 5_760
    || (leb 8_192 c && leb c 8_202)
    || c == 8_232
    || c == 8_233
    || c == 8_239
    || c == 8_287
    || c == 12_288
    || c == 65_279

abbrev pub is_digit : ℕ → Bool
is_digit c = leb 48 c && leb c 57

-- The code points.
abbrev pub points : String → List ℕ
points String.[] = []
points (String.◌∷◌ c s) = code c ∷ points s

unfoldable pub has_space : String → Bool
has_space String.[] = false
has_space (String.◌∷◌ c s) = is_space (code c) || has_space s

unfoldable pub trim_start : String → String
trim_start String.[] = String.[]
trim_start (String.◌∷◌ c s) = if is_space (code c) then trim_start s else String.◌∷◌ c s

abbrev is_empty : String → Bool
is_empty s = s == ""

unfoldable pub trim_end : String → String
trim_end String.[] = String.[]
trim_end (String.◌∷◌ c s) =
    let rest = trim_end s in
    if is_empty rest && is_space (code c) then String.[] else String.◌∷◌ c rest

unfoldable pub trim : String → String
unfolding trim_start trim_end
trim s = trim_start (trim_end s)

-- `text.startsWith("-")`
abbrev pub starts_with_dash : String → Bool
starts_with_dash String.[] = false
starts_with_dash (String.◌∷◌ c s) = code c == 45

-- The part before the first "=", or all of it.
unfoldable pub before_equals : String → String
before_equals String.[] = String.[]
before_equals (String.◌∷◌ c s) = if code c == 61 then String.[] else String.◌∷◌ c (before_equals s)

-- The part after the first "=", where there is one.
unfoldable pub after_equals : String → Option String
after_equals String.[] = none
after_equals (String.◌∷◌ c s) = if code c == 61 then some s else after_equals s

-- `text.slice(0, 2)` and `text.slice(2)`
abbrev pub first_two : String → String
first_two String.[] = String.[]
first_two (String.◌∷◌ c String.[]) = String.◌∷◌ c String.[]
first_two (String.◌∷◌ c (String.◌∷◌ d s)) = String.◌∷◌ c (String.◌∷◌ d String.[])

abbrev pub after_two : String → String
after_two String.[] = String.[]
after_two (String.◌∷◌ c String.[]) = String.[]
after_two (String.◌∷◌ c (String.◌∷◌ d s)) = s

-- `texts.join(" ")`
abbrev pub join_spaces : List String → String
join_spaces [] = ""
join_spaces (s ∷ []) = s
join_spaces (s ∷ t ∷ rest) = String.◌++◌ s (String.◌++◌ " " (join_spaces (t ∷ rest)))

-- A pattern without case (`/i`) folds the letters A to Z.
abbrev pub fold_case : ℕ → ℕ
fold_case c = if leb 65 c && leb c 90 then c + 32 else c

-- `word` stands at the head of the points.
abbrev pub begins : List ℕ → List ℕ → Bool
begins [] points = true
begins (w ∷ word) [] = false
begins (w ∷ word) (c ∷ points) = w == fold_case c && begins word points

abbrev pub after : List ℕ → List ℕ → List ℕ
after [] points = points
after (w ∷ word) [] = []
after (w ∷ word) (c ∷ points) = after word points

-- `\w`
abbrev pub is_word : ℕ → Bool
is_word c = is_digit c || (leb 65 c && leb c 90) || (leb 97 c && leb c 122) || c == 95

abbrev head_is : (ℕ → Bool) → List ℕ → Bool
head_is p [] = false
head_is p (c ∷ cs) = p c

-- `/\b(?:words)\b/i`: the first argument says whether a word character comes before. The words
-- begin and end with a letter.
unfoldable pub has_word : Bool → List (List ℕ) → List ℕ → Bool
has_word inside words [] = false
has_word inside words (c ∷ cs) =
    (not inside && any (λ w. begins w (c ∷ cs) && not (head_is is_word (after w (c ∷ cs)))) words)
    || has_word (is_word c) words cs

-- `/(?:^|\s)(?:options)(?=\s|=|$)/i`: the first argument says whether the text begins here or a
-- space comes before.
unfoldable pub has_option : Bool → List (List ℕ) → List ℕ → Bool
has_option free options [] = false
has_option free options (c ∷ cs) =
    (free && any (λ w. begins w (c ∷ cs) && ends_option (after w (c ∷ cs))) options)
    || has_option (is_space c) options cs
  where
    ends_option : List ℕ → Bool
    ends_option [] = true
    ends_option (d ∷ ds) = is_space d || d == 61

abbrev reversed : List ℕ → List ℕ → List ℕ
reversed [] done = done
reversed (c ∷ cs) done = reversed cs (c ∷ done)

-- The first list of points stands at the head of the second, letter by letter.
abbrev is_prefix : List ℕ → List ℕ → Bool
is_prefix [] points = true
is_prefix (w ∷ word) [] = false
is_prefix (w ∷ word) (c ∷ points) = w == c && is_prefix word points

-- `text.startsWith(word)` and `text.endsWith(word)`, the word first.
pub starts_with : String → String → Bool
starts_with word text = is_prefix (points word) (points text)

pub ends_with : String → String → Bool
ends_with word text = is_prefix (reversed (points word) []) (reversed (points text) [])
