-- ===== src/Update/Versions.antt =====
-- src/update.ts: stable versions and their comparison.
pub mod Laws
use codex_unlock.Base.{
  ℕ, nat_eq, String, Bool, true, false, Option, none, some, List, [], ◌∷◌, ◌==◌, string_eq, ltb,
  length, if◌then◌else◌,
}
use codex_unlock.Io.{Res, ok, throw, new_error}
use codex_unlock.Text.{points, starts_with}
use codex_unlock.Text.Numbers.{parse_digits}
use codex_unlock.Text.Lines.{split_at}

pub record Version : Type 0 where
  pub major : ℕ
  pub minor : ℕ
  pub patch : ℕ

-- `(0|[1-9]\d*)`
abbrev version_part : String → Option ℕ
version_part part =
    if part == "0" then some 0 else (if starts_with "0" part then none else parse_digits part)

abbrev three_parts : Option ℕ → Option ℕ → Option ℕ → Option Version
three_parts (some major) (some minor) (some patch) =
    some (record { major = major; minor = minor; patch = patch })
three_parts _ _ _ = none

abbrev version_of : List String → Option Version
version_of (major ∷ minor ∷ patch ∷ []) =
    three_parts (version_part major) (version_part minor) (version_part patch)
version_of _ = none

-- MAX_VERSION_LENGTH; a text that matches the pattern has one unit for each code point.
abbrev max_version_length : ℕ
max_version_length = 64

-- The numbers of a text that is a stable version.
pub stable_version : String → Option Version
stable_version value =
    if ltb max_version_length (length (points value))
    then none
    else version_of (split_at (λ c. c == 46) value)

-- -1, 0 and 1
pub data Comparison : Type 0 where
  less equal greater : Comparison

abbrev pub compare_part : ℕ → ℕ → Comparison → Comparison
compare_part left right rest =
    if ltb left right then less else (if ltb right left then greater else rest)

abbrev pub compare_versions : Version → Version → Comparison
compare_versions left right =
    compare_part left.major right.major
      (compare_part left.minor right.minor (compare_part left.patch right.patch equal))

abbrev pub compare_stable : Option Version → Option Version → Res Comparison
compare_stable (some left) (some right) = ok (compare_versions left right)
compare_stable _ _ = throw (new_error "stable semantic versions are required")

unfoldable pub compare_stable_versions : String → String → Res Comparison
compare_stable_versions left right = compare_stable (stable_version left) (stable_version right)
