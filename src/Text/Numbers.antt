-- ===== src/Text/Numbers.antt =====
-- The numbers that the program reads from texts.
use Prim.Native.Char.{code}
use Prim.Native.String.{String}
use codex_unlock.Base.{
  ℕ, ◌+◌, ◌-◌, ◌*◌, ℤ, pos, negsuc, Bool, false, ◌&&◌, Option, none, some, ◌==◌, nat_eq, leb,
  if◌then◌else◌,
}
use codex_unlock.Text.{is_digit, is_space, fold_case}

-- Number.MAX_SAFE_INTEGER
abbrev pub max_safe_integer : ℕ
max_safe_integer = 9_007_199_254_740_991

-- `/^\d+$/`: the value of a text of digits alone, after the digits read so far.
unfoldable pub digits_after : ℕ → String → Option ℕ
digits_after n String.[] = some n
digits_after n (String.◌∷◌ c s) =
    let rest = digits_after (n * 10 + (code c - 48)) s in if is_digit (code c) then rest else none

unfoldable pub parse_digits : String → Option ℕ
parse_digits String.[] = none
parse_digits (String.◌∷◌ c s) = digits_after 0 (String.◌∷◌ c s)

-- `/^[0-9a-f]+$/i`, after the digits read so far.
abbrev hex_value : ℕ → Option ℕ
hex_value c =
    if is_digit c
    then some (c - 48)
    else (if leb 97 (fold_case c) && leb (fold_case c) 102 then some (fold_case c - 87) else none)

hex_after : ℕ → String → Option ℕ
hex_after n String.[] = some n
hex_after n (String.◌∷◌ c s) = elim (hex_value (code c)) [
  | none ↦ none
  | some v ↦ hex_after (n * 16 + v) s
]

-- `/^0x[0-9a-f]+$/i`
pub parse_hex : String → Option ℕ
unfolding hex_after
parse_hex (String.◌∷◌ z (String.◌∷◌ x (String.◌∷◌ c s))) =
    if code z == 48 && fold_case (code x) == 120 then hex_after 0 (String.◌∷◌ c s) else none
parse_hex _ = none

-- The digits at the head of a text; what follows them is ignored.
leading_digits : ℕ → String → ℕ
leading_digits n String.[] = n
leading_digits n (String.◌∷◌ c s) =
    let rest = leading_digits (n * 10 + (code c - 48)) s in if is_digit (code c) then rest else n

abbrev starts_with_digit : String → Bool
starts_with_digit String.[] = false
starts_with_digit (String.◌∷◌ c s) = is_digit (code c)

abbrev negated : ℕ → ℤ
negated n = if n == 0 then pos 0 else negsuc (n - 1)

abbrev magnitude : String → Option ℕ
magnitude s = if starts_with_digit s then some (leading_digits 0 s) else none

abbrev safe : Option ℕ → (ℕ → ℤ) → Option ℤ
safe none sign = none
safe (some n) sign = if leb n max_safe_integer then some (sign n) else none

abbrev signed_integer : String → Option ℤ
signed_integer String.[] = none
signed_integer (String.◌∷◌ c s) =
    if code c == 45
    then safe (magnitude s) negated
    else safe (magnitude (if code c == 43 then s else String.◌∷◌ c s)) pos

-- `Number.parseInt(text, 10)` where it is a safe integer; beyond that range its rounding to a double
-- is never one.
pub safe_integer : String → Option ℤ
unfolding leading_digits
safe_integer String.[] = none
safe_integer (String.◌∷◌ c s) =
    let rest = safe_integer s in if is_space (code c) then rest else signed_integer (String.◌∷◌ c s)
