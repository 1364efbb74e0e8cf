-- ===== src/Options.antt =====
-- src/options.ts: the default options and the validation of thread ids. `resolve`, `toLowerCase`,
-- the environment variable and the home directory are parameters.
use codex_unlock.Base.{
  ℕ, ◌≡◌, refl, String, Bool, true, false, ◌&&◌, ◌||◌, Option, none, some, List, [], ◌∷◌, ◌==◌,
  nat_eq, any, list_eq, string_eq, leb, length, all, if◌then◌else◌, arith, and-eq-true,
}
use codex_unlock.Util.{◌<>◌}
use codex_unlock.Types.{DoctorOptions}
use codex_unlock.Io.{Res, ok, throw, new_error}
use codex_unlock.Text.{points, is_digit, fold_case, begins, after}

-- `[0-9a-f]` without case.
abbrev pub is_hex : ℕ → Bool
is_hex c = is_digit c || (leb 97 (fold_case c) && leb (fold_case c) 102)

-- What a pattern wants at one place.
pub data Wanted : Type 0 where
  hex dash : Wanted

abbrev accepts : Wanted → ℕ → Bool
accepts hex c = is_hex c
accepts dash c = c == 45

-- `/^[0-9a-f]{8}-[0-9a-f]{4}-[0-9a-f]{4}-[0-9a-f]{4}-[0-9a-f]{12}$/i`
abbrev four : List Wanted → List Wanted
four rest = hex ∷ hex ∷ hex ∷ hex ∷ rest

abbrev pub thread_id_pattern : List Wanted
thread_id_pattern =
    four (four (dash ∷ four (dash ∷ four (dash ∷ four (dash ∷ four (four (four [])))))))

fits : List Wanted → List ℕ → Bool
fits [] [] = true
fits (w ∷ ws) (c ∷ cs) = accepts w c && fits ws cs
fits _ _ = false

-- The pattern, and then one of the endings, without case.
pub fits_prefix : List Wanted → List (List ℕ) → List ℕ → Bool
fits_prefix [] endings points = any (λ e. begins e points && after e points == []) endings
fits_prefix (w ∷ ws) endings [] = false
fits_prefix (w ∷ ws) endings (c ∷ cs) = accepts w c && fits_prefix ws endings cs

unfoldable pub is_thread_id : String → Bool
unfolding fits
is_thread_id value = fits thread_id_pattern (points value)

pub validate_thread_id : (String → String) → String → Res String
validate_thread_id lower thread_id =
    if is_thread_id thread_id
    then ok (lower thread_id)
    else throw (new_error ("invalid Codex thread id: " <> thread_id))

-- `process.env.CODEX_HOME || join(homedir(), ".codex")`
abbrev home_of : Option String → String → String
home_of none default_home = default_home
home_of (some home) default_home = if home == "" then default_home else home

unfoldable pub default_options : (String → String) → Option String → String → DoctorOptions
default_options resolve codex_home default_home = record {
  codex_home = resolve (home_of codex_home default_home);
  stability_ms = 1000;
  termination_timeout_ms = 5000;
}

-- A name that can stand in a path: 36 characters, each a hexadecimal digit or a dash.
pub record IsPlainName (name : List ℕ) : Type 0 where
  pub size : length name ≡ 36
  pub plain : all (λ c. is_hex c || c == 45) name ≡ true

accepts-plain : (w : Wanted) (c : ℕ) → accepts w c ≡ true → (is_hex c || c == 45) ≡ true
accepts-plain hex c h = ground (arith, h)
accepts-plain dash c h = ground (arith, h)

fits-plain :
    (ws : List Wanted) (cs : List ℕ)
    → fits ws cs ≡ true
    → (length cs ≡ length ws) × (all (λ c. is_hex c || c == 45) cs ≡ true)
unfolding fits
fits-plain [] [] h = (refl, refl)
fits-plain [] (c ∷ cs) h = cc
fits-plain (w ∷ ws) [] h = cc
fits-plain (w ∷ ws) (c ∷ cs) h =
    let both = and-eq-true (accepts w c) (fits ws cs) h in
    let rest = fits-plain ws cs both.1 in
    (omega (arith, rest.0), rw (accepts-plain w c both.0) rest.1)

pub is_thread_id-IsPlainName : (id : String) → is_thread_id id ≡ true → IsPlainName (points id)
unfolding is_thread_id
is_thread_id-IsPlainName id h =
    let both = fits-plain thread_id_pattern (points id) h in
    record { size = both.0; plain = both.1 }
