-- ===== src/Cli/Arguments/Laws.antt =====
-- What a command line that is accepted says: its numbers are in their ranges, and its command has
-- the arguments that it needs.
use codex_unlock.Base.{
  ℕ, ◌≤◌, ◌≡◌, refl, subst, String, Bool, true, false, Option, none, some, List, [], ◌∷◌, string_eq,
  arith,
}
use codex_unlock.Types.{CommandName, list, inspect, unlock, check_update, DoctorOptions}
use codex_unlock.Io.{Res, ok, throw}
use codex_unlock.Options.{is_thread_id, default_options}
use codex_unlock.Cli.Arguments.{
  ParsedArguments, Parsed, standalone, command, Standalone, require, bind_res, map_res,
  ArgumentState, ValueOption, codex_home, stability, timeout, value_option, command_name, Flag,
  flag_of, show_help, show_version, json_output, no_notice, unknown_option, operand, read_last,
  read_next, integer_option, read_flag, read_value_option, read_all, initial_arguments, with_thread,
  with_command, parsed_arguments, by_standalone, parse_arguments, digits_of, in_range, home_path,
  option_value, set_home, set_stability, set_timeout, named, run_of,
}

abbrev pub OnOk {ℓ} : {A : Type ℓ} → (A → Type 0) → Res A → Type 0
OnOk P (ok a) = P a
OnOk P (throw e) = Unit {0}

pub OnOk-bind {ℓ κ} :
    {A : Type ℓ} {B : Type κ} (P : A → Type 0) (Q : B → Type 0) (r : Res A) (f : A → Res B)
    → OnOk P r
    → ((a : A) → P a → OnOk Q (f a))
    → OnOk Q (bind_res r f)
OnOk-bind P Q (ok a) f h g = g a h
OnOk-bind P Q (throw e) f h g = tt

pub OnOk-map {ℓ κ} :
    {A : Type ℓ} {B : Type κ} (P : A → Type 0) (Q : B → Type 0) (r : Res A) (f : A → B)
    → OnOk P r
    → ((a : A) → P a → Q (f a))
    → OnOk Q (map_res f r)
OnOk-map P Q (ok a) f h g = g a h
OnOk-map P Q (throw e) f h g = tt

pub OnOk-require {ℓ} :
    {A : Type ℓ} (P : A → Type 0) (b : Bool) (message : String) (r : Res A)
    → (b ≡ true → OnOk P r)
    → OnOk P (require b message r)
unfolding require
OnOk-require P true message r h = h refl
OnOk-require P false message r h = tt

pub OnOk-any {ℓ} : {A : Type ℓ} (r : Res A) → OnOk (λ a. Unit {0}) r
OnOk-any (ok a) = tt
OnOk-any (throw e) = tt

-- The ranges that the help text promises.
pub record AreInRange (o : DoctorOptions) : Type 0 where
  pub stability_low : 250 ≤ o.stability_ms
  pub stability_high : o.stability_ms ≤ 30_000
  pub timeout_low : 100 ≤ o.termination_timeout_ms
  pub timeout_high : o.termination_timeout_ms ≤ 60_000

-- `inspect` and `unlock` have a valid thread id, the other commands have none.
abbrev pub IsAddressed : CommandName → Option String → Type 0
IsAddressed list none = Unit {0}
IsAddressed check_update none = Unit {0}
IsAddressed inspect (some id) = is_thread_id id ≡ true
IsAddressed unlock (some id) = is_thread_id id ≡ true
IsAddressed _ _ = ⊥

pub record IsUsable (p : ParsedArguments) : Type 0 where
  pub ranges : AreInRange p.options
  pub address : IsAddressed p.command p.thread_id

abbrev Usable : Parsed → Type 0
Usable (standalone s) = Unit {0}
Usable (command p) = IsUsable p

abbrev StaysInRange : ArgumentState → Type 0
StaysInRange t = AreInRange t.options

in_range-between :
    (show_number : ℕ → String) (name : String) (o : Option ℕ) (low high : ℕ)
    → OnOk (λ (n : ℕ). (low ≤ n) × (n ≤ high)) (in_range show_number name o low high)
unfolding in_range
in_range-between show_number name none low high = tt
in_range-between show_number name (some n) low high = ground arith

read_flag-AreInRange :
    (flag : Flag) (argument : String) (s : ArgumentState)
    → AreInRange s.options
    → OnOk StaysInRange (read_flag flag argument s)
read_flag-AreInRange show_help argument s h = h
read_flag-AreInRange show_version argument s h = h
read_flag-AreInRange json_output argument s h = h
read_flag-AreInRange no_notice argument s h = h
read_flag-AreInRange unknown_option argument s h = tt
read_flag-AreInRange operand argument s h = h

module _ (show_number : ℕ → String) (resolve : String → String) where
  read_value_option-AreInRange :
      (option : ValueOption) (argument : String) (value : Option String) (s : ArgumentState)
      → AreInRange s.options
      → OnOk StaysInRange (read_value_option show_number resolve option argument value s)
  unfolding integer_option
  read_value_option-AreInRange codex_home argument value s h =
      OnOk-map (λ (a : String). Unit {0}) StaysInRange
        (home_path show_number resolve (option_value value)) (set_home show_number resolve s)
        (OnOk-any _) (λ a u. omega arith)
  read_value_option-AreInRange stability argument value s h =
      OnOk-map (λ (n : ℕ). (250 ≤ n) × (n ≤ 30_000)) StaysInRange _
        (set_stability show_number resolve s)
        (in_range-between show_number argument (digits_of show_number value) 250 30_000)
        (λ n b. omega arith)
  read_value_option-AreInRange timeout argument value s h =
      OnOk-map (λ (n : ℕ). (100 ≤ n) × (n ≤ 60_000)) StaysInRange _
        (set_timeout show_number resolve s)
        (in_range-between show_number argument (digits_of show_number value) 100 60_000)
        (λ n b. omega arith)

  read_next-AreInRange :
      (o : Option ValueOption) (argument value : String) (s : ArgumentState)
      (go_on skip : ArgumentState → Res ArgumentState)
      → AreInRange s.options
      → ((t : ArgumentState) → AreInRange t.options → OnOk StaysInRange (go_on t))
      → ((t : ArgumentState) → AreInRange t.options → OnOk StaysInRange (skip t))
      → OnOk StaysInRange (read_next show_number resolve o argument value s go_on skip)
  read_next-AreInRange none argument value s go_on skip h f g =
      OnOk-bind StaysInRange StaysInRange _ go_on
        (read_flag-AreInRange (flag_of argument) argument s h) f
  read_next-AreInRange (some option) argument value s go_on skip h f g =
      OnOk-bind StaysInRange StaysInRange _ skip
        (read_value_option-AreInRange option argument (some value) s h) g

  read_all-AreInRange :
      (argv : List String) (s : ArgumentState)
      → AreInRange s.options
      → OnOk StaysInRange (read_all show_number resolve argv s)
  unfolding read_all
  read_all-AreInRange [] s h = h
  read_all-AreInRange (argument ∷ []) s h = last (value_option argument)
    where
      last :
          (o : Option ValueOption) → OnOk StaysInRange (read_last show_number resolve o argument s)
      last none = read_flag-AreInRange (flag_of argument) argument s h
      last (some option) = read_value_option-AreInRange option argument none s h
  read_all-AreInRange (argument ∷ value ∷ rest) s h =
      read_next-AreInRange (value_option argument) argument value s _ _ h
        (λ t g. read_all-AreInRange (value ∷ rest) t g) (λ t g. read_all-AreInRange rest t g)

with_thread-Usable :
    (name : CommandName) (rest : List String) (s : ArgumentState)
    → AreInRange s.options
    → ((id : String) → is_thread_id id ≡ true → IsAddressed name (some id))
    → OnOk Usable (with_thread name rest s)
unfolding with_thread
with_thread-Usable name [] s h g = tt
with_thread-Usable name (id ∷ x ∷ xs) s h g = tt
with_thread-Usable name (id ∷ []) s h g =
    OnOk-require Usable _ _ _
      λ a. OnOk-require Usable (is_thread_id id) _ _ λ b. record { ranges = h; address = g id b }

with_command-Usable :
    (name : CommandName) (rest : List String) (s : ArgumentState)
    → AreInRange s.options
    → OnOk Usable (with_command name rest s)
unfolding with_command
with_command-Usable check_update rest s h =
    OnOk-require Usable _ _ _
      λ a. OnOk-require Usable _ _ _ λ b. record { ranges = h; address = tt }
with_command-Usable list rest s h =
    OnOk-require Usable _ _ _ λ a. record { ranges = h; address = tt }
with_command-Usable inspect rest s h = with_thread-Usable inspect rest s h λ id b. b
with_command-Usable unlock rest s h = with_thread-Usable unlock rest s h λ id b. b

run_of-Usable :
    (words : List String) (s : ArgumentState) → AreInRange s.options → OnOk Usable (run_of words s)
run_of-Usable [] s h = tt
run_of-Usable (word ∷ rest) s h = by_name (command_name word)
  where
    by_name : (name : Option CommandName) → OnOk Usable (named name rest s)
    by_name none = tt
    by_name (some name) = with_command-Usable name rest s h

by_standalone-Usable :
    (alone : Option Standalone) (s : ArgumentState)
    → AreInRange s.options
    → OnOk Usable (by_standalone alone s)
by_standalone-Usable (some alone) s h = OnOk-require Usable _ _ _ λ b. tt
by_standalone-Usable none s h = run_of-Usable s.positional s h

-- Every command line that is accepted as a command has a stability window between 250 and 30000 ms
-- and a timeout between 100 and 60000 ms, given or by default, and names a valid thread id exactly
-- when the command is `inspect` or `unlock`.
pub parse_arguments-IsUsable :
    (show_number : ℕ → String) (resolve : String → String) (home_variable : Option String)
    (default_home : String) (argv : List String) (p : ParsedArguments)
    → parse_arguments show_number resolve (default_options resolve home_variable default_home) argv
      ≡ ok (command p)
    → IsUsable p
unfolding parse_arguments parsed_arguments default_options
parse_arguments-IsUsable show_number resolve home_variable default_home argv p h =
    subst (OnOk Usable) h (
      OnOk-bind StaysInRange Usable _ _
        (read_all-AreInRange show_number resolve argv
          (initial_arguments show_number resolve
            (default_options resolve home_variable default_home))
          (omega arith))
        (λ t g. by_standalone-Usable t.alone t g))
