-- ===== src/Cli/Arguments/Requested.antt =====
-- The command that an error is reported under is the one that would have run.
use codex_unlock.Base.{
  ℕ, ◌≡◌, refl, sym, subst, String, Bool, true, false, ◌||◌, Option, none, some, List, [], ◌∷◌,
  ◌++◌, ◌==◌, string_eq, inl, inr, or-eq-true, eq_of_test, if◌then◌else◌,
}
use codex_unlock.Types.{CommandName, list, inspect, unlock, check_update, DoctorOptions}
use codex_unlock.Io.{Res, ok}
use codex_unlock.Text.{starts_with_dash}
use codex_unlock.Cli.Arguments.{
  ParsedArguments, Parsed, standalone, command, Standalone, ArgumentState, ValueOption, codex_home,
  stability, timeout, value_option, command_name, Flag, flag_of, show_help, show_version,
  json_output, no_notice, unknown_option, operand, request_of, requested_command, read_flag,
  read_value_option, read_last, read_next, read_all, initial_arguments, with_thread, with_command,
  parsed_of, parsed_arguments, by_standalone, parse_arguments, set_home, set_stability, set_timeout,
  named, run_of,
}
use codex_unlock.Cli.Arguments.Laws.{OnOk, OnOk-bind, OnOk-map, OnOk-require, OnOk-any}

-- An operand has no dash in front, everything else that is not a value has one.
abbrev IsDashed : Flag → String → Type 0
IsDashed operand argument = starts_with_dash argument ≡ false
IsDashed _ argument = starts_with_dash argument ≡ true

dashed_literal :
    (argument literal : String)
    → starts_with_dash literal ≡ true
    → (argument == literal) ≡ true
    → starts_with_dash argument ≡ true
dashed_literal argument literal h e =
    subst (λ s. starts_with_dash s ≡ true) (sym (eq_of_test argument literal e)) h

either_literal :
    (argument left right : String)
    → starts_with_dash left ≡ true
    → starts_with_dash right ≡ true
    → (argument == left || argument == right) ≡ true
    → starts_with_dash argument ≡ true
either_literal argument left right h g e =
    elim (or-eq-true (argument == left) (argument == right) e) [
      | inl p ↦ dashed_literal argument left h p
      | inr p ↦ dashed_literal argument right g p
    ]

tested-IsDashed :
    (a b c d e : Bool) (argument : String)
    → (a ≡ true → starts_with_dash argument ≡ true)
    → (b ≡ true → starts_with_dash argument ≡ true)
    → (c ≡ true → starts_with_dash argument ≡ true)
    → (d ≡ true → starts_with_dash argument ≡ true)
    → e ≡ starts_with_dash argument
    → IsDashed
        (if a
          then show_help
          else if b
          then show_version
          else if c
          then json_output
          else if d
          then no_notice
          else (if e then unknown_option else operand))
        argument
tested-IsDashed true b c d e argument f g h i j = f refl
tested-IsDashed false true c d e argument f g h i j = g refl
tested-IsDashed false false true d e argument f g h i j = h refl
tested-IsDashed false false false true e argument f g h i j = i refl
tested-IsDashed false false false false true argument f g h i j = sym j
tested-IsDashed false false false false false argument f g h i j = sym j

flag_of-IsDashed : (argument : String) → IsDashed (flag_of argument) argument
flag_of-IsDashed argument =
    tested-IsDashed (argument == "--help" || argument == "-h")
      (argument == "--version" || argument == "-v") (argument == "--json")
      (argument == "--no-update-notice") (starts_with_dash argument) argument
      (either_literal argument "--help" "-h" refl refl)
      (either_literal argument "--version" "-v" refl refl) (dashed_literal argument "--json" refl)
      (dashed_literal argument "--no-update-notice" refl) refl

-- The command of the operands, and otherwise what is still to come.
abbrev words_command : List String → Option CommandName → Option CommandName
words_command [] later = later
words_command (word ∷ words) later = command_name word

-- Nothing after the loop changes the command: `later` is what the remaining arguments request.
abbrev Requests : Option CommandName → ArgumentState → Type 0
Requests request t = words_command t.positional none ≡ request

abbrev Pending : Option CommandName → Option CommandName → ArgumentState → Type 0
Pending request later t = words_command t.positional later ≡ request

words_command-append :
    (words : List String) (word : String) (later : Option CommandName)
    → words_command (words ++ word ∷ []) later ≡ words_command words (command_name word)
words_command-append [] word later = refl
words_command-append (w ∷ ws) word later = refl

-- After a flag or an operand, with what the rest of the line requests.
read_flag-Pending :
    (flag : Flag) (argument : String) (s : ArgumentState) (later after : Option CommandName)
    → IsDashed flag argument
    → OnOk
        (Pending
          (words_command s.positional
            (request_of none (starts_with_dash argument) argument later after))
          later)
        (read_flag flag argument s)
read_flag-Pending show_help argument s later after h = rw h refl
read_flag-Pending show_version argument s later after h = rw h refl
read_flag-Pending json_output argument s later after h = rw h refl
read_flag-Pending no_notice argument s later after h = rw h refl
read_flag-Pending unknown_option argument s later after h = tt
read_flag-Pending operand argument s later after h =
    rw h (words_command-append s.positional argument later)

module _ (show_number : ℕ → String) (resolve : String → String) where
  read_value_option-Pending :
      (option : ValueOption) (argument : String) (value : Option String) (s : ArgumentState)
      (later : Option CommandName)
      → OnOk
          (Pending (words_command s.positional later) later)
          (read_value_option show_number resolve option argument value s)
  read_value_option-Pending codex_home argument value s later =
      OnOk-map (λ (a : String). Unit {0}) (Pending _ later) _ (set_home show_number resolve s)
        (OnOk-any _) (λ a u. refl)
  read_value_option-Pending stability argument value s later =
      OnOk-map (λ (a : ℕ). Unit {0}) (Pending _ later) _ (set_stability show_number resolve s)
        (OnOk-any _) (λ a u. refl)
  read_value_option-Pending timeout argument value s later =
      OnOk-map (λ (a : ℕ). Unit {0}) (Pending _ later) _ (set_timeout show_number resolve s)
        (OnOk-any _) (λ a u. refl)

  read_last-Requests :
      (o : Option ValueOption) (argument : String) (s : ArgumentState)
      → OnOk
          (Requests (
            words_command s.positional
              (request_of o (starts_with_dash argument) argument none none)))
          (read_last show_number resolve o argument s)
  read_last-Requests none argument s =
      read_flag-Pending (flag_of argument) argument s none none (flag_of-IsDashed argument)
  read_last-Requests (some option) argument s =
      read_value_option-Pending option argument none s none

  read_next-Requests :
      (o : Option ValueOption) (argument value : String) (s : ArgumentState)
      (go_on skip : ArgumentState → Res ArgumentState) (after_flag after_value : Option CommandName)
      → ((t : ArgumentState) → OnOk (Requests (words_command t.positional after_flag)) (go_on t))
      → ((t : ArgumentState) → OnOk (Requests (words_command t.positional after_value)) (skip t))
      → OnOk
          (Requests (
            words_command s.positional
              (request_of o (starts_with_dash argument) argument after_flag after_value)))
          (read_next show_number resolve o argument value s go_on skip)
  read_next-Requests none argument value s go_on skip after_flag after_value f g =
      OnOk-bind (Pending _ after_flag) (Requests _) _ go_on
        (read_flag-Pending (flag_of argument) argument s after_flag after_value
          (flag_of-IsDashed argument))
        λ t p. subst (λ c. OnOk (Requests c) (go_on t)) p (f t)
  read_next-Requests (some option) argument value s go_on skip after_flag after_value f g =
      OnOk-bind (Pending _ after_value) (Requests _) _ skip
        (read_value_option-Pending option argument (some value) s after_value)
        λ t p. subst (λ c. OnOk (Requests c) (skip t)) p (g t)

  read_all-Requests :
      (argv : List String) (s : ArgumentState)
      → OnOk
          (Requests (words_command s.positional (requested_command argv)))
          (read_all show_number resolve argv s)
  unfolding read_all requested_command
  read_all-Requests [] s = refl
  read_all-Requests (argument ∷ []) s = read_last-Requests (value_option argument) argument s
  read_all-Requests (argument ∷ value ∷ rest) s =
      read_next-Requests (value_option argument) argument value s _ _ _ _
        (λ t. read_all-Requests (value ∷ rest) t) (λ t. read_all-Requests rest t)

-- A command that is run is the one of the operands.
abbrev Runs : Option CommandName → Parsed → Type 0
Runs request (standalone s) = Unit {0}
Runs request (command p) = some p.command ≡ request

with_thread-Runs :
    (name : CommandName) (rest : List String) (s : ArgumentState)
    → OnOk (Runs (some name)) (with_thread name rest s)
unfolding with_thread
with_thread-Runs name [] s = tt
with_thread-Runs name (id ∷ x ∷ xs) s = tt
with_thread-Runs name (id ∷ []) s =
    OnOk-require (Runs (some name)) _ _ _
      λ a. OnOk-require (Runs (some name)) _ _ (parsed_of name (some id) s) λ b. refl

with_command-Runs :
    (name : CommandName) (rest : List String) (s : ArgumentState)
    → OnOk (Runs (some name)) (with_command name rest s)
unfolding with_command
with_command-Runs check_update rest s =
    OnOk-require (Runs (some check_update)) _ _ _
      λ a. OnOk-require (Runs (some check_update)) _ _ (parsed_of check_update none s) λ b. refl
with_command-Runs list rest s =
    OnOk-require (Runs (some list)) _ _ (parsed_of list none s) λ a. refl
with_command-Runs inspect rest s = with_thread-Runs inspect rest s
with_command-Runs unlock rest s = with_thread-Runs unlock rest s

run_of-Runs :
    (words : List String) (s : ArgumentState)
    → OnOk (Runs (words_command words none)) (run_of words s)
run_of-Runs [] s = tt
run_of-Runs (word ∷ rest) s = by_name (command_name word)
  where
    by_name : (name : Option CommandName) → OnOk (Runs name) (named name rest s)
    by_name none = tt
    by_name (some name) = with_command-Runs name rest s

by_standalone-Runs :
    (alone : Option Standalone) (s : ArgumentState)
    → OnOk (Runs (words_command s.positional none)) (by_standalone alone s)
by_standalone-Runs (some alone) s = OnOk-require (Runs _) _ _ (ok (standalone alone)) λ b. tt
by_standalone-Runs none s = run_of-Runs s.positional s

pub requested_command-parse_arguments :
    (show_number : ℕ → String) (resolve : String → String) (defaults : DoctorOptions)
    (argv : List String) (p : ParsedArguments)
    → parse_arguments show_number resolve defaults argv ≡ ok (command p)
    → requested_command argv ≡ some p.command
unfolding parse_arguments parsed_arguments
requested_command-parse_arguments show_number resolve defaults argv p h = sym (
    subst (OnOk (Runs (requested_command argv))) h (
      OnOk-bind (Requests (requested_command argv)) (Runs (requested_command argv)) _ _
        (read_all-Requests show_number resolve argv
          (initial_arguments show_number resolve defaults))
        (λ t g. subst (λ c. OnOk (Runs c) (parsed_arguments t)) g (by_standalone-Runs t.alone t))))
