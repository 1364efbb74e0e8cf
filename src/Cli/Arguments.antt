-- ===== src/Cli/Arguments.antt =====
-- src/cli.ts: the parsing of the command line.
pub mod Laws
pub mod Requested
use codex_unlock.Base.{
  ℕ, String, Bool, true, false, not, ◌&&◌, ◌||◌, Option, none, some, List, [], ◌∷◌, ◌++◌, ◌==◌,
  string_eq, ltb, leb, if◌then◌else◌,
}
use codex_unlock.Util.{◌<>◌}
use codex_unlock.Types.{CommandName, list, inspect, unlock, check_update, DoctorOptions}
use codex_unlock.Io.{Res, ok, throw, new_error}
use codex_unlock.Text.{starts_with_dash}
use codex_unlock.Text.Numbers.{parse_digits, max_safe_integer}
use codex_unlock.Options.{is_thread_id}

pub record ParsedArguments : Type 0 where
  pub command : CommandName
  pub thread_id : Option String
  pub json : Bool
  pub no_update_notice : Bool
  pub options : DoctorOptions

pub data Standalone : Type 0 where
  help version : Standalone

pub data Parsed : Type 0 where
  standalone : Standalone → Parsed
  command : ParsedArguments → Parsed

-- VALUE_OPTIONS
pub data ValueOption : Type 0 where
  codex_home stability timeout : ValueOption

abbrev pub value_option : String → Option ValueOption
value_option s =
    if s == "--codex-home"
    then some codex_home
    else if s == "--stability-ms"
    then some stability
    else (if s == "--timeout-ms" then some timeout else none)

abbrev pub command_name : String → Option CommandName
command_name s =
    if s == "list"
    then some list
    else if s == "inspect"
    then some inspect
    else if s == "unlock"
    then some unlock
    else (if s == "check-update" then some check_update else none)

-- What a word says that is not the value of an option: the command, or nothing yet.
abbrev pub request_of :
    Option ValueOption
    → Bool
    → String
    → Option CommandName
    → Option CommandName
    → Option CommandName
request_of (some option) is_flag argument after_flag after_value = after_value
request_of none true argument after_flag after_value = after_flag
request_of none false argument after_flag after_value = command_name argument

unfoldable pub requested_command : List String → Option CommandName
requested_command [] = none
requested_command (argument ∷ []) =
    request_of (value_option argument) (starts_with_dash argument) argument none none
requested_command (argument ∷ value ∷ rest) =
    request_of (value_option argument) (starts_with_dash argument) argument
      (requested_command (value ∷ rest)) (requested_command rest)

-- None where the value is absent.
abbrev pub option_value : Option String → Option String
option_value none = none
option_value (some value) = if starts_with_dash value then none else some value

-- How a test answers with an error.
unfoldable pub require {ℓ} : {A : Type ℓ} → Bool → String → Res A → Res A
require true message r = r
require false message r = throw (new_error message)

abbrev between_text : String → String → String → String
between_text name low high = name <> " must be between " <> low <> " and " <> high

module _ (show_number : ℕ → String) where
  unfoldable pub in_range : String → Option ℕ → ℕ → ℕ → Res ℕ
  in_range name none low high = throw (new_error (name <> " requires an integer"))
  in_range name (some parsed) low high =
      if not (leb parsed max_safe_integer) || ltb parsed low || ltb high parsed
      then throw (new_error (between_text name (show_number low) (show_number high)))
      else ok parsed

  abbrev pub digits_of : Option String → Option ℕ
  digits_of none = none
  digits_of (some value) = parse_digits value

  unfoldable pub integer_option : String → Option String → ℕ → ℕ → Res ℕ
  unfolding in_range
  integer_option name value low high = in_range name (digits_of value) low high

-- The variables of the loop.
pub record ArgumentState : Type 0 where
  pub options : DoctorOptions
  pub positional : List String
  pub json : Bool
  pub no_update_notice : Bool
  pub doctor_option_seen : Bool
  pub alone : Option Standalone

-- `standalone ??= value`
abbrev pub or_else : Option Standalone → Standalone → Option Standalone
or_else none v = some v
or_else (some old) v = some old

abbrev pub map_res {ℓ κ} : {A : Type ℓ} {B : Type κ} → (A → B) → Res A → Res B
map_res f (ok a) = ok (f a)
map_res f (throw e) = throw e

abbrev pub bind_res {ℓ κ} : {A : Type ℓ} {B : Type κ} → Res A → (A → Res B) → Res B
bind_res (ok a) f = f a
bind_res (throw e) f = throw e

-- What an argument is that takes no value.
pub data Flag : Type 0 where
  show_help show_version json_output no_notice unknown_option operand : Flag

abbrev pub flag_of : String → Flag
flag_of argument =
    if argument == "--help" || argument == "-h"
    then show_help
    else if argument == "--version" || argument == "-v"
    then show_version
    else if argument == "--json"
    then json_output
    else if argument == "--no-update-notice"
    then no_notice
    else (if starts_with_dash argument then unknown_option else operand)

abbrev pub read_flag : Flag → String → ArgumentState → Res ArgumentState
read_flag show_help argument s = ok (record s { alone = or_else s.alone help })
read_flag show_version argument s = ok (record s { alone = or_else s.alone version })
read_flag json_output argument s = ok (record s { json = true })
read_flag no_notice argument s = ok (record s { no_update_notice = true })
read_flag unknown_option argument s = throw (new_error ("unknown option: " <> argument))
read_flag operand argument s = ok (record s { positional = s.positional ++ argument ∷ [] })

module _ (show_number : ℕ → String) (resolve : String → String) where
  abbrev pub home_path : Option String → Res String
  home_path none = throw (new_error "--codex-home requires a path")
  home_path (some value) =
      if value == "" then throw (new_error "--codex-home requires a path") else ok (resolve value)

  abbrev pub set_home : ArgumentState → String → ArgumentState
  set_home s home = record s {
    doctor_option_seen = true;
    options = record s.options { codex_home = home };
  }

  abbrev pub set_stability : ArgumentState → ℕ → ArgumentState
  set_stability s n = record s {
    doctor_option_seen = true;
    options = record s.options { stability_ms = n };
  }

  abbrev pub set_timeout : ArgumentState → ℕ → ArgumentState
  set_timeout s n = record s {
    doctor_option_seen = true;
    options = record s.options { termination_timeout_ms = n };
  }

  -- An option that takes the next argument.
  abbrev pub read_value_option :
      ValueOption → String → Option String → ArgumentState → Res ArgumentState
  read_value_option codex_home argument value s =
      map_res (set_home s) (home_path (option_value value))
  read_value_option stability argument value s =
      map_res (set_stability s) (integer_option show_number argument value 250 30_000)
  read_value_option timeout argument value s =
      map_res (set_timeout s) (integer_option show_number argument value 100 60_000)

  abbrev pub read_last : Option ValueOption → String → ArgumentState → Res ArgumentState
  read_last none argument s = read_flag (flag_of argument) argument s
  read_last (some option) argument s = read_value_option option argument none s

  -- The third argument is how the loop goes on after the argument, the fourth how after its value.
  abbrev pub read_next :
      Option ValueOption
      → String
      → String
      → ArgumentState
      → (ArgumentState → Res ArgumentState)
      → (ArgumentState → Res ArgumentState)
      → Res ArgumentState
  read_next none argument value s go_on skip =
      bind_res (read_flag (flag_of argument) argument s) go_on
  read_next (some option) argument value s go_on skip =
      bind_res (read_value_option option argument (some value) s) skip

  unfoldable pub read_all : List String → ArgumentState → Res ArgumentState
  read_all [] s = ok s
  read_all (argument ∷ []) s = read_last (value_option argument) argument s
  read_all (argument ∷ value ∷ rest) s =
      read_next (value_option argument) argument value s (λ t. read_all (value ∷ rest) t)
        (λ t. read_all rest t)

  abbrev pub initial_arguments : DoctorOptions → ArgumentState
  initial_arguments options = record {
    options = options;
    positional = [];
    json = false;
    no_update_notice = false;
    doctor_option_seen = false;
    alone = none;
  }

abbrev standalone_text : Standalone → String
standalone_text help = "help"
standalone_text version = "version"

abbrev pub is_nil {ℓ} : {A : Type ℓ} → List A → Bool
is_nil [] = true
is_nil (x ∷ xs) = false

abbrev pub parsed_of : CommandName → Option String → ArgumentState → Res Parsed
parsed_of name id s = ok (
    command (record {
      command = name;
      thread_id = id;
      json = s.json;
      no_update_notice = s.no_update_notice;
      options = s.options;
    }))

abbrev pub name_text : CommandName → String
name_text list = "list"
name_text inspect = "inspect"
name_text unlock = "unlock"
name_text check_update = "check-update"

unfoldable pub with_thread : CommandName → List String → ArgumentState → Res Parsed
with_thread name (id ∷ []) s =
    require (not (id == "")) (name_text name <> " requires exactly one thread id")
      (require (is_thread_id id) ("invalid Codex thread id: " <> id) (parsed_of name (some id) s))
with_thread name _ s = throw (new_error (name_text name <> " requires exactly one thread id"))

unfoldable pub with_command : CommandName → List String → ArgumentState → Res Parsed
unfolding with_thread
with_command check_update rest s =
    require (is_nil rest) "check-update does not accept a thread id" (
      require (not s.doctor_option_seen) "check-update does not accept Codex lock options"
        (parsed_of check_update none s))
with_command list rest s =
    require (is_nil rest) "list does not accept a thread id" (parsed_of list none s)
with_command inspect rest s = with_thread inspect rest s
with_command unlock rest s = with_thread unlock rest s

abbrev no_command : Res Parsed
no_command = throw (new_error "expected command: list, inspect, unlock, or check-update")

abbrev pub named : Option CommandName → List String → ArgumentState → Res Parsed
named none rest s = no_command
named (some name) rest s = with_command name rest s

abbrev pub run_of : List String → ArgumentState → Res Parsed
run_of [] s = no_command
run_of (name ∷ rest) s = named (command_name name) rest s

abbrev pub by_standalone : Option Standalone → ArgumentState → Res Parsed
by_standalone (some alone) s =
    require (not s.json) ("--" <> standalone_text alone <> " cannot be combined with --json")
      (ok (standalone alone))
by_standalone none s = run_of s.positional s

-- After the loop.
unfoldable pub parsed_arguments : ArgumentState → Res Parsed
parsed_arguments s = by_standalone s.alone s

module _ (show_number : ℕ → String) (resolve : String → String) (defaults : DoctorOptions) where
  unfoldable pub parse_arguments : List String → Res Parsed
  parse_arguments argv =
      bind_res (read_all show_number resolve argv (initial_arguments show_number resolve defaults))
        parsed_arguments
