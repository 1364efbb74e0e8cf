-- ===== src/Process/Arguments.antt =====
-- src/process.ts: which Codex command lines are understood, and the reconciliation of the
-- arguments that ps prints with those of the kernel.
pub mod Grammar
pub mod Laws
use Prim.Native.String
use text.Mathlib.Text.{starts_with}
use codex_unlock.Base.{
  ℕ, ◌+◌, String, Bool, true, false, not, ◌&&◌, ◌||◌, Option, none, some, List, [], ◌∷◌, ◌==◌,
  nat_eq, string_eq, ltb, if◌then◌else◌, includes, leb, length, drop,
}
use codex_unlock.Util.{◌<>◌}
use codex_unlock.Text.{
  points, trim, has_space, starts_with_dash, before_equals, after_equals, first_two, after_two,
  join_spaces, has_word, has_option, is_digit,
}
use Grammar.{
  Mode, interactive, exec, resume, fork, root_value_options, root_flags, shared_modes, other_modes,
  exec_value_options, exec_flags, resume_flags, cyber_option, cyber_values, service_words,
  remote_options,
}

-- `SHARED_SERVICE_PATTERN.test`
unfoldable pub is_service : String → Bool
is_service text = has_word false service_words (points text)

unfoldable pub flattened_shared_service : String → Bool
flattened_shared_service text = is_service text || has_option true remote_options (points text)

-- `{ shared: true }`, `{ shared: false }` and `{ shared: false, error }`.
pub data Verdict : Type 0 where
  shared accepted : Verdict
  refused : String → Verdict

pub record ModeState : Type 0 where
  pub mode : Mode
  pub mode_chosen : Bool
  pub literal_operands : Bool
  pub operands : ℕ
  pub cyber_program_seen : Bool

-- What one argument leads to: an answer, the next argument, or the value of an option.
pub data Step : Type 0 where
  stop : Verdict → Step
  next : ModeState → Step
  value_of : String → ModeState → Step

abbrev pub initial : ModeState
initial = record {
  mode = interactive;
  mode_chosen = false;
  literal_operands = false;
  operands = 0;
  cyber_program_seen = false;
}

abbrev pub is_exec : Mode → Bool
is_exec exec = true
is_exec _ = false

abbrev pub is_resumed : Mode → Bool
is_resumed resume = true
is_resumed fork = true
is_resumed _ = false

abbrev pub is_long : String → Bool
is_long token = starts_with token "--"

abbrev pub option_of : String → String
option_of token = if is_long token then before_equals token else first_two token

-- The value in the same argument: after "=", or after a short option's letter.
abbrev pub attached : String → Option String
attached token =
    if is_long token
    then after_equals token
    else (if after_two token == "" then none else some (after_two token))

abbrev pub is_remote : String → Bool
is_remote option = option == "--remote" || option == "--remote-auth-token-env"

abbrev pub takes_value : Mode → String → Bool
takes_value mode option =
    includes root_value_options option || (is_exec mode && includes exec_value_options option)

abbrev pub is_flag : Mode → String → Bool
is_flag mode option =
    includes root_flags option
    || (is_exec mode && includes exec_flags option)
    || (is_resumed mode && includes resume_flags option)

-- `!value || value.startsWith("-")` is refused, and so is a wrong or repeated program.
unfoldable pub take_value : String → String → ModeState → Step
take_value option value s =
    if value == "" || starts_with_dash value
    then stop (refused "missing option value")
    else if option == cyber_option
    then (if s.cyber_program_seen || not (includes cyber_values value)
        then stop (refused "unsupported or repeated option value")
        else next (record s { cyber_program_seen = true }))
    else next s

abbrev pub option_value : String → Option String → ModeState → Step
option_value option none s = value_of option s
option_value option (some value) s = take_value option value s

unfoldable pub read_option : String → ModeState → Step
read_option token s =
    if is_remote (option_of token)
    then stop shared
    else if takes_value s.mode (option_of token)
    then option_value (option_of token) (attached token) s
    else if token == option_of token && is_flag s.mode (option_of token)
    then next s
    else stop (refused "unsupported option or option form")

abbrev pub chosen_mode : String → Option Mode
chosen_mode token =
    if token == "exec" || token == "e"
    then some exec
    else (if token == "resume" then some resume else (if token == "fork" then some fork else none))

abbrev pub maximum_operands : Mode → ℕ
maximum_operands mode = if is_resumed mode then 2 else 1

unfoldable pub read_operand : String → ModeState → Step
read_operand token s =
    if is_exec s.mode
      && s.operands == 0
      && includes ("resume" ∷ "fork" ∷ "review" ∷ "help" ∷ []) token
    then stop (refused "unsupported nested execution mode")
    else if ltb (maximum_operands s.mode) (s.operands + 1)
    then stop (refused "ambiguous positional arguments")
    else next (record s { operands = s.operands + 1 })

abbrev pub read_mode : String → ModeState → Option Mode → Step
read_mode token s none = read_operand token s
read_mode token s (some mode) = next (record s { mode = mode })

-- The first operand chooses the mode.
unfoldable pub read_first : String → ModeState → Step
read_first token s =
    let chosen = record s { mode_chosen = true } in
    if includes shared_modes token
    then stop shared
    else if includes other_modes token
    then stop (refused "unsupported execution mode")
    else if not (has_space token) && is_service token
    then stop (refused "unverified service-like execution mode")
    else (if s.literal_operands
        then read_operand token chosen
        else read_mode token chosen (chosen_mode token))

abbrev pub is_option : String → ModeState → Bool
is_option token s = not s.literal_operands && starts_with_dash token && not (token == "-")

unfoldable pub read_token : String → ModeState → Step
read_token token s =
    if not s.literal_operands && token == "--"
    then next (record s { literal_operands = true })
    else if is_option token s
    then read_option token s
    else (if s.mode_chosen then read_operand token s else read_first token s)

unfoldable mutual
  -- The loop over the arguments, in two states: before an argument, and before an option's value.
  pub read_arguments : List String → ModeState → Verdict
  read_arguments [] s = accepted
  read_arguments (token ∷ rest) s = elim (read_token token s) [
    | stop verdict ↦ verdict
    | next s' ↦ read_arguments rest s'
    | value_of option s' ↦ read_value rest option s'
  ]

  pub read_value : List String → String → ModeState → Verdict
  read_value [] option s = refused "missing option value"
  read_value (value ∷ rest) option s = elim (take_value option value s) [
    | stop verdict ↦ verdict
    | next s' ↦ read_arguments rest s'
    | value_of other s' ↦ read_value rest other s'
  ]

-- `{ status: "present", argv }` or `{ status: "unknown", error }`
pub data CommandLineObservation : Type 0 where
  present : List String → CommandLineObservation
  unknown : String → CommandLineObservation

pub record ArgumentEvidence : Type 0 where
  pub arguments : Option String
  pub is_shared_service : Bool
  pub error : Option String

abbrev pub unverified : String → Bool → ArgumentEvidence
unverified error service = record {
  arguments = none;
  is_shared_service = service;
  error = some error;
}

abbrev pub or_empty : Option String → String
or_empty none = ""
or_empty (some s) = s

abbrev pub kernel_text : CommandLineObservation → String
kernel_text (present argv) = join_spaces argv
kernel_text (unknown error) = ""

-- What stands before the arguments: codex or codex-*, or node with a script codex. `base_of` is the
-- path module's basename, and `lower` toLowerCase.
module _ (base_of : String → String) (lower : String → String) where
  abbrev variant_rest : List ℕ → Bool
  variant_rest [] = true
  variant_rest (c ∷ cs) =
      (is_digit c || (leb 97 c && leb c 122) || c == 95 || c == 45) && variant_rest cs

  -- `/^codex-[a-z0-9_-]+$/`
  abbrev variant : String → Bool
  variant executable =
      starts_with executable "codex-"
      && ltb 6 (length (points executable))
      && variant_rest (drop 6 (points executable))

  abbrev named : String → Bool
  named executable = executable == "codex" || variant executable

  abbrev is_node : String → Bool
  is_node executable = executable == "node" || executable == "nodejs"

  -- The arguments after the executable, or none where it is not supported.
  unfoldable pub codex_arguments : List String → Option (List String)
  codex_arguments [] = none
  codex_arguments (program ∷ rest) =
      if named (lower (base_of program)) then some rest else script (lower (base_of program)) rest
    where
      script : String → List String → Option (List String)
      script executable [] = none
      script executable (path ∷ rest) =
          if is_node executable && base_of path == "codex" then some rest else none

  abbrev pub program_of : List String → String
  program_of [] = ""
  program_of (program ∷ rest) = program

  abbrev pub classify_from : List String → Option (List String) → Verdict
  classify_from argv none = refused "unsupported executable argv"
  classify_from argv (some rest) =
      if is_service (base_of (program_of argv)) then shared else read_arguments rest initial

  unfoldable pub classify_codex_mode : List String → Verdict
  classify_codex_mode argv = classify_from argv (codex_arguments argv)

  abbrev pub verdict_evidence : String → Bool → Verdict → ArgumentEvidence
  verdict_evidence ps service shared = record {
    arguments = some ps;
    is_shared_service = true;
    error = none;
  }
  verdict_evidence ps service accepted = record {
    arguments = some ps;
    is_shared_service = false;
    error = none;
  }
  verdict_evidence ps service (refused error) =
      unverified ("arguments_unverified:" <> error) service

  abbrev pub reconcile_kernel : String → List String → Bool → ArgumentEvidence
  reconcile_kernel ps argv service =
      let kernel = join_spaces argv in
      if starts_with kernel ps && not (kernel == ps)
      then unverified "arguments_truncated:ps output is shorter than the kernel argv" service
      else if not (trim kernel == ps)
      then unverified "arguments_unverified:ps output disagrees with the kernel argv" service
      else verdict_evidence ps service (classify_codex_mode argv)

  unfoldable pub reconcile_arguments :
      Option String → Option CommandLineObservation → ArgumentEvidence
  reconcile_arguments ps none = record {
    arguments = ps;
    is_shared_service = flattened_shared_service (or_empty ps);
    error = none;
  }
  reconcile_arguments none (some line) = record {
    arguments = none;
    is_shared_service = flattened_shared_service "" || flattened_shared_service (kernel_text line);
    error = none;
  }
  reconcile_arguments (some ps) (some (unknown error)) =
      unverified ("arguments_unverified:" <> error)
        (flattened_shared_service ps || flattened_shared_service "")
  reconcile_arguments (some ps) (some (present argv)) =
      reconcile_kernel ps argv
        (flattened_shared_service ps || flattened_shared_service (join_spaces argv))
