-- ===== src/Process/Observation.antt =====
-- src/process.ts: the start time and the end of a process, from `ps` and `kill(pid, 0)`.
pub mod Laws
use Prim.Native.Char.{code}
use Prim.Native.String
use codex_unlock.Base.{
  ℕ, zero, suc, String, Bool, true, false, not, ◌&&◌, ◌||◌, Option, none, some, List, [], ◌∷◌, ◌==◌,
  nat_eq, string_eq, option_eq, if◌then◌else◌,
}
use codex_unlock.Types.{Presence, ProcessStartObservation, is_present}
use codex_unlock.Util.{Error, CommandResult, error_text, command_failure_text, ◌<>◌}
use codex_unlock.Io.{Env, M, ◌>>=◌, pure, attempt, signal_zero}
use codex_unlock.Text.{is_space, trim, trim_start, starts_with}
use codex_unlock.Unlock.Compare.{is_some}

-- The language's operations on texts that are left open: `Date.parse` being a number, and a status
-- as a text.
pub record Texts : Type 0 where
  pub is_date : String → Bool
  pub show_status : Option ℕ → String

-- `\S+` at the head of a text, and what follows it.
unfoldable pub first_word : String → String
first_word String.[] = String.[]
first_word (String.◌∷◌ c s) =
    let rest = first_word s in if is_space (code c) then String.[] else String.◌∷◌ c rest

unfoldable pub after_word : String → String
after_word String.[] = String.[]
after_word (String.◌∷◌ c s) =
    let rest = after_word s in if is_space (code c) then String.◌∷◌ c s else rest

-- The line terminators, which `.` does not match.
abbrev pub is_terminator : ℕ → Bool
is_terminator c = c == 10 || c == 13 || c == 8_232 || c == 8_233

unfoldable pub has_terminator : String → Bool
has_terminator String.[] = false
has_terminator (String.◌∷◌ c s) = is_terminator (code c) || has_terminator s

-- `/^(\S+)\s+(\S.*)$/`: both repetitions take all that they can, since what follows each is of the
-- other kind.
unfoldable pub match_state : String → Option (String × String)
match_state value =
    let state = first_word value in
    let rest = trim_start (after_word value) in
    if state == "" || rest == "" || has_terminator rest then none else some (state, rest)

abbrev pub unknown_start : String → ProcessStartObservation
unknown_start error = record {
  status = Presence.unknown;
  start_time = none;
  zombie = false;
  error = some error;
}

abbrev pub absent_start : ProcessStartObservation
absent_start = record { status = Presence.absent; start_time = none; zombie = false; error = none }

abbrev pub is_absent : Presence → Bool
is_absent Presence.absent = true
is_absent _ = false

module _ (texts : Texts) where
  abbrev or_status : String → CommandResult → String → String
  or_status text r command =
      if text == "" then command <> " exited with status " <> texts.show_status r.status else text

  pub command_status_error : CommandResult → String → String
  command_status_error r command = elim (command_failure_text r) [
    | some failure ↦ if failure == "" then or_status (trim r.stderr) r command else failure
    | none ↦ or_status (trim r.stderr) r command
  ]

  -- A result of `ps` without a failure of the call.
  pub start_time_of : CommandResult → String → ProcessStartObservation
  start_time_of r value =
      if r.status == some 1 && value == ""
      then absent_start
      else if not (r.status == some 0)
      then unknown_start (command_status_error r "ps")
      else if value == ""
      then unknown_start "ps returned empty process start time"
      else if texts.is_date value
      then (record {
        status = Presence.present;
        start_time = some value;
        zombie = false;
        error = none;
      })
      else unknown_start "ps returned malformed process start time"

  pub process_start_time_from_command : CommandResult → ProcessStartObservation
  process_start_time_from_command r = elim (command_failure_text r) [
    | some failure ↦
        if failure == "" then start_time_of r (trim r.stdout) else unknown_start failure
    | none ↦ start_time_of r (trim r.stdout)
  ]

  abbrev has_failure : Option String → Bool
  has_failure none = false
  has_failure (some failure) = not (failure == "")

  pub exit_of_match : CommandResult → Option (String × String) → ProcessStartObservation
  exit_of_match r none = unknown_start "ps returned malformed process state output"
  exit_of_match r (some (state, rest)) =
      let observation = process_start_time_from_command (record r { stdout = rest }) in
      if is_present observation.status && starts_with "Z" state
      then record observation { zombie = true }
      else observation

  pub process_exit_observation_from_command : CommandResult → ProcessStartObservation
  process_exit_observation_from_command r =
      let value = trim r.stdout in
      if has_failure (command_failure_text r) || not (r.status == some 0) || value == ""
      then process_start_time_from_command r
      else exit_of_match r (match_state value)

  module _ (env : Env) where
    abbrev refused_absence : ProcessStartObservation → Error → ProcessStartObservation
    refused_absence o e =
        if e.code == "ESRCH"
        then o
        else unknown_start ("could not confirm PID absence: " <> error_text e)

    -- `ps` alone never establishes that a process is absent.
    pub confirm_absence : ℕ → ProcessStartObservation → M ProcessStartObservation
    confirm_absence pid o =
        if not (is_absent o.status)
        then pure o
        else attempt (signal_zero env pid)
            (λ u. pure (unknown_start "ps reported absence while the PID still exists"))
            (λ e. pure (refused_absence o e))

    -- `run_ps` is `runDiagnostic("ps", …)`.
    module _ (run_ps : List String → M CommandResult) where
      pub process_start_time : ℕ → M ProcessStartObservation
      process_start_time pid = do
        r ← run_ps ("-ww" ∷ "-p" ∷ env.show_number pid ∷ "-o" ∷ "lstart=" ∷ [])
        confirm_absence pid (process_start_time_from_command r)

      pub process_exit_observation : ℕ → M ProcessStartObservation
      process_exit_observation pid = do
        r ← run_ps ("-ww" ∷ "-p" ∷ env.show_number pid ∷ "-o" ∷ "stat=,lstart=" ∷ [])
        confirm_absence pid (process_exit_observation_from_command r)
