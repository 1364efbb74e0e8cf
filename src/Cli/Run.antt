-- ===== src/Cli/Run.antt =====
-- src/cli.ts: the run of one command and its exit code. What the commands call in other parts is
-- the record `Program`; the texts that are printed are left as the values they show.
pub mod Exit
use codex_unlock.Base.{
  ℕ, String, Bool, true, false, Option, none, some, List, [], ◌∷◌, ◌==◌, string_eq, includes,
  if◌then◌else◌,
}
use codex_unlock.Util.{Error, error_text, ◌<>◌}
use codex_unlock.Types.{
  CommandName, list, inspect, unlock, check_update, DoctorOptions, InspectionResult, UnlockResult,
  UnlockOutcome, unlocked, not_locked, refused, termination_failed, verification_failed,
}
use codex_unlock.Io.{Env, Res, ok, throw, M, ◌>>=◌, ◌>>◌, pure, try_catch, throw_error, new_error}
use codex_unlock.Options.{validate_thread_id}
use codex_unlock.Update.Advisory.{UpdateCacheRecord, ClientUpdate, PreparedUpdateAdvisory}
use codex_unlock.Unlock.{unlock_thread}
use codex_unlock.Unlock.Observers.{Services}
use codex_unlock.Cli.Arguments.{
  ParsedArguments, Parsed, standalone, command, Standalone, help, version, requested_command,
  parse_arguments,
}

pub data CliErrorCode : Type 0 where
  invalid_usage command_failed : CliErrorCode

pub record CliErrorResult : Type 0 where
  pub command : Option CommandName
  pub error : String
  pub error_code : CliErrorCode
  pub exit_code : ℕ
  pub retryable : Bool
  pub suggested_action : Option String

abbrev suggestion : CliErrorCode → Option String
suggestion invalid_usage = some "Run codex-unlock --help for usage."
suggestion command_failed = none

pub cli_error : Option CommandName → CliErrorCode → ℕ → String → CliErrorResult
cli_error name code exit message = record {
  command = name;
  error = message;
  error_code = code;
  exit_code = exit;
  retryable = false;
  suggested_action = suggestion code;
}

pub record ListResult : Type 0 where
  pub codex_home : String
  pub sessions : List InspectionResult

pub record CheckUpdateResult : Type 0 where
  pub current_version : String
  pub latest_version : String
  pub checked_at : String
  pub update_available : Bool
  pub update_command : String
  pub cache_updated : Bool
  pub cache_warning : Option String

-- `record`, `cacheUpdated` and `cacheWarning`, or the reason of an error.
pub data CheckForUpdateResult : Type 0 where
  checked : UpdateCacheRecord → Bool → Option String → CheckForUpdateResult
  failed : String → CheckForUpdateResult

pub data Document : Type 0 where
  listing : ListResult → Document
  inspection : InspectionResult → Document
  unlocking : UnlockResult → Document
  update : CheckUpdateResult → Document
  failure : CliErrorResult → Document

-- A JSON document with what is attached to it, a report for people, a line on the error output.
pub data Output : Type 0 where
  help_text : Output
  version_text : String → Output
  json : Document → Option ClientUpdate → Output
  report : Document → Output
  complaint : String → Output
  usage_hint : Output

-- `is_older` is `compareStableVersions(current, latest) < 0`.
pub record Program : Type 0 where
  pub print : Output → M (Unit {0})
  pub package_version : M String
  pub prepare_automatic_advisory : Bool → Bool → M PreparedUpdateAdvisory
  pub finish_automatic_advisory : PreparedUpdateAdvisory → M (Unit {0})
  pub check_for_update : M CheckForUpdateResult
  pub is_older : String → String → Bool
  pub update_command : M String
  pub list_threads : DoctorOptions → M ListResult
  pub services : DoctorOptions → Services
  pub defaults : DoctorOptions
  pub resolve : String → String
  pub lower : String → String

abbrev pub unlock_exit_code : UnlockOutcome → ℕ
unlock_exit_code unlocked = 0
unlock_exit_code not_locked = 0
unlock_exit_code refused = 2
unlock_exit_code termination_failed = 3
unlock_exit_code verification_failed = 3

abbrev pub from_res : Res String → M String
from_res (ok id) = pure id
from_res (throw e) = throw_error e

-- The thread id that `inspect` and `unlock` have.
abbrev pub id_of : Option String → String
id_of none = "undefined"
id_of (some id) = id

module _ (env : Env) (program : Program) where
  show_document : Bool → Document → Option ClientUpdate → M (Unit {0})
  show_document as_json document client_update =
      program.print (if as_json then json document client_update else report document)

  -- An error of a command, as JSON or for people.
  show_failure : Bool → CommandName → Option ClientUpdate → Error → M (Unit {0})
  show_failure as_json name client_update e = program.print (
      if as_json
      then json (failure (cli_error (some name) command_failed 3 (error_text e))) client_update
      else complaint (error_text e))

  warn_cache : Option String → M (Unit {0})
  warn_cache none = pure tt
  warn_cache (some warning) = program.print (complaint warning)

  print_update : Bool → CheckUpdateResult → M ℕ
  print_update true r = program.print (json (update r) none) >> pure 0
  print_update false r = program.print (report (update r)) >> warn_cache r.cache_warning >> pure 0

  abbrev update_result :
      UpdateCacheRecord → Bool → Option String → String → String → CheckUpdateResult
  update_result r updated warning current instruction = record {
    current_version = current;
    latest_version = r.latest;
    checked_at = r.checked_at;
    update_available = program.is_older current r.latest;
    update_command = instruction;
    cache_updated = updated;
    cache_warning = warning;
  }

  report_update : Bool → CheckForUpdateResult → M ℕ
  report_update as_json (failed reason) =
      throw_error (new_error ("update check failed: " <> reason))
  report_update as_json (checked r updated warning) = do
    current ← program.package_version
    instruction ← program.update_command
    print_update as_json (update_result r updated warning current instruction)

  pub check_update_command : Bool → M ℕ
  check_update_command as_json = do result ← program.check_for_update; report_update as_json result

  show_and_finish : ParsedArguments → PreparedUpdateAdvisory → Document → ℕ → M ℕ
  show_and_finish p advisory document code = do
    u ← show_document p.json document advisory.client_update
    v ← program.finish_automatic_advisory advisory
    pure code

  pub unlock_command : ParsedArguments → M UnlockResult
  unlock_command p = do
    thread_id ← from_res (validate_thread_id program.lower (id_of p.thread_id))
    unlock_thread env (program.services p.options) thread_id p.options

  -- The commands on threads; check-update is answered before.
  pub run_command : CommandName → ParsedArguments → PreparedUpdateAdvisory → M ℕ
  run_command list p advisory = do
    r ← program.list_threads p.options
    show_and_finish p advisory (listing r) 0
  run_command inspect p advisory = do
    r ← (program.services p.options).inspect_thread (id_of p.thread_id)
    show_and_finish p advisory (inspection r) 0
  run_command _ p advisory = do
    r ← unlock_command p
    show_and_finish p advisory (unlocking r) (unlock_exit_code r.outcome)

  thread_command : CommandName → ParsedArguments → M ℕ
  thread_command name p = do
    advisory ← program.prepare_automatic_advisory p.json p.no_update_notice
    try_catch (run_command name p advisory) λ e.
        (show_failure p.json name advisory.client_update e
          >> program.finish_automatic_advisory advisory)
        >> pure 3

  run_named : CommandName → ParsedArguments → M ℕ
  run_named check_update p =
      try_catch (check_update_command p.json)
        (λ e. show_failure p.json check_update none e >> pure 3)
  run_named list p = thread_command list p
  run_named inspect p = thread_command inspect p
  run_named unlock p = thread_command unlock p

  run_parsed : Parsed → M ℕ
  run_parsed (standalone help) = program.print help_text >> pure 0
  run_parsed (standalone version) = do
    v ← program.package_version
    program.print (version_text v) >> pure 0
  run_parsed (command p) = run_named p.command p

  abbrev usage_error : List String → Error → CliErrorResult
  usage_error argv e = cli_error (requested_command argv) invalid_usage 64 (error_text e)

  show_usage : Bool → List String → Option ClientUpdate → Error → M (Unit {0})
  show_usage true argv client_update e =
      program.print (json (failure (usage_error argv e)) client_update)
  show_usage false argv client_update e =
      program.print (complaint (error_text e)) >> program.print usage_hint

  reject_usage : List String → Error → M ℕ
  reject_usage argv e = do
    advisory ←
        program.prepare_automatic_advisory (includes argv "--json")
          (includes argv "--no-update-notice")
    u ← show_usage (includes argv "--json") argv advisory.client_update e
    v ← program.finish_automatic_advisory advisory
    pure 64

  run_arguments : List String → Res Parsed → M ℕ
  run_arguments argv (ok parsed) = run_parsed parsed
  run_arguments argv (throw e) = reject_usage argv e

  -- With the arguments after the name of the script, among which alone "--json" can stand.
  pub main : List String → M ℕ
  main argv =
      run_arguments argv (parse_arguments env.show_number program.resolve program.defaults argv)
