-- ===== src/Process/Diagnostics.antt =====
-- src/process.ts: the fixed system binaries that are asked about processes.
pub mod Laws
use codex_unlock.Base.{String, not, Option, none, some, List, [], ◌∷◌, if◌then◌else◌}
use codex_unlock.Util.{CommandResult, spawn_error, ◌<>◌}
use codex_unlock.Io.{Env, Log, Res, M, ◌>>=◌, pure, attempt, observe, stat, command, is_file}

pub data DiagnosticTool : Type 0 where
  ps lsof : DiagnosticTool

abbrev pub system_executables : DiagnosticTool → List String
system_executables ps = "/bin/ps" ∷ "/usr/bin/ps" ∷ []
system_executables lsof = "/usr/sbin/lsof" ∷ "/usr/bin/lsof" ∷ []

abbrev pub tool_name : DiagnosticTool → String
tool_name ps = "ps"
tool_name lsof = "lsof"

abbrev pub join_or : List String → String
join_or [] = ""
join_or (path ∷ []) = path
join_or (path ∷ other ∷ paths) = path <> " or " <> join_or (other ∷ paths)

-- `access` is `access(path, X_OK)`.
module _ (env : Env) (access : Log → String → Res (Unit {0})) where
  unfoldable pub first_executable : List String → M (Option String)
  first_executable [] = pure none
  first_executable (candidate ∷ candidates) =
      let next = first_executable candidates in
      attempt (stat env candidate)
        (λ s.
          if not (is_file s)
          then next
          else attempt (observe (λ t. access t candidate)) (λ u. pure (some candidate)) (λ e. next))
        (λ e. next)

  -- `found` is what an earlier call of this process has found, where there was one.
  unfoldable pub find_system_executable :
      Option (Option String) → DiagnosticTool → M (Option String)
  find_system_executable (some found) tool = pure found
  find_system_executable none tool = first_executable (system_executables tool)

  abbrev pub not_installed : DiagnosticTool → CommandResult
  not_installed tool = record {
    status = none;
    stdout = "";
    stderr = "";
    error = none;
    failure = some (record {
      kind = spawn_error;
      message = tool_name tool <> " is not installed at " <> join_or (system_executables tool);
    });
  }

  abbrev pub run_found : DiagnosticTool → List String → Option String → M CommandResult
  run_found tool args none = pure (not_installed tool)
  run_found tool args (some executable) = command env executable args

  unfoldable pub run_diagnostic :
      Option (Option String) → DiagnosticTool → List String → M CommandResult
  run_diagnostic found tool args = do
    executable ← find_system_executable found tool
    run_found tool args executable
