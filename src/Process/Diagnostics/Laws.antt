-- ===== src/Process/Diagnostics/Laws.antt =====
-- Asking a system binary always answers and leaves nothing behind.
use codex_unlock.Base.{String, not, Option, none, some, List, [], ◌∷◌}
use codex_unlock.Io.{Env, Log, Res, stat, observe, is_file}
use codex_unlock.Io.Calm.{IsCalm, calm-bind, calm-pure, calm-if, calm-observe, calm-attempt}
use codex_unlock.Io.Total.{
  IsTotal, IsTotal-bind, IsTotal-pure, IsTotal-if, IsTotal-observe, IsTotal-attempt,
}
use codex_unlock.Process.Diagnostics.{
  DiagnosticTool, first_executable, find_system_executable, run_diagnostic, run_found,
  system_executables,
}

module _ (env : Env) where
  module _ (access : Log → String → Res (Unit {0})) where
    first_executable-Calm : (paths : List String) → IsCalm (first_executable env access paths)
    unfolding first_executable
    first_executable-Calm [] = calm-pure none
    first_executable-Calm (path ∷ paths) =
        calm-attempt (stat env path) _ _ (calm-observe _)
          (λ s. calm-if (not (is_file s)) _ _ (first_executable-Calm paths) (
            calm-attempt (observe (λ t. access t path)) _ _ (calm-observe _)
              (λ u. calm-pure (some path)) (λ e. first_executable-Calm paths)))
          (λ e. first_executable-Calm paths)

    find_system_executable-Calm :
        (found : Option (Option String)) (tool : DiagnosticTool)
        → IsCalm (find_system_executable env access found tool)
    unfolding find_system_executable
    find_system_executable-Calm none tool = first_executable-Calm (system_executables tool)
    find_system_executable-Calm (some found) tool = calm-pure found

    run_found-Calm :
        (tool : DiagnosticTool) (args : List String) (found : Option String)
        → IsCalm (run_found env access tool args found)
    run_found-Calm tool args none = calm-pure _
    run_found-Calm tool args (some executable) = calm-observe _

    pub run_diagnostic-Calm :
        (found : Option (Option String)) (tool : DiagnosticTool) (args : List String)
        → IsCalm (run_diagnostic env access found tool args)
    unfolding run_diagnostic
    run_diagnostic-Calm found tool args =
        calm-bind _ _ (find_system_executable-Calm found tool) (run_found-Calm tool args)

    first_executable-Total : (paths : List String) → IsTotal (first_executable env access paths)
    unfolding first_executable
    first_executable-Total [] = IsTotal-pure none
    first_executable-Total (path ∷ paths) =
        IsTotal-attempt (stat env path) _ _
          (λ s. IsTotal-if (not (is_file s)) _ _ (first_executable-Total paths) (
            IsTotal-attempt (observe (λ t. access t path)) _ _ (λ u. IsTotal-pure (some path))
              (λ e. first_executable-Total paths)))
          (λ e. first_executable-Total paths)

    find_system_executable-Total :
        (found : Option (Option String)) (tool : DiagnosticTool)
        → IsTotal (find_system_executable env access found tool)
    unfolding find_system_executable
    find_system_executable-Total none tool = first_executable-Total (system_executables tool)
    find_system_executable-Total (some found) tool = IsTotal-pure found

    run_found-Total :
        (tool : DiagnosticTool) (args : List String) (found : Option String)
        → IsTotal (run_found env access tool args found)
    run_found-Total tool args none = IsTotal-pure _
    run_found-Total tool args (some executable) =
        IsTotal-observe (λ s. env.command s executable args)

    pub run_diagnostic-Total :
        (found : Option (Option String)) (tool : DiagnosticTool) (args : List String)
        → IsTotal (run_diagnostic env access found tool args)
    unfolding run_diagnostic
    run_diagnostic-Total found tool args =
        IsTotal-bind _ _ (find_system_executable-Total found tool) (run_found-Total tool args)
