-- ===== src/Process/Inspect/Laws.antt =====
-- What an inspected process is said to be, and that its inspection leaves nothing behind.
use codex_unlock.Base.{
  ℕ, ◌≡◌, refl, String, Bool, true, false, not, ◌&&◌, ◌||◌, Option, none, some, List, [], ◌∷◌, ◌++◌,
  ◌↔◌, arith, if◌then◌else◌, ◌==◌, string_eq,
}
use codex_unlock.Types.{ProcessInfo, is_present}
use codex_unlock.Util.{CommandResult}
use codex_unlock.Policy.{truthy}
use codex_unlock.Io.{Env, M, Log}
use codex_unlock.Io.Calm.{
  IsCalm, calm-bind, calm-pure, calm-if, calm-attempt, calm-observe, Outcome,
}
use codex_unlock.Io.Answers.{Yields-bind, Yields-pure}
use codex_unlock.Process.Observation.{Texts}
use codex_unlock.Process.Observation.Laws.{process_start_time-Calm}
use codex_unlock.Process.Lsof.{LsofProcess}
use codex_unlock.Process.LockFiles.{find_lock_openers}
use codex_unlock.Process.Arguments.{
  CommandLineObservation, present, unknown, ArgumentEvidence, Verdict, reconcile_arguments,
  verdict_evidence, unverified, classify_codex_mode, flattened_shared_service, shared, accepted,
  refused,
}
use codex_unlock.Text.{trim, join_spaces}
use text.Mathlib.Text.{starts_with}
use codex_unlock.Process.Inspect.{
  parse_integer, ProcessEvidence, KernelFiles, ProcessFieldObservation, push_if, argument_errors,
  process_info, process_evidence, ps_field, lsof_cwd, process_cwd, linux_command_line,
  inspect_process, inspect_processes, inspect_lock_openers, has_value,
}

-- An error of the arguments leaves no arguments.
abbrev IsClear : ArgumentEvidence → Type 0
IsClear e = truthy e.error ≡ true → e.arguments ≡ none

module _ (base_of : String → String) (lower : String → String) where
  verdict_evidence-IsClear :
      (ps : String) (service : Bool) (v : Verdict)
      → IsClear (verdict_evidence base_of lower ps service v)
  verdict_evidence-IsClear ps service shared h = cc
  verdict_evidence-IsClear ps service accepted h = cc
  verdict_evidence-IsClear ps service (refused error) h = refl

  reconcile_arguments-IsClear :
      (ps : Option String) (line : Option CommandLineObservation)
      → IsClear (reconcile_arguments base_of lower ps line)
  unfolding reconcile_arguments
  reconcile_arguments-IsClear ps none h = cc
  reconcile_arguments-IsClear none (some line) h = refl
  reconcile_arguments-IsClear (some ps) (some (unknown error)) h = refl
  reconcile_arguments-IsClear (some ps) (some (present argv)) h =
      tested (starts_with (join_spaces argv) ps && not (join_spaces argv == ps))
        (not (trim (join_spaces argv) == ps)) h
    where
      service : Bool
      service = flattened_shared_service ps || flattened_shared_service (join_spaces argv)

      tested :
          (a b : Bool)
          → IsClear (
              if a
              then unverified "arguments_truncated:ps output is shorter than the kernel argv"
                  service
              else if b
              then unverified "arguments_unverified:ps output disagrees with the kernel argv"
                  service
              else verdict_evidence base_of lower ps service
                  (classify_codex_mode base_of lower argv))
      tested true b h = refl
      tested false true h = refl
      tested false false h =
          verdict_evidence-IsClear ps service (classify_codex_mode base_of lower argv) h

no_errors :
    (e : ArgumentEvidence) (args : ProcessFieldObservation)
    → IsClear e
    → (argument_errors e args ≡ []) ↔ (has_value e.arguments ≡ true)
no_errors e args h = by_test (truthy e.error) refl
  where
    by_test :
        (b : Bool)
        → truthy e.error ≡ b
        → (argument_errors e args ≡ []) ↔ (has_value e.arguments ≡ true)
    by_test true q = rw (q, h q) (λ p. cc, λ p. cc)
    by_test false q = rw q (pushed (has_value e.arguments) _)
      where
        pushed : (b : Bool) (text : String) → (push_if (not b) text ≡ []) ↔ (b ≡ true)
        pushed true text = (λ h. refl, λ h. refl)
        pushed false text = (λ h. cc, λ h. cc)

push_if-nil :
    (b : Bool) (text : String) (rest : List String)
    → ((push_if (not b) text ++ rest) ≡ []) ↔ ((b ≡ true) × (rest ≡ []))
push_if-nil true text rest = (λ h. (refl, h), λ h. h.1)
push_if-nil false text rest = (λ h. cc, λ h. cc)

module _ (env : Env) (lower : String → String) where
  process_info-Complete :
      (candidate : LsofProcess) (o : ProcessEvidence) (e : ArgumentEvidence)
      → IsClear e
      → ((process_info env lower candidate o e).identity_complete ≡ true)
        ↔ ((process_info env lower candidate o e).errors ≡ [])
  unfolding process_info
  process_info-Complete candidate o e h =
      combined (has_value (parse_integer o.ppid.value)) (has_value (parse_integer o.uid.value))
        (is_present o.start.status) (has_value o.comm.value) (has_value e.arguments) _ _ _ _ _
        (no_errors e o.args h)
    where
      combined :
          (a b c d f : Bool) (t u v w : String) (rest : List String)
          → (rest ≡ []) ↔ (f ≡ true)
          → ((a && b && c && d && f) ≡ true) ↔ (
              (push_if (not a) t
                ++ push_if (not b) u
                ++ push_if (not c) v
                ++ push_if (not d) w
                ++ rest)
              ≡ [])
      combined a b c d f t u v w rest h = ground (arith, h)

module _ (env : Env) (lower : String → String) (texts : Texts) (files : KernelFiles)
    (run_ps run_lsof : List String → M CommandResult) where
  -- An inspected process has a complete identity (a parent, a user, a start, a command and
  -- verified arguments) exactly when its inspection noted no error.
  pub inspect_process-Complete :
      (candidate : LsofProcess) (s : Log)
      → Outcome
          (λ i t. (i.identity_complete ≡ true) ↔ (i.errors ≡ []))
          (λ t. Unit {0})
          (inspect_process env lower texts files run_ps run_lsof candidate s)
  unfolding inspect_process
  inspect_process-Complete candidate s =
      (Yields-bind (λ (i : ProcessInfo). (i.identity_complete ≡ true) ↔ (i.errors ≡ []))
          (process_evidence env lower texts files run_ps run_lsof candidate.pid) _
          λ o. Yields-pure _ _ (
            process_info-Complete env lower candidate o
              (reconcile_arguments env.basename lower o.args.value o.line)
              (reconcile_arguments-IsClear env.basename lower o.args.value o.line))).at
        s

  module _ (calm_ps : (args : List String) → IsCalm (run_ps args))
      (calm_lsof : (args : List String) → IsCalm (run_lsof args)) where
    ps_field-Calm :
        (pid : ℕ) (field : String)
        → IsCalm (ps_field env lower texts files run_ps run_lsof pid field)
    unfolding ps_field
    ps_field-Calm pid field = calm-bind _ _ (calm_ps _) λ r. calm-pure _

    lsof_cwd-Calm : (pid : ℕ) → IsCalm (lsof_cwd env lower texts files run_ps run_lsof pid)
    unfolding lsof_cwd
    lsof_cwd-Calm pid = calm-bind _ _ (calm_lsof _) λ r. calm-pure _

    process_cwd-Calm : (pid : ℕ) → IsCalm (process_cwd env lower texts files run_ps run_lsof pid)
    unfolding process_cwd
    process_cwd-Calm pid =
        calm-if files.is_linux _ _
          (calm-attempt _ _ _ (calm-observe _) (λ path. calm-pure _) (λ e. lsof_cwd-Calm pid))
          (lsof_cwd-Calm pid)

    linux_command_line-Calm :
        (pid : ℕ) → IsCalm (linux_command_line env lower texts files run_ps run_lsof pid)
    unfolding linux_command_line
    linux_command_line-Calm pid =
        calm-if files.is_linux _ _
          (calm-attempt _ _ _ (calm-observe _) (λ text. calm-pure _) (λ e. calm-pure _))
          (calm-pure _)

    process_evidence-Calm :
        (pid : ℕ) → IsCalm (process_evidence env lower texts files run_ps run_lsof pid)
    unfolding process_evidence
    process_evidence-Calm pid = calm-bind _ _ (ps_field-Calm pid "ppid") λ ppid.
        calm-bind _ _ (ps_field-Calm pid "uid") λ uid.
          calm-bind _ _ (process_start_time-Calm texts env run_ps calm_ps pid) λ start.
            calm-bind _ _ (ps_field-Calm pid "tty") λ tty.
              calm-bind _ _ (ps_field-Calm pid "comm") λ comm.
                calm-bind _ _ (ps_field-Calm pid "args") λ args.
                  calm-bind _ _ (process_cwd-Calm pid)
                    λ cwd. calm-bind _ _ (linux_command_line-Calm pid) λ line. calm-pure _

    inspect_process-Calm :
        (candidate : LsofProcess)
        → IsCalm (inspect_process env lower texts files run_ps run_lsof candidate)
    unfolding inspect_process
    inspect_process-Calm candidate =
        calm-bind _ _ (process_evidence-Calm candidate.pid) λ o. calm-pure _

    inspect_processes-Calm :
        (candidates : List LsofProcess)
        → IsCalm (inspect_processes env lower texts files run_ps run_lsof candidates)
    unfolding inspect_processes
    inspect_processes-Calm [] = calm-pure []
    inspect_processes-Calm (p ∷ rest) =
        calm-bind _ _ (inspect_process-Calm p)
          λ info. calm-bind _ _ (inspect_processes-Calm rest) λ infos. calm-pure _

    pub inspect_lock_openers-Calm :
        (path : String) → IsCalm (inspect_lock_openers env lower texts files run_ps run_lsof path)
    unfolding inspect_lock_openers find_lock_openers
    inspect_lock_openers-Calm path =
        calm-bind _ _ (calm-bind _ _ (calm_lsof _) λ r. calm-pure _)
          λ openers. calm-bind _ _ (inspect_processes-Calm openers.processes) λ infos. calm-pure _
