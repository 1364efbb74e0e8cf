-- ===== src/Cli/Run/Exit.antt =====
-- What the exit code of a run says.
use codex_unlock.Base.{
  ℕ, ◌≡◌, refl, String, includes, string_eq, Bool, true, false, Option, none, List, ◌⊎◌, ◌↔◌, inl,
  inr, arith,
}
use codex_unlock.Types.{
  CommandName, list, inspect, unlock, check_update, UnlockResult, InspectionResult, UnlockOutcome,
  unlocked, not_locked, refused, termination_failed, verification_failed,
}
use codex_unlock.Io.{Env, Log, Res, ok, throw, ◌>>◌}
use codex_unlock.Util.{Error}
use codex_unlock.Io.Answers.{
  Answers, Yields, Yields-bind, Yields-pure, Yields-ran, Yields-thrown, Ran, Threw,
}
use codex_unlock.Update.Advisory.{PreparedUpdateAdvisory, UpdateCacheRecord}
use codex_unlock.Cli.Arguments.{
  ParsedArguments, Parsed, standalone, command, help, version, parse_arguments,
}
use codex_unlock.Cli.Run.{
  Program, Document, ListResult, json, report, update, help_text, version_text, id_of,
  show_document, show_failure, warn_cache, show_usage, CheckForUpdateResult, CheckUpdateResult,
  checked, failed, unlock_exit_code, print_update, report_update, check_update_command,
  show_and_finish, unlock_command, run_command, thread_command, run_named, run_parsed, reject_usage,
  run_arguments, main,
}

-- The exit code of an unlock by its outcome: 0 exactly of `unlocked` and `not_locked`, 2 exactly of
-- `refused`, 3 exactly of the failures.
pub record MeansOutcome (o : UnlockOutcome) (code : ℕ) : Type 0 where
  pub zero : (code ≡ 0) ↔ ((o ≡ unlocked) ⊎ (o ≡ not_locked))
  pub two : (code ≡ 2) ↔ (o ≡ refused)
  pub three : (code ≡ 3) ↔ ((o ≡ termination_failed) ⊎ (o ≡ verification_failed))

unlock_exit_code-MeansOutcome : (o : UnlockOutcome) → MeansOutcome o (unlock_exit_code o)
unlock_exit_code-MeansOutcome o = ground arith

module _ (env : Env) (program : Program) where
  -- The command returned its result in this run, and the code is the one for it.
  abbrev pub Succeeds : CommandName → ParsedArguments → ℕ → Type 0
  Succeeds list p code = (code ≡ 0) × ((r : ListResult) × Ran (program.list_threads p.options) r)
  Succeeds inspect p code =
      (code ≡ 0)
      × ((r : InspectionResult) × Ran
            ((program.services p.options).inspect_thread (id_of p.thread_id)) r)
  Succeeds unlock p code =
      (r : UnlockResult) × Ran (unlock_command env program p) r × MeansOutcome r.outcome code
  Succeeds check_update p code =
      (code ≡ 0)
      × ((r : UpdateCacheRecord) × (updated : Bool) × (warning : Option String) × Ran
            program.check_for_update (checked r updated warning))

  -- The command, or printing its result, threw in this run, and the code is 3.
  abbrev pub Fails : CommandName → ParsedArguments → ℕ → Type 0
  Fails check_update p code =
      (code ≡ 3) × ((e : Error) × Threw (check_update_command env program p.json) e)
  Fails name p code =
      (code ≡ 3)
      × ((a : PreparedUpdateAdvisory) × (e : Error) × Threw (run_command env program name p a) e)

  abbrev pub ExitsCommand : CommandName → ParsedArguments → ℕ → Type 0
  ExitsCommand name p code = Succeeds name p code ⊎ Fails name p code

  abbrev pub Exits : Res Parsed → ℕ → Type 0
  Exits (throw e) code = code ≡ 64
  Exits (ok (standalone s)) code = code ≡ 0
  Exits (ok (command p)) code = ExitsCommand p.command p code

  show_and_finish-Yields :
      (P : ℕ → Type 0) (p : ParsedArguments) (a : PreparedUpdateAdvisory) (d : Document) (code : ℕ)
      → P code
      → Yields P (show_and_finish env program p a d code)
  unfolding show_and_finish
  show_and_finish-Yields P p a d code h =
      Yields-bind P (show_document env program p.json d a.client_update) _
        λ u. Yields-bind P (program.finish_automatic_advisory a) _ λ v. Yields-pure P code h

  run_command-Exits :
      (name : CommandName) (p : ParsedArguments) (a : PreparedUpdateAdvisory)
      → (name ≡ check_update → ⊥)
      → Yields (ExitsCommand name p) (run_command env program name p a)
  unfolding run_command
  run_command-Exits list p a h =
      Yields-ran _ (program.list_threads p.options) _
        λ r ran. show_and_finish-Yields (ExitsCommand list p) p a _ 0 (inl (refl, (r, ran)))
  run_command-Exits inspect p a h =
      Yields-ran _ ((program.services p.options).inspect_thread (id_of p.thread_id)) _
        λ r ran. show_and_finish-Yields (ExitsCommand inspect p) p a _ 0 (inl (refl, (r, ran)))
  run_command-Exits unlock p a h = Yields-ran _ (unlock_command env program p) _ λ r ran.
      show_and_finish-Yields (ExitsCommand unlock p) p a _ _
        (inl (r, ran, unlock_exit_code-MeansOutcome r.outcome))
  run_command-Exits check_update p a h = absurd (h refl)

  Fails-of :
      (name : CommandName) (p : ParsedArguments) (a : PreparedUpdateAdvisory) (e : Error)
      → (name ≡ check_update → ⊥)
      → Threw (run_command env program name p a) e
      → Fails name p 3
  Fails-of list p a e h t = (refl, (a, e, t))
  Fails-of inspect p a e h t = (refl, (a, e, t))
  Fails-of unlock p a e h t = (refl, (a, e, t))
  Fails-of check_update p a e h t = absurd (h refl)

  thread_command-Exits :
      (name : CommandName) (p : ParsedArguments)
      → (name ≡ check_update → ⊥)
      → Yields (ExitsCommand name p) (thread_command env program name p)
  unfolding thread_command
  thread_command-Exits name p h =
      Yields-bind _ (program.prepare_automatic_advisory p.json p.no_update_notice) _ λ a.
        Yields-thrown _ (run_command env program name p a) _ (run_command-Exits name p a h)
          λ e threw.
            Yields-bind _
              (show_failure env program p.json name a.client_update e
                >> program.finish_automatic_advisory a)
              _ λ v. Yields-pure (ExitsCommand name p) 3 (inr (Fails-of name p a e h threw))

  print_update-Exits :
      (P : ℕ → Type 0) (j : Bool) (r : CheckUpdateResult)
      → P 0
      → Yields P (print_update env program j r)
  unfolding print_update
  print_update-Exits P true r h =
      Yields-bind _ (program.print (json (update r) none)) _ λ u. Yields-pure P 0 h
  print_update-Exits P false r h =
      Yields-bind _ (program.print (report (update r)) >> warn_cache env program r.cache_warning) _
        λ u. Yields-pure P 0 h

  report_update-Exits :
      (p : ParsedArguments) (r : CheckForUpdateResult)
      → Ran program.check_for_update r
      → Yields (ExitsCommand check_update p) (report_update env program p.json r)
  unfolding report_update
  report_update-Exits p (failed reason) ran = record { at = λ s. tt }
  report_update-Exits p (checked r updated warning) ran =
      Yields-bind _ program.package_version _ λ c. Yields-bind _ program.update_command _ λ i.
        print_update-Exits (ExitsCommand check_update p) p.json _
          (inl (refl, (r, updated, warning, ran)))

  check_update_command-Exits :
      (p : ParsedArguments)
      → Yields (ExitsCommand check_update p) (check_update_command env program p.json)
  unfolding check_update_command
  check_update_command-Exits p =
      Yields-ran _ program.check_for_update _ λ r ran. report_update-Exits p r ran

  run_named-Exits :
      (name : CommandName) (p : ParsedArguments)
      → Yields (ExitsCommand name p) (run_named env program name p)
  unfolding run_named
  run_named-Exits list p = thread_command-Exits list p (λ h. cc)
  run_named-Exits inspect p = thread_command-Exits inspect p (λ h. cc)
  run_named-Exits unlock p = thread_command-Exits unlock p (λ h. cc)
  run_named-Exits check_update p =
      Yields-thrown _ (check_update_command env program p.json) _ (check_update_command-Exits p)
        λ e threw.
          Yields-bind _ (show_failure env program p.json check_update none e) _
            λ u. Yields-pure (ExitsCommand check_update p) 3 (inr (refl, (e, threw)))

  run_arguments-Exits :
      (argv : List String) (r : Res Parsed) → Yields (Exits r) (run_arguments env program argv r)
  unfolding run_arguments reject_usage run_parsed
  run_arguments-Exits argv (throw e) =
      Yields-bind _
        (program.prepare_automatic_advisory (includes argv "--json")
          (includes argv "--no-update-notice"))
        _
        λ a.
          Yields-bind _ (show_usage env program (includes argv "--json") argv a.client_update e) _
            λ u.
              Yields-bind _ (program.finish_automatic_advisory a) _
                λ w. Yields-pure (Exits (throw e)) 64 refl
  run_arguments-Exits argv (ok (standalone help)) =
      Yields-bind _ (program.print help_text) _
        λ u. Yields-pure (Exits (ok (standalone help))) 0 refl
  run_arguments-Exits argv (ok (standalone version)) = Yields-bind _ program.package_version _ λ v.
      Yields-bind _ (program.print (version_text v)) _
        λ u. Yields-pure (Exits (ok (standalone version))) 0 refl
  run_arguments-Exits argv (ok (command p)) = run_named-Exits p.command p

  -- When a run returns, its exit code is 64 where the command line was rejected, and 0 for help and
  -- version. Otherwise the command returned its result in this run, or it, or printing its result,
  -- threw in this run, and the code is 3. Of a result of list, inspect and check-update the code
  -- is 0; of one of unlock it is 0 exactly of `unlocked` and `not_locked`, 2 exactly of `refused`,
  -- and 3 exactly of the failures.
  pub main-Exits :
      (argv : List String) (s : Log)
      → Answers
          (Exits (parse_arguments env.show_number program.resolve program.defaults argv))
          (main env program argv s)
  unfolding main
  main-Exits argv s = (run_arguments-Exits argv _).at s
