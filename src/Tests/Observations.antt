-- ===== src/Tests/Observations.antt =====
-- Probes, the lease, and the inspections on the small platform.
use codex_unlock.Base.{String, none, ◌≡◌, refl, true, false, some, [], ◌∷◌}
use codex_unlock.Io.{Env, Log, Res, ok, closed, released}
use codex_unlock.Io.Calm.{Outcome, Returned, Holds}
use codex_unlock.Lock.{probe_thread_lock_once, observe_lock_file}
use codex_unlock.Lock.Laws.{IsSoundProbe, probe_thread_lock_once-IsSound}
use codex_unlock.Lock.Observe.{IsConsistent, observe_lock_file-IsConsistent}
use codex_unlock.Native.{guarded_probe_once}
use codex_unlock.Native.Laws.{IsSoundGuarded, guarded_probe_once-IsSound}
use codex_unlock.Coordination.{acquire_unlock_lease, release_lease}
use codex_unlock.Coordination.Laws.{
  Keeps, IsLocked, lease_files, acquire_unlock_lease-Keeps, release_lease-once,
}
use codex_unlock.Transcript.{stable_file_hash}
use codex_unlock.Transcript.Laws.{IsStableHash, stable_file_hash-IsStableHash}
use codex_unlock.Inspection.{inspect_thread}
use codex_unlock.Inspection.Laws.{SampledTwice, inspect_thread-SampledTwice}
use codex_unlock.Process.Exit.{original_process_exited}
use codex_unlock.Text.{trim, trim_start, trim_end}
use codex_unlock.Process.Observation.{
  Texts, process_exit_observation, match_state, first_word, after_word, has_terminator,
}
use codex_unlock.Process.Observation.Laws.{IsGone, run, process_exit_observation-IsGone}
use codex_unlock.Update.{
  UpdateAutomationContext, update_automation_policy, IsRestrained,
  update_automation_policy-IsRestrained,
}
use codex_unlock.Update.Advisory.{
  UpdateGuidanceContext, UpdateSources, fresh, prepare_update_advisory,
}
use codex_unlock.Update.Advisory.Laws.{IsJustified, prepare_update_advisory-IsJustified}
use codex_unlock.Tests.World.{world, seen_1, lease_1, observers_1, options_1}

guarded_probe_once-IsSound_example :
    Returned (λ r t. IsSoundGuarded seen_1 [] r t) (guarded_probe_once world "/home/file" seen_1 [])
guarded_probe_once-IsSound_example = guarded_probe_once-IsSound world "/home/file" seen_1 []

acquire_unlock_lease-Keeps_example :
    Returned
      (λ a u. Keeps (lease_files a) [] u × IsLocked a [] u)
      (acquire_unlock_lease world "/home" "t" [])
acquire_unlock_lease-Keeps_example = acquire_unlock_lease-Keeps world "/home" "t" []

release_lease-once_example :
    Returned
      (λ l t. (t ≡ closed 3 ∷ released 3 ∷ []) × (release_lease world l t ≡ (ok l, t)))
      (release_lease world lease_1 [])
release_lease-once_example = release_lease-once world lease_1 [] refl

probe_thread_lock_once-IsSound_example :
    Returned
      (λ r t. IsSoundProbe world "/home/file" true [] r t)
      (probe_thread_lock_once world "/home/file" seen_1 [])
probe_thread_lock_once-IsSound_example = probe_thread_lock_once-IsSound world "/home/file" seen_1 []

observe_lock_file-IsConsistent_example :
    Returned
      (λ o t. Holds 0 0 [] t × IsConsistent world "/home/file" o o.status)
      (observe_lock_file world "/home/file" [])
observe_lock_file-IsConsistent_example = observe_lock_file-IsConsistent world "/home/file" []

stable_file_hash-IsStableHash_example :
    Outcome
      (λ h t. IsStableHash world "/home/file" [] h)
      (λ t. Unit {0})
      (stable_file_hash world "/home/file" [])
stable_file_hash-IsStableHash_example = stable_file_hash-IsStableHash world "/home/file" []

inspect_thread-SampledTwice_example :
    Outcome
      (λ r t. r.safe_to_unlock ≡ true → SampledTwice world observers_1 "t" options_1 r)
      (λ t. Unit {0})
      (inspect_thread world observers_1 "t" options_1 [])
inspect_thread-SampledTwice_example = inspect_thread-SampledTwice world observers_1 "t" options_1 []

abbrev texts_1 : Texts
texts_1 = record { is_date = λ text. true; show_status = λ status. "0" }

-- A world in which `ps` prints a zombie.
abbrev with_zombie : Env
with_zombie = record world {
  command = λ s executable args. record {
    status = some 0;
    stdout = "Z+ Mon\n";
    stderr = "";
    error = none;
    failure = none;
  };
}

abbrev may_run : Log → String → Res (Unit {0})
may_run s path = ok tt

split_zombie : match_state (trim "Z+ Mon\n") ≡ some ("Z+", "Mon")
unfolding match_state first_word after_word has_terminator trim trim_start trim_end
split_zombie = refl

process_exit_observation-IsGone_example :
    Returned
      (λ x t.
        Holds 0 0 [] t
        × (original_process_exited (some "Mon") x ≡ some true
            → IsGone with_zombie may_run none "Mon" 42))
      (process_exit_observation texts_1 with_zombie (run with_zombie may_run none "Mon" 42) 42 [])
process_exit_observation-IsGone_example =
    process_exit_observation-IsGone with_zombie may_run none "Mon" 42 texts_1 []

abbrev terminal : UpdateAutomationContext
terminal = record {
  json = false;
  no_update_notice = false;
  stdout_is_tty = true;
  stderr_is_tty = true;
  no_notice_variable = false;
  ci_variable = false;
}

update_automation_policy-IsRestrained_example :
    IsRestrained terminal (update_automation_policy terminal)
update_automation_policy-IsRestrained_example = update_automation_policy-IsRestrained terminal

abbrev global_install : UpdateGuidanceContext
global_install = record {
  npm_command = none;
  npm_lifecycle_event = none;
  npx_path = false;
  source_checkout = false;
}

abbrev newer_cached : UpdateSources
newer_cached = record {
  has_user = true;
  boundary_error = none;
  cache = fresh (record { latest = "2.0.0"; checked_at = "2026-01-01T00:00:00.000Z" });
  current_version = "1.0.0";
  is_older_than = λ latest. true;
}

prepare_update_advisory-IsJustified_example :
    IsJustified terminal newer_cached (prepare_update_advisory terminal global_install newer_cached)
prepare_update_advisory-IsJustified_example =
    prepare_update_advisory-IsJustified terminal global_install newer_cached
