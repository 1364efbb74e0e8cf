-- ===== src/Unlock.antt =====
-- src/unlock.ts: recovery of a thread's lock by one SIGTERM to its proven owner.
-- `revalidationReasons` is passed from step to step. The record of dependencies of the source's
-- test seam is part of `Services`; the validation of the thread id is in Options.
pub mod Observers
pub mod Compare
pub mod Revalidate
pub mod Signal
pub mod Laws
pub mod Leased
pub mod Program
use codex_unlock.Base.{
  ℕ, String, Bool, true, false, not, ◌&&◌, ◌||◌, Option, none, some, List, [], ◌∷◌, string_eq,
  if◌then◌else◌,
}
use codex_unlock.Types.{
  Classification, ProcessInfo, DoctorOptions, InspectionResult, UnlockResult, UnlockOutcome,
  not_locked, refused,
}
use codex_unlock.Util.{◌<>◌}
use codex_unlock.Util.Lists.{unique}
use codex_unlock.Io.{Env, M, ◌>>=◌, ◌>>◌, pure, or_handle, Res, ok, throw, Log}
use codex_unlock.Policy.{truthy, classification_text}
use codex_unlock.Coordination.{
  UnlockLease, UnlockLeaseAttempt, acquired, contended, unknown, acquire_unlock_lease,
  release_lease,
}
use Observers.{Services}
use Revalidate.{Revalidation, revalidate}
use Signal.{terminate_revalidated_owner}

abbrev pub is_settled : Classification → Bool
is_settled Classification.absent = true
is_settled Classification.stale_residue = true
is_settled Classification.live_owner = false
is_settled Classification.unknown = false

abbrev pub pid_of : Option ProcessInfo → Option ℕ
pid_of none = none
pid_of (some o) = some o.pid

-- A result without a signal.
abbrev pub unsent : InspectionResult → UnlockOutcome → Option ℕ → Bool → List String → UnlockResult
unsent i outcome pid released reasons = record {
  thread_id = i.thread_id;
  outcome = outcome;
  changed = false;
  pid = pid;
  signal_sent = false;
  process_exited = none;
  process_observation = none;
  lock_released = released;
  transcript_unchanged = none;
  lock_reacquired_by = none;
  reasons = reasons;
  inspection = i;
}

-- The owner and the transcript's path; none where
-- `!safeToUnlock || !owner || !transcript.path`.
abbrev pub target_of : Bool → Option ProcessInfo → Option String → Option (ProcessInfo × String)
target_of false owner path = none
target_of true none path = none
target_of true (some o) none = none
target_of true (some o) (some p) = if truthy (some p) then some (o, p) else none

abbrev pub signal_target : InspectionResult → Option (ProcessInfo × String)
signal_target i = target_of i.safe_to_unlock i.owner i.transcript.path

module _ (env : Env) (services : Services) where
  pub signal_if_valid :
      InspectionResult → ProcessInfo → String → DoctorOptions → Revalidation → M UnlockResult
  signal_if_valid i owner path options r = elim r.reasons [
    | [] ↦
        terminate_revalidated_owner env services
          (record {
            inspection = i;
            owner = owner;
            transcript_path = path;
            transcript_hash = r.before_hash;
          })
          options
    | reason ∷ rest ↦ pure (unsent i refused (some owner.pid) false (unique (reason ∷ rest)))
  ]

  pub unlock_target :
      InspectionResult → Option (ProcessInfo × String) → DoctorOptions → M UnlockResult
  unlock_target i none options = pure (unsent i refused (pid_of i.owner) false i.blockers)
  unlock_target i (some (owner, path)) options = do
    r ← revalidate env services i owner path
    signal_if_valid i owner path options r

  pub unlock_inspected_thread : InspectionResult → DoctorOptions → M UnlockResult
  unlock_inspected_thread i options =
      if is_settled i.classification
      then pure (unsent i not_locked none true (classification_text i.classification ∷ []))
      else unlock_target i (signal_target i) options

  -- `finally { lease.release() }`
  abbrev pub released_after : UnlockLease → Res UnlockResult × Log → Res UnlockResult × Log
  released_after lease (ok r, s) = (release_lease env lease >> pure r) s
  released_after lease (throw e, s) = (release_lease env lease >> (λ t. (throw e, t))) s

  pub with_lease : InspectionResult → DoctorOptions → UnlockLeaseAttempt → M UnlockResult
  with_lease i options (acquired lease) s =
      released_after lease (unlock_inspected_thread i options s)
  with_lease i options contended s =
      (ok (unsent i refused (pid_of i.owner) false ("concurrent_unlock_in_progress" ∷ [])), s)
  with_lease i options (unknown reason) s = (
    ok (unsent i refused (pid_of i.owner) false (("unlock_coordination_failed:" <> reason) ∷ [])),
    s,
  )

  abbrev pub unlock_leased :
      InspectionResult → Option (ProcessInfo × String) → DoctorOptions → String → M UnlockResult
  unlock_leased i none options thread_id = unlock_inspected_thread i options
  unlock_leased i (some target) options thread_id = do
    a ← acquire_unlock_lease env options.codex_home thread_id
    with_lease i options a

  -- With a valid thread id, in lower case.
  pub unlock_thread : String → DoctorOptions → M UnlockResult
  unlock_thread thread_id options = do
    i ← services.inspect_thread thread_id
    unlock_leased i (signal_target i) options thread_id
