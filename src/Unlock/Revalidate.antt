-- ===== src/Unlock/Revalidate.antt =====
-- The revalidation of src/unlock.ts, from the first inspection to the last probe before SIGTERM.
pub mod Quiet
pub mod Hashes
pub mod Justified
use codex_unlock.Base.{
  ℕ, String, Bool, true, false, not, ◌&&◌, ◌||◌, Option, none, some, List, [], ◌∷◌, ◌++◌, ◌==◌,
  nat_eq, string_eq, option_eq, if◌then◌else◌,
}
use codex_unlock.Types.{
  ProcessInfo, PublicFileSnapshot, InspectionResult, ProcessStartObservation, LockProbe, is_held,
  is_present, is_busy,
}
use codex_unlock.Util.{error_text, ◌<>◌}
use codex_unlock.Util.Snapshots.{same_snapshot}
use codex_unlock.Io.{Env, M, ◌>>=◌, ◌>>◌, pure, attempt}
use codex_unlock.Lock.{LockFileObservation, observe_lock_file}
use codex_unlock.Native.{guarded_probe_once}
use codex_unlock.Policy.{truthy}
use codex_unlock.Unlock.Observers.{Services, LockFiles, FileHash}
use codex_unlock.Unlock.Compare.{reason_if, same_string_array, compare_inspections}

-- `beforeHash`, `finalInspection`, `finalHashSnapshot` and `revalidationReasons`.
pub record Revalidation : Type 0 where
  pub before_hash : Option String
  pub final : InspectionResult
  pub final_hash_snapshot : Option PublicFileSnapshot
  pub reasons : List String

-- The first hash with its reasons.
pub record Hashed : Type 0 where
  pub hash : Option String
  pub reasons : List String

-- The second hash's snapshot with its reasons.
pub record Rehashed : Type 0 where
  pub snapshot : Option PublicFileSnapshot
  pub reasons : List String

abbrev pub add : List String → Revalidation → Revalidation
add more r = record r { reasons = r.reasons ++ more }

abbrev pub text_of : Option String → String
text_of none = ""
text_of (some e) = e

abbrev pub lock_set_reasons : InspectionResult → InspectionResult → LockFiles → List String
lock_set_reasons i f files =
    if truthy files.error
    then ("owner_lock_set_unknown_before_signal:" <> text_of files.error) ∷ []
    else reason_if
        (not (same_string_array (some files.paths) (some (i.lock.path ∷ [])))
          || not (same_string_array (some files.paths) f.owner_lock_files))
        "owner_lock_set_changed_before_signal"

abbrev pub probe_reasons : InspectionResult → LockFileObservation → LockProbe → List String
probe_reasons f o p =
    reason_if (is_busy p.guard) "native_coordination_busy_before_signal"
    ++ reason_if
        (not (same_snapshot f.lock.snapshot o.snapshot)
          || (not (is_held p.status) && not (is_busy p.guard)))
        "lock_changed_before_signal"

abbrev pub if_none : List String → (Revalidation → M Revalidation) → Revalidation → M Revalidation
if_none [] next r = next r
if_none (reason ∷ rest) next r = pure r

module _ (env : Env) (services : Services) where
  pub hash_before : InspectionResult → String → M Hashed
  hash_before i path =
      attempt (services.stable_file_hash path)
        (λ h. pure (record {
          hash = some h.hash;
          reasons =
              reason_if (not (same_snapshot (some h.snapshot) i.transcript.snapshot))
                "transcript_changed_after_inspection";
        }))
        (λ e.
          pure (record { hash = none; reasons = ("transcript_hash_failed:" <> error_text e) ∷ [] }))

  pub rehash_path : InspectionResult → String → String → M Rehashed
  rehash_path f path before =
      attempt (services.stable_file_hash path)
        (λ h. pure (record {
          snapshot = some h.snapshot;
          reasons =
              reason_if
                (not (h.hash == before)
                  || not (same_snapshot (some h.snapshot) f.transcript.snapshot))
                "transcript_changed_during_revalidation";
        }))
        (λ e. pure (record {
          snapshot = none;
          reasons = ("transcript_revalidation_hash_failed:" <> error_text e) ∷ [];
        }))

  -- `if (finalInspection.transcript.path && beforeHash !== null)`
  pub rehash : InspectionResult → Option String → Option String → M Rehashed
  rehash f none before = pure (record { snapshot = none; reasons = [] })
  rehash f (some path) none = pure (record { snapshot = none; reasons = [] })
  rehash f (some path) (some before) =
      if truthy (some path)
      then rehash_path f path before
      else pure (record { snapshot = none; reasons = [] })

  pub reinspect : InspectionResult → ProcessInfo → String → M Revalidation
  reinspect i owner path = do
    h ← hash_before i path
    f ← services.inspect_thread i.thread_id
    r ← rehash f f.transcript.path h.hash
    pure (record {
      before_hash = h.hash;
      final = f;
      final_hash_snapshot = r.snapshot;
      reasons = h.reasons ++ compare_inspections i owner f ++ r.reasons;
    })

  pub check_lock_set : InspectionResult → ProcessInfo → Revalidation → M Revalidation
  check_lock_set i owner r =
      attempt (services.lock_files_opened_by_process owner.pid i.lock.path)
        (λ files. pure (add (lock_set_reasons i r.final files) r))
        (λ e. pure (add (("owner_lock_set_unknown_before_signal:" <> error_text e) ∷ []) r))

  pub check_start : ProcessInfo → Revalidation → M Revalidation
  check_start owner r =
      attempt (services.process_start_time owner.pid)
        (λ o. pure (
          add
            (reason_if (not (is_present o.status) || not (o.start_time == owner.start_time))
              "owner_changed_before_signal")
            r))
        (λ e. pure (add (("owner_observation_failed_before_signal:" <> error_text e) ∷ []) r))

  pub check_transcript : String → Revalidation → M Revalidation
  check_transcript path r =
      attempt (services.transcript_snapshot path)
        (λ s. pure (
          add
            (reason_if
              (not (same_snapshot (some s) r.final_hash_snapshot)
                || not (same_snapshot (some s) r.final.transcript.snapshot))
              "transcript_changed_before_signal")
            r))
        (λ e. pure (add (("transcript_observation_failed_before_signal:" <> error_text e) ∷ []) r))

  -- The last sample: nothing is awaited between this probe and `process.kill`.
  pub check_probe : InspectionResult → Revalidation → M Revalidation
  check_probe i r = do
    o ← observe_lock_file env i.lock.path
    p ← guarded_probe_once env i.lock.path o
    pure (add (probe_reasons r.final o p) r)

  -- `if (revalidationReasons.length === 0)`
  abbrev pub if_clean : (Revalidation → M Revalidation) → Revalidation → M Revalidation
  if_clean next r = if_none r.reasons next r

  pub last_checks : InspectionResult → ProcessInfo → String → Revalidation → M Revalidation
  last_checks i owner path r = do
    r1 ← check_start owner r
    r2 ← check_transcript path r1
    check_probe i r2

  pub revalidate : InspectionResult → ProcessInfo → String → M Revalidation
  revalidate i owner path = do
    r ← reinspect i owner path
    r1 ← if_clean (check_lock_set i owner) r
    if_clean (last_checks i owner path) r1
