-- ===== src/Inspection.antt =====
-- src/inspection.ts: the two samples of a thread's evidence, their comparison, and the inspection
-- that is made of them. The thread id is valid and in lower case.
pub mod Laws
use codex_unlock.Base.{
  ℕ, String, Bool, true, false, not, ◌&&◌, ◌||◌, Option, none, some, List, [], ◌∷◌, ◌==◌, nat_eq,
  string_eq, option_eq, list_eq, if◌then◌else◌,
}
use codex_unlock.Types.{
  Classification, Presence, ProbeStatus, LockProbe, ProcessInfo, TranscriptInspection,
  LockInspection, InspectionEvidence, InspectionResult, DoctorOptions, is_found,
}
use codex_unlock.Util.{◌<>◌}
use codex_unlock.Util.Snapshots.{same_snapshot}
use codex_unlock.Io.{Env, M, ◌>>=◌, ◌>>◌, pure, throw_error, new_error, delay, ms}
use codex_unlock.Lock.{
  LockFileObservation, LockDirectoryObservation, present, not_created, unknown, codex_home,
  lock_directory, observe_lock_directory, observe_lock_file,
}
use codex_unlock.Native.{probe_with_retry}
use codex_unlock.Policy.{SafetyContext, truthy, evaluate_safety}
use codex_unlock.Unlock.Compare.{same_last_record, is_some}
use codex_unlock.Unlock.Observers.{Openers, LockFiles}

-- What the inspection uses of src/transcript.ts and src/process.ts.
pub record Evidence : Type 0 where
  pub find_transcript_candidates : String → String → M (List String)
  pub inspect_transcript_candidates : List String → M TranscriptInspection
  pub inspect_lock_openers : String → M Openers
  pub lock_files_opened_by_process : ℕ → String → M LockFiles
  pub descendant_pids : ℕ → M (Option (List ℕ))
  pub current_process_family : M (Option (List ℕ))

pub same_process_identity : List ProcessInfo → List ProcessInfo → Option Bool
same_process_identity [] [] = none
same_process_identity (b ∷ []) (a ∷ []) =
    some (b.pid == a.pid && is_some b.start_time && b.start_time == a.start_time)
same_process_identity [] (a ∷ others) = some false
same_process_identity (b ∷ earlier) [] = some false
same_process_identity (b ∷ []) (a ∷ a' ∷ others) = some false
same_process_identity (b ∷ b' ∷ earlier) (a ∷ others) = some false

-- `openers.length === 1 && openers[0].identityComplete`
abbrev one_complete : List ProcessInfo → Bool
one_complete (p ∷ []) = p.identity_complete
one_complete _ = false

abbrev is_false : Option Bool → Bool
is_false (some false) = true
is_false _ = false

abbrev is_true : Option Bool → Bool
is_true (some true) = true
is_true _ = false

classify_present :
    Option Bool → ProbeStatus → List ProcessInfo → Option String → Option Bool → Classification
classify_present lock_stable ProbeStatus.unknown openers error stable = Classification.unknown
classify_present lock_stable ProbeStatus.free openers error stable =
    if is_false lock_stable then Classification.unknown else Classification.stale_residue
classify_present lock_stable ProbeStatus.held openers error stable =
    if is_false lock_stable
    then Classification.unknown
    else if not (truthy error) && one_complete openers && is_true stable
    then Classification.live_owner
    else Classification.unknown

pub classify :
    Presence
    → Option Bool
    → ProbeStatus
    → List ProcessInfo
    → Option String
    → Option Bool
    → Classification
classify Presence.unknown lock_stable probe openers error stable = Classification.unknown
classify Presence.absent lock_stable probe openers error stable =
    if is_false lock_stable then Classification.unknown else Classification.absent
classify Presence.present lock_stable probe openers error stable =
    classify_present lock_stable probe openers error stable

-- One round of observations of a thread.
pub record Sample : Type 0 where
  pub candidates : List String
  pub lock : LockFileObservation
  pub probe : LockProbe
  pub openers : Openers
  pub transcript : TranscriptInspection

abbrev is_unknown : Presence → Bool
is_unknown Presence.unknown = true
is_unknown _ = false

pub is_lock_stable : LockFileObservation → LockFileObservation → Bool
is_lock_stable before after =
    if is_unknown before.status || is_unknown after.status
    then false
    else if not before.exists && not after.exists
    then true
    else same_snapshot before.snapshot after.snapshot

pub is_transcript_stable : Sample → Sample → Bool
is_transcript_stable b a =
    b.candidates == a.candidates
    && is_found b.transcript.status
    && is_found a.transcript.status
    && b.transcript.path == a.transcript.path
    && is_true b.transcript.stable
    && is_true a.transcript.stable
    && same_snapshot b.transcript.snapshot a.transcript.snapshot
    && same_last_record b.transcript.last_record a.transcript.last_record

abbrev pub same_status : ProbeStatus → ProbeStatus → Bool
same_status ProbeStatus.held ProbeStatus.held = true
same_status ProbeStatus.free ProbeStatus.free = true
same_status ProbeStatus.unknown ProbeStatus.unknown = true
same_status _ _ = false

-- `error ?? other`
abbrev pub or_else {ℓ} : {A : Type ℓ} → Option A → Option A → Option A
or_else (some a) other = some a
or_else none other = other

abbrev pub single : List ProcessInfo → Option ProcessInfo
single (p ∷ []) = some p
single _ = none

-- `...(error ? { error } : {})`
abbrev pub if_truthy : Option String → Option String
if_truthy e = if truthy e then e else none

-- What is asked about the owner, once there is one.
pub record OwnerEvidence : Type 0 where
  pub lock_files : Option (List String)
  pub error : Option String
  pub descendants : Option (List ℕ)

module _ (options : DoctorOptions) (thread_id : String) (path : String) where
  pub evidence_of : Sample → Sample → OwnerEvidence → InspectionEvidence
  evidence_of before after o =
      let lock_stable =
        is_lock_stable before.lock after.lock
        && same_status before.probe.status after.probe.status in
      let stable = same_process_identity before.openers.processes after.openers.processes in
      let opener_error = or_else before.openers.error after.openers.error in
      record {
        codex_home = options.codex_home;
        thread_id = thread_id;
        classification =
            classify after.lock.status (some lock_stable) after.probe.status after.openers.processes
              opener_error stable;
        lock = record {
          path = path;
          observation = after.lock.status;
          exists = after.lock.exists;
          regular_file = after.lock.regular_file;
          symlink = after.lock.symlink;
          owned_by_current_user = after.lock.owned_by_current_user;
          snapshot = after.lock.snapshot;
          stable = some lock_stable;
          probe = after.probe;
          observation_error = if_truthy after.lock.error;
        };
        owner = single after.openers.processes;
        openers = after.openers.processes;
        owner_identity_stable = stable;
        owner_lock_files = o.lock_files;
        descendant_pids = o.descendants;
        transcript = record after.transcript { stable = some (is_transcript_stable before after) };
      }

  pub safety_context : Option ℕ → Sample → Sample → OwnerEvidence → Option (List ℕ) → SafetyContext
  safety_context uid before after o family = record {
    current_process_family = family;
    opener_error = if_truthy (or_else before.openers.error after.openers.error);
    owner_lock_error = if_truthy o.error;
    current_uid = uid;
  }

  pub conclude :
      (List ℕ → String)
      → Option ℕ
      → Sample
      → Sample
      → OwnerEvidence
      → Option (List ℕ)
      → InspectionResult
  conclude join uid before after o family = record {
    evidence = evidence_of before after o;
    decision =
        evaluate_safety join (evidence_of before after o)
          (safety_context uid before after o family);
  }

module _ (env : Env) (services : Evidence) where
  pub check_home : LockDirectoryObservation → M (Unit {0})
  check_home (unknown codex_home error) = throw_error (new_error error)
  check_home (unknown lock_directory error) = pure tt
  check_home present = pure tt
  check_home not_created = pure tt

  -- A missing home is an error of the configuration, never a confirmed absence of the lock.
  pub assert_codex_home : String → M (Unit {0})
  unfolding check_home
  assert_codex_home directory = observe_lock_directory env directory >>= check_home

  pub sample : DoctorOptions → String → String → M Sample
  sample options thread_id path = do
    candidates ← services.find_transcript_candidates options.codex_home thread_id
    lock ← observe_lock_file env path
    probe ← probe_with_retry env path none
    openers ← services.inspect_lock_openers path
    transcript ← services.inspect_transcript_candidates candidates
    pure (record {
      candidates = candidates;
      lock = lock;
      probe = probe;
      openers = openers;
      transcript = transcript;
    })

  pub inspect_owner : Option ProcessInfo → String → M OwnerEvidence
  inspect_owner none path = pure (record { lock_files = none; error = none; descendants = none })
  inspect_owner (some o) path = do
    files ← services.lock_files_opened_by_process o.pid path
    descendants ← services.descendant_pids o.pid
    pure (record { lock_files = some files.paths; error = files.error; descendants = descendants })

  abbrev pub locks_of : DoctorOptions → String
  locks_of options = env.join options.codex_home "thread-writer-locks"

  abbrev pub lock_of : DoctorOptions → String → String
  lock_of options thread_id = env.join (locks_of options) (thread_id <> ".lock")

  -- After both samples.
  pub inspect_samples : String → DoctorOptions → Sample → Sample → M InspectionResult
  inspect_samples thread_id options before after = do
    owner ← inspect_owner (single after.openers.processes) (lock_of options thread_id)
    family ← services.current_process_family
    pure (
        conclude options thread_id (lock_of options thread_id) env.join_numbers env.uid before after
          owner family)

  pub sample_again : String → DoctorOptions → Sample → M InspectionResult
  sample_again thread_id options before = do
    delay (ms options.stability_ms)
    after ← sample options thread_id (lock_of options thread_id)
    inspect_samples thread_id options before after

  pub inspect_thread : String → DoctorOptions → M InspectionResult
  inspect_thread thread_id options = do
    assert_codex_home (locks_of options)
    before ← sample options thread_id (lock_of options thread_id)
    sample_again thread_id options before
