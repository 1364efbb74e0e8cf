-- ===== src/Inspection/Laws.antt =====
-- What an inspection that allows the unlock has seen, and that inspecting leaves nothing behind.
use codex_unlock.Base.{
  eq_of_test, ℕ, ◌≡◌, refl, String, Bool, true, ◌&&◌, Option, none, some, List, [], ◌∷◌, ◌==◌,
  nat_eq, string_eq, option_eq, list_eq, and-eq-true, arith,
}
use codex_unlock.Types.{ProbeStatus, ProcessInfo, InspectionResult, DoctorOptions}
use codex_unlock.Util.Snapshots.{SameSnapshot, same_snapshot_sound}
use codex_unlock.Io.{Env, Log, M, Res, ok, pure, ◌>>=◌, delay, ms, waited}
use codex_unlock.Io.Calm.{
  Outcome, then_ran, IsCalm, calm-bind, calm-pure, calm-delay, start-Holds, calm_of_Returned,
}
use codex_unlock.Lock.{
  LockFileObservation, LockDirectoryObservation, present, not_created, unknown, codex_home,
  lock_directory, observe_lock_directory,
}
use codex_unlock.Lock.Directory.{observe_lock_directory-Holds}
use codex_unlock.Native.Retry.{probe_with_retry-Calm, observe_lock_file-Calm}
use codex_unlock.Policy.Laws.{evaluate_safety_sound}
use codex_unlock.Unlock.Compare.{is_some}
use codex_unlock.Inspection.{
  Evidence, Sample, OwnerEvidence, same_process_identity, is_lock_stable, is_transcript_stable,
  same_status, evidence_of, safety_context, conclude, sample, inspect_owner, inspect_thread,
  assert_codex_home, check_home, inspect_samples, sample_again, locks_of, lock_of, single,
}

some-injective : {a b : Bool} → some a ≡ some b → a ≡ b
some-injective h = cc h

-- Both samples name one opener, and it is the same process.
pub record SameOpener (b a : Sample) : Type 0 where
  pub first : ProcessInfo
  pub last : ProcessInfo
  pub before : b.openers.processes ≡ first ∷ []
  pub after : a.openers.processes ≡ last ∷ []
  pub same_pid : first.pid ≡ last.pid
  pub same_start : first.start_time ≡ last.start_time

-- The two samples agree on everything that a signal depends on.
pub record Agreeing (b a : Sample) : Type 0 where
  pub same_lock : SameSnapshot b.lock.snapshot a.lock.snapshot
  pub held_before : b.probe.status ≡ ProbeStatus.held
  pub held_after : a.probe.status ≡ ProbeStatus.held
  pub opener : SameOpener b a
  pub same_candidates : b.candidates ≡ a.candidates
  pub same_path : b.transcript.path ≡ a.transcript.path
  pub same_transcript : SameSnapshot b.transcript.snapshot a.transcript.snapshot

same_opener :
    (b a : Sample) (before after : List ProcessInfo)
    → b.openers.processes ≡ before
    → a.openers.processes ≡ after
    → same_process_identity before after ≡ some true
    → SameOpener b a
unfolding same_process_identity
same_opener b a (p ∷ []) (q ∷ []) e k h =
    let test : (p.pid == q.pid && is_some p.start_time && p.start_time == q.start_time) ≡ true =
      cc in
    let (ids, starts) = and-eq-true _ _ test in
    record {
      first = p;
      last = q;
      before = e;
      after = k;
      same_pid = eq_of_test p.pid q.pid (and-eq-true _ _ ids).0;
      same_start = eq_of_test p.start_time q.start_time starts;
    }
same_opener b a [] [] e k h = cc
same_opener b a [] (q ∷ qs) e k h = cc
same_opener b a (p ∷ ps) [] e k h = cc
same_opener b a (p ∷ []) (q ∷ q' ∷ qs) e k h = cc
same_opener b a (p ∷ p' ∷ ps) (q ∷ qs) e k h = cc

same_lock_of :
    (b a : LockFileObservation)
    → is_lock_stable b a ≡ true
    → a.exists ≡ true
    → SameSnapshot b.snapshot a.snapshot
unfolding is_lock_stable
same_lock_of b a h k = same_snapshot_sound _ _ (ground arith)

same_status_of :
    (b a : ProbeStatus) → same_status b a ≡ true → a ≡ ProbeStatus.held → b ≡ ProbeStatus.held
same_status_of b a h k = ground arith

same_transcript_of :
    (b a : Sample)
    → is_transcript_stable b a ≡ true
    → (b.candidates ≡ a.candidates)
      × (b.transcript.path ≡ a.transcript.path)
      × SameSnapshot b.transcript.snapshot a.transcript.snapshot
unfolding is_transcript_stable
same_transcript_of b a h =
    let (h1, record_same) = and-eq-true _ _ h in
    let (h2, snapshot_same) = and-eq-true _ _ h1 in
    let (h3, stable_after) = and-eq-true _ _ h2 in
    let (h4, stable_before) = and-eq-true _ _ h3 in
    let (h5, path_same) = and-eq-true _ _ h4 in
    let (h6, found_after) = and-eq-true _ _ h5 in
    let (candidates_same, found_before) = and-eq-true _ _ h6 in
    (
      eq_of_test b.candidates a.candidates candidates_same,
      eq_of_test b.transcript.path a.transcript.path path_same,
      same_snapshot_sound _ _ snapshot_same,
    )

module _ (options : DoctorOptions) (id path : String) (join : List ℕ → String) (uid : Option ℕ)
    (b a : Sample) (o : OwnerEvidence) (family : Option (List ℕ)) where
  pub conclude-Agreeing :
      (conclude options id path join uid b a o family).safe_to_unlock ≡ true → Agreeing b a
  unfolding conclude evidence_of safety_context
  conclude-Agreeing h =
      let auth =
        evaluate_safety_sound join (evidence_of options id path b a o)
          (safety_context options id path uid b a o family) h in
      let stable : (is_lock_stable b.lock a.lock && same_status b.probe.status a.probe.status)
          ≡ true =
        some-injective auth.lock_held.stable in
      let (lock, status) = and-eq-true _ _ stable in
      let transcript_stable : is_transcript_stable b a ≡ true =
        some-injective auth.transcript.stable in
      let (candidates, same_path, snapshot) = same_transcript_of b a transcript_stable in
      record {
        same_lock = same_lock_of b.lock a.lock lock auth.lock_held.exists;
        held_before = same_status_of b.probe.status a.probe.status status auth.lock_held.held;
        held_after = auth.lock_held.held;
        opener = same_opener b a _ _ refl refl auth.lock_held.same_owner;
        same_candidates = candidates;
        same_path = same_path;
        same_transcript = snapshot;
      }

module _ (env : Env) (services : Evidence) (id : String) (options : DoctorOptions) where
  -- Two samples that were taken, the later one after the delay, and that agree: the second run
  -- begins where the first ended, with the wait between.
  pub record SampledTwice (r : InspectionResult) : Type 0 where
    pub start : Log
    pub before : Sample
    pub middle : Log
    pub first_run :
        sample env services options id (lock_of env services options id) start ≡ (ok before, middle)
    pub after : Sample
    pub finish : Log
    pub second_run :
        sample env services options id
          (lock_of env services options id)
          (waited (ms options.stability_ms) ∷ middle)
        ≡ (ok after, finish)
    pub agreeing : Agreeing before after
    pub owner : r.owner ≡ single after.openers.processes

  -- Two runs of the sampling with the wait between.
  abbrev RunTwice : Sample → Sample → Type 0
  RunTwice b a =
      (s : Log) × (t : Log) × (u : Log) × (sample env services options id
          (lock_of env services options id) s
        ≡ (ok b, t))
      × (sample env services options id (lock_of env services options id)
            (waited (ms options.stability_ms) ∷ t)
          ≡ (ok a, u))

  abbrev sampled : Log → Res Sample × Log
  sampled s = sample env services options id (lock_of env services options id) s

  concluded :
      (b a : Sample) (o : OwnerEvidence) (family : Option (List ℕ))
      → RunTwice b a
      → (r : InspectionResult)
      → r
        ≡ conclude options id
            (lock_of env services options id)
            env.join_numbers
            env.uid
            b
            a
            o
            family
      → r.safe_to_unlock ≡ true
      → SampledTwice r
  unfolding conclude evidence_of
  concluded b a o family (s, t, u, first, second) r e h = record {
    start = s;
    before = b;
    middle = t;
    first_run = first;
    after = a;
    finish = u;
    second_run = second;
    agreeing =
        conclude-Agreeing options id (lock_of env services options id) env.join_numbers env.uid b a
          o family (rw e at h);
    owner = rw e refl;
  }

  abbrev Twice : InspectionResult → Log → Type 0
  Twice r t = r.safe_to_unlock ≡ true → SampledTwice r

  inspect_samples-Twice :
      (b a : Sample) (s : Log)
      → RunTwice b a
      → Outcome Twice (λ t. Unit {0}) (inspect_samples env services id options b a s)
  unfolding inspect_samples
  inspect_samples-Twice b a s runs =
      let path = lock_of env services options id in
      let last : OwnerEvidence → M InspectionResult = λ o.
        services.current_process_family
        >>= (λ family. pure (conclude options id path env.join_numbers env.uid b a o family)) in
      then_ran Twice (inspect_owner env services (single a.openers.processes) path s) last λ o t e.
        then_ran Twice (services.current_process_family t)
          (λ family. pure (conclude options id path env.join_numbers env.uid b a o family))
          λ family u k. concluded b a o family runs _ refl

  sample_again-Twice :
      (b : Sample) (s t : Log)
      → sample env services options id (lock_of env services options id) s ≡ (ok b, t)
      → Outcome Twice (λ t. Unit {0}) (sample_again env services id options b t)
  unfolding sample_again
  sample_again-Twice b s t first =
      then_ran Twice
        (sample env services options id (lock_of env services options id)
          (waited (ms options.stability_ms) ∷ t))
        (inspect_samples env services id options b)
        λ a u e. inspect_samples-Twice b a u (s, t, u, first, e)

  -- An inspection allows the unlock only after two samples that agree: the second was taken from
  -- the log in which the first ended and the stability delay was waited, and both saw the same lock
  -- file held, one and the same process with the same start as its only opener, and the same
  -- unchanged transcript.
  pub inspect_thread-SampledTwice :
      (s : Log)
      → Outcome
          (λ r t. r.safe_to_unlock ≡ true → SampledTwice r)
          (λ t. Unit {0})
          (inspect_thread env services id options s)
  unfolding inspect_thread
  inspect_thread-SampledTwice s =
      let path = lock_of env services options id in
      then_ran Twice (assert_codex_home env services (locks_of env services options) s)
        (λ u. sample env services options id path >>= sample_again env services id options)
        λ u t e.
          then_ran Twice (sample env services options id path t)
            (sample_again env services id options) λ b v k. sample_again-Twice b t v k

-- The observations that an inspection calls leave nothing behind.
pub record AreQuiet (v : Evidence) : Type 0 where
  pub find_transcript_candidates :
      (home id : String) → IsCalm (v.find_transcript_candidates home id)
  pub inspect_transcript_candidates : (c : List String) → IsCalm (v.inspect_transcript_candidates c)
  pub inspect_lock_openers : (p : String) → IsCalm (v.inspect_lock_openers p)
  pub lock_files_opened_by_process :
      (pid : ℕ) (p : String) → IsCalm (v.lock_files_opened_by_process pid p)
  pub descendant_pids : (pid : ℕ) → IsCalm (v.descendant_pids pid)
  pub current_process_family : IsCalm v.current_process_family

module _ (env : Env) (services : Evidence) (quiet : AreQuiet services)
    (options : DoctorOptions) where
  sample-Calm : (id path : String) → IsCalm (sample env services options id path)
  unfolding sample
  sample-Calm id path =
      calm-bind _ _ (quiet.find_transcript_candidates options.codex_home id) λ candidates.
        calm-bind _ _ (observe_lock_file-Calm env path) λ lock.
          calm-bind _ _ (probe_with_retry-Calm env path none) λ probe.
            calm-bind _ _ (quiet.inspect_lock_openers path) λ openers.
              calm-bind _ _ (quiet.inspect_transcript_candidates candidates) λ t. calm-pure _

  check_home-Calm : (d : LockDirectoryObservation) → IsCalm (check_home env services d)
  unfolding check_home
  check_home-Calm present = calm-pure _
  check_home-Calm not_created = calm-pure _
  check_home-Calm (unknown codex_home e) = record { at = start-Holds }
  check_home-Calm (unknown lock_directory e) = calm-pure _

  assert_codex_home-Calm : (directory : String) → IsCalm (assert_codex_home env services directory)
  unfolding assert_codex_home
  assert_codex_home-Calm directory =
      calm-bind (observe_lock_directory env directory) _
        (calm_of_Returned _ (observe_lock_directory-Holds env directory)) check_home-Calm

  inspect_owner-Calm :
      (o : Option ProcessInfo) (path : String) → IsCalm (inspect_owner env services o path)
  unfolding inspect_owner
  inspect_owner-Calm none path = calm-pure _
  inspect_owner-Calm (some o) path =
      calm-bind _ _ (quiet.lock_files_opened_by_process o.pid path)
        λ files. calm-bind _ _ (quiet.descendant_pids o.pid) λ d. calm-pure _

  inspect_samples-Calm :
      (id : String) (b a : Sample) → IsCalm (inspect_samples env services id options b a)
  unfolding inspect_samples
  inspect_samples-Calm id b a =
      calm-bind
        (inspect_owner env services (single a.openers.processes) (lock_of env services options id))
        _ (inspect_owner-Calm _ _)
        λ owner. calm-bind _ _ quiet.current_process_family λ family. calm-pure _

  sample_again-Calm : (id : String) (b : Sample) → IsCalm (sample_again env services id options b)
  unfolding sample_again
  sample_again-Calm id b = calm-bind (delay (ms options.stability_ms)) _ (calm-delay _) λ v.
      calm-bind (sample env services options id (lock_of env services options id)) _
        (sample-Calm id _) λ after. inspect_samples-Calm id b after

  -- If the observations that it calls leave nothing behind, an inspection sends no signal, and
  -- leaves no descriptor open and no lock held, however it ends.
  pub inspect_thread-Calm : (id : String) → IsCalm (inspect_thread env services id options)
  unfolding inspect_thread
  inspect_thread-Calm id =
      calm-bind _ _ (assert_codex_home-Calm _)
        λ u. calm-bind _ _ (sample-Calm id _) λ before. sample_again-Calm id before
