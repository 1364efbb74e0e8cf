-- ===== src/Unlock/Signal.antt =====
-- The second half of src/unlock.ts: SIGTERM, and what is observed after it.
pub mod Quiet
pub mod Reports
pub mod Delivered
pub mod Verified
use codex_unlock.Base.{
  ℕ, zero, suc, ◌+◌, ◌-◌, min, String, Bool, true, false, not, ◌&&◌, ◌||◌, Option, none, some, List,
  [], ◌∷◌, ◌++◌, map, ◌==◌, nat_eq, string_eq, option_eq, includes, any, all, leb, if◌then◌else◌,
}
use codex_unlock.Types.{
  Presence, ProbeStatus, LockProbe, ProcessInfo, ProcessStartObservation, LockHolder, DoctorOptions,
  InspectionResult, UnlockResult, UnlockOutcome, is_held, is_free, unlocked, termination_failed,
  verification_failed,
}
use codex_unlock.Util.{Error, error_text, ◌<>◌}
use codex_unlock.Util.Lists.{unique}
use codex_unlock.Io.{
  Env, M, ◌>>=◌, ◌>>◌, pure, attempt, terminate, date_now, performance_now, delay, ms,
}
use codex_unlock.Policy.{truthy}
use codex_unlock.Native.{probe_with_retry}
use codex_unlock.Unlock.Observers.{Services, Openers}
use codex_unlock.Process.Exit.{original_process_exited}
use codex_unlock.Unlock.Compare.{is_some}

-- What revalidation hands over to the signal.
pub record RevalidatedUnlockEvidence : Type 0 where
  pub inspection : InspectionResult
  pub owner : ProcessInfo
  pub transcript_path : String
  pub transcript_hash : Option String

pub record PostSignalState : Type 0 where
  pub process_exited : Option Bool
  pub process_observation : ProcessStartObservation
  pub lock_released : Bool
  pub last_lock_probe : Option LockProbe
  pub lock_reacquired_by : Option (List LockHolder)
  pub lock_holder_note : Option String
  pub transcript_unchanged : Option Bool
  pub reasons : List String

pub data Reacquisition : Type 0 where
  other_owner owner_descendant : List LockHolder → Reacquisition
  inconclusive : Option String → Reacquisition

-- An opener that cannot be the process that was signalled.
abbrev pub differs_from : ProcessInfo → ProcessInfo → Bool
differs_from owner opener =
    not (opener.pid == owner.pid)
    || (is_some opener.start_time && not (opener.start_time == owner.start_time))

abbrev pub holder_of : ProcessInfo → LockHolder
holder_of p = record { pid = p.pid; start_time = p.start_time }

abbrev pub no_openers : List ProcessInfo → Bool
no_openers [] = true
no_openers (p ∷ ps) = false

unfoldable pub classify_openers : ProcessInfo → List ℕ → Openers → Reacquisition
classify_openers owner descendants openers =
    let holders = map holder_of openers.processes in
    if truthy openers.error
    then inconclusive openers.error
    else if no_openers openers.processes
    then inconclusive (some "no current lock opener was observed")
    else if not (all (differs_from owner) openers.processes)
    then inconclusive (some "current opener matches the original owner")
    else if any (λ (h : LockHolder). includes descendants h.pid) holders
    then owner_descendant holders
    else other_owner holders

-- A round of the wait: go on, stop, or an exception with the state as it was when it was thrown.
-- `exhausted` is the end of the model's fuel.
pub data Round : Type 0 where
  again done exhausted : PostSignalState → Round
  broken : PostSignalState → Error → Round

abbrev or_nil : Option (List ℕ) → List ℕ
or_nil none = []
or_nil (some l) = l

abbrev is_some_true : Option Bool → Bool
is_some_true none = false
is_some_true (some b) = b

abbrev pids : List LockHolder → List ℕ
pids [] = []
pids (h ∷ hs) = h.pid ∷ pids hs

abbrev or_unknown : Option String → String → String
or_unknown none other = other
or_unknown (some e) other = e

module _ (env : Env) (services : Services) where
  abbrev note_of : Reacquisition → PostSignalState → Round
  note_of (other_owner hs) st = done (record st { lock_reacquired_by = some hs })
  note_of (owner_descendant hs) st = again (record st {
    lock_holder_note = some ("lock_held_by_owner_descendant:" <> env.join_numbers (pids hs));
  })
  note_of (inconclusive e) st = again (record st {
    lock_holder_note = some ("lock_holder_unidentified:" <> or_unknown e "unknown");
  })

  -- After both observations of a round.
  pub decide_round : RevalidatedUnlockEvidence → LockProbe → PostSignalState → M Round
  decide_round ev probe st =
      if is_some_true st.process_exited && st.lock_released
      then pure (done st)
      else if is_some_true st.process_exited && is_held probe.status
      then attempt (services.inspect_lock_openers ev.inspection.lock.path)
          (λ openers.
            pure (
              note_of (classify_openers ev.owner (or_nil ev.inspection.descendant_pids) openers)
                st))
          (λ e. pure (broken st e))
      else pure (again st)

  abbrev observed_state :
      RevalidatedUnlockEvidence
      → ProcessStartObservation
      → LockProbe
      → PostSignalState
      → PostSignalState
  observed_state ev exit probe st = record st {
    process_exited = original_process_exited ev.owner.start_time exit;
    process_observation = exit;
    lock_released = is_free probe.status;
    last_lock_probe = some probe;
  }

  -- One round. `Promise.all` runs both observations, and its failure leaves the state.
  pub round : RevalidatedUnlockEvidence → ℕ → PostSignalState → M Round
  round ev probe_deadline st0 =
      let st = record st0 { lock_holder_note = none } in
      attempt (services.process_exit_observation ev.owner.pid)
        (λ exit.
          attempt (probe_with_retry env ev.inspection.lock.path (some probe_deadline))
            (λ probe. decide_round ev probe (observed_state ev exit probe st))
            (λ e. pure (broken st e)))
        (λ e. pure (broken st e))

  pub next_round : ℕ → Round → (PostSignalState → M Round) → M Round
  next_round probe_deadline (again st) continue = do
    now ← performance_now env
    delay (min (ms 100) (probe_deadline - now))
    continue st
  next_round probe_deadline (done st) continue = pure (done st)
  next_round probe_deadline (exhausted st) continue = pure (exhausted st)
  next_round probe_deadline (broken st e) continue = pure (broken st e)

  -- `while (Date.now() <= deadline && performance.now() <= probeDeadline)`
  pub wait_loop : ℕ → RevalidatedUnlockEvidence → ℕ → ℕ → PostSignalState → M Round
  wait_loop zero ev deadline probe_deadline st = pure (exhausted st)
  wait_loop (suc fuel) ev deadline probe_deadline st = do
    date ← date_now env
    now ← performance_now env
    elim (leb date deadline && leb now probe_deadline) [
      | false ↦ pure (done st)
      | true ↦ do
        r ← round ev probe_deadline st
        next_round probe_deadline r (wait_loop fuel ev deadline probe_deadline)
    ]

  abbrev add_reason : String → PostSignalState → PostSignalState
  add_reason reason st = record st { reasons = st.reasons ++ reason ∷ [] }

  pub check_transcript : RevalidatedUnlockEvidence → PostSignalState → M PostSignalState
  check_transcript ev st =
      attempt (services.stable_file_hash ev.transcript_path)
        (λ h. pure (
          if some h.hash == ev.transcript_hash
          then record st { transcript_unchanged = some true }
          else add_reason "transcript_changed_during_unlock"
              (record st { transcript_unchanged = some false })))
        (λ e. pure (add_reason ("post_unlock_transcript_hash_failed:" <> error_text e) st))

  abbrev exit_reasons : PostSignalState → PostSignalState
  exit_reasons st = elim st.process_exited [
    | none ↦
        add_reason
          ("owner_exit_unknown:"
            <> or_unknown st.process_observation.error "process observation failed")
          st
    | some true ↦ st
    | some false ↦ add_reason "owner_did_not_exit_before_timeout" st
  ]

  abbrev unreleased_reason : Option LockProbe → String
  unreleased_reason none = "lock_was_not_released"
  unreleased_reason (some p) = elim p.status [
    | ProbeStatus.unknown ↦ "lock_release_unknown:" <> or_unknown p.error "lock probe failed"
    | _ ↦ "lock_was_not_released"
  ]

  abbrev last_held : Option LockProbe → Bool
  last_held none = false
  last_held (some p) = is_held p.status

  abbrev add_note : Option String → PostSignalState → PostSignalState
  add_note none st = st
  add_note (some note) st =
      if truthy (some note) && last_held st.last_lock_probe then add_reason note st else st

  abbrev lock_reasons : PostSignalState → PostSignalState
  lock_reasons st = elim st.lock_reacquired_by [
    | some hs ↦ add_reason ("lock_reacquired_by_other_owner:" <> env.join_numbers (pids hs)) st
    | none ↦
        if st.lock_released
        then st
        else add_note st.lock_holder_note (add_reason (unreleased_reason st.last_lock_probe) st)
  ]

  -- After the wait; an exception of the wait skips the rest and is reported.
  pub finish_wait : RevalidatedUnlockEvidence → Round → M PostSignalState
  finish_wait ev (again st) = pure st
  finish_wait ev (exhausted st) = pure (add_reason "post_signal_verification_failed:out of fuel" st)
  finish_wait ev (broken st e) =
      pure (add_reason ("post_signal_verification_failed:" <> error_text e) st)
  finish_wait ev (done st) = do st' ← check_transcript ev st; pure (lock_reasons (exit_reasons st'))

  abbrev pub initial_state : PostSignalState
  initial_state = record {
    process_exited = none;
    process_observation = record {
      status = Presence.unknown;
      start_time = none;
      zombie = false;
      error = some "owner was not observed after SIGTERM";
    };
    lock_released = false;
    last_lock_probe = none;
    lock_reacquired_by = none;
    lock_holder_note = none;
    transcript_unchanged = none;
    reasons = [];
  }

  pub observe_termination : RevalidatedUnlockEvidence → DoctorOptions → M PostSignalState
  observe_termination ev options = do
    date ← date_now env
    now ← performance_now env
    r ←
        wait_loop (ms options.termination_timeout_ms + 2) ev (date + options.termination_timeout_ms)
          (now + ms options.termination_timeout_ms) initial_state
    finish_wait ev r

  abbrev no_reasons : List String → Bool
  no_reasons [] = true
  no_reasons (r ∷ rs) = false

  pub verified : PostSignalState → Bool
  verified st =
      is_some_true st.process_exited
      && st.lock_released
      && is_some_true st.transcript_unchanged
      && no_reasons st.reasons

  pub terminated : PostSignalState → Bool
  terminated st =
      is_some_true st.process_exited && (st.lock_released || is_some st.lock_reacquired_by)

  pub signalled_result : RevalidatedUnlockEvidence → PostSignalState → UnlockResult
  unfolding verified terminated
  signalled_result ev st = record {
    thread_id = ev.inspection.thread_id;
    outcome =
        if verified st
        then unlocked
        else if terminated st
        then verification_failed
        else termination_failed;
    changed = true;
    pid = some ev.owner.pid;
    signal_sent = true;
    process_exited = st.process_exited;
    process_observation = some st.process_observation;
    lock_released = st.lock_released;
    transcript_unchanged = st.transcript_unchanged;
    lock_reacquired_by = st.lock_reacquired_by;
    reasons = unique st.reasons;
    inspection = ev.inspection;
  }

  pub unsignalled_result : RevalidatedUnlockEvidence → Error → UnlockResult
  unsignalled_result ev e = record {
    thread_id = ev.inspection.thread_id;
    outcome = termination_failed;
    changed = false;
    pid = some ev.owner.pid;
    signal_sent = false;
    process_exited = none;
    process_observation = none;
    lock_released = false;
    transcript_unchanged = none;
    lock_reacquired_by = none;
    reasons = ("sigterm_failed:" <> error_text e) ∷ [];
    inspection = ev.inspection;
  }

  pub terminate_revalidated_owner : RevalidatedUnlockEvidence → DoctorOptions → M UnlockResult
  terminate_revalidated_owner ev options =
      attempt (terminate env ev.owner.pid)
        (λ u. observe_termination ev options >>= (λ st. pure (signalled_result ev st)))
        (λ e. pure (unsignalled_result ev e))
