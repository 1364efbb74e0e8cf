-- ===== src/Unlock/Signal/Verified.antt =====
-- What the outcome `unlocked` rests on.
use codex_unlock.Base.{
  eq_of_test, ℕ, zero, suc, ◌+◌, leb, ◌≡◌, ◌≢◌, refl, Bool, true, false, ◌&&◌, if◌then◌else◌, none,
  some, [], ◌∷◌, ◌++◌, arith, inl, inr, Bool-cases, ◌==◌, string_eq, option_eq,
}
use codex_unlock.Types.{
  LockProbe, ProcessStartObservation, DoctorOptions, UnlockResult, is_free, unlocked,
}
use codex_unlock.Util.{error_text, ◌<>◌}
use codex_unlock.Util.Lists.{unique-nil}
use codex_unlock.Io.{Env, Log, M, Res, observed, signalled, ok, throw, attempt_run, pure, ms, ◌>>=◌}
use codex_unlock.Io.Calm.{Outcome, then_run-Outcome}
use codex_unlock.Native.{probe_with_retry}
use codex_unlock.Process.Exit.{original_process_exited}
use codex_unlock.Unlock.Observers.{Services, FileHash}
use codex_unlock.Io.Answers.{Ran}
use codex_unlock.Unlock.Revalidate.Justified.{Trivial}
use codex_unlock.Unlock.Signal.{
  RevalidatedUnlockEvidence, PostSignalState, Round, again, done, exhausted, broken, decide_round,
  round, next_round, wait_loop, check_transcript, finish_wait, observe_termination, initial_state,
  verified, terminated, signalled_result, terminate_revalidated_owner, unsignalled_result,
}

module _ (env : Env) (services : Services) (ev : RevalidatedUnlockEvidence) where
  -- An observation of the process that shows the exit of the one that was signalled.
  abbrev pub Exited : Type 0
  Exited =
      (x : ProcessStartObservation) × Ran (services.process_exit_observation ev.owner.pid) x
      × (original_process_exited ev.owner.start_time x ≡ some true)

  -- A probe that found the lock free.
  abbrev pub Freed : Type 0
  Freed =
      (p : LockProbe) × (deadline : ℕ) × Ran
        (probe_with_retry env ev.inspection.lock.path (some deadline)) p
      × (is_free p.status ≡ true)

  -- The transcript had the hash that it had before the signal.
  abbrev pub Rehashed : Type 0
  Rehashed =
      (h : FileHash) × Ran (services.stable_file_hash ev.transcript_path) h
      × (some h.hash ≡ ev.transcript_hash)

  -- Each positive field of the state stands for an observation.
  record Observed (st : PostSignalState) : Type 0 where
    exited : st.process_exited ≡ some true → Exited
    freed : st.lock_released ≡ true → Freed
    rehashed : st.transcript_unchanged ≡ some true → Rehashed

  abbrev OfRound : Round → Log → Type 0
  OfRound (again st) t = Observed st
  OfRound (done st) t = Observed st
  OfRound (exhausted st) t = Observed st
  OfRound (broken st e) t = Observed st

  decide_round-Observed :
      (probe : LockProbe) (st : PostSignalState) (s : Log)
      → Observed st
      → Outcome OfRound Trivial (decide_round env services ev probe st s)
  unfolding decide_round
  decide_round-Observed probe st s h = ground arith

  probed-Observed :
      (x : ProcessStartObservation) (deadline : ℕ) (st : PostSignalState) (s : Log)
      (p : Res LockProbe × Log)
      → Ran (services.process_exit_observation ev.owner.pid) x
      → probe_with_retry env ev.inspection.lock.path (some deadline) s ≡ p
      → Observed st
      → Outcome OfRound Trivial (
          attempt_run p
            (λ probe. decide_round env services ev probe (record st {
              lock_holder_note = none;
              process_exited = original_process_exited ev.owner.start_time x;
              process_observation = x;
              lock_released = is_free probe.status;
              last_lock_probe = some probe;
            }))
            (λ e. pure (broken (record st { lock_holder_note = none }) e)))
  probed-Observed x deadline st s (ok p, t) ran e h = decide_round-Observed p _ t (record {
    exited = λ k. (x, ran, k);
    freed = λ k. (p, deadline, (s, t, e), k);
    rehashed = h.rehashed;
  })
  probed-Observed x deadline st s (throw z, t) ran e h = record {
    exited = h.exited;
    freed = h.freed;
    rehashed = h.rehashed;
  }

  exit-Observed :
      (deadline : ℕ) (st : PostSignalState) (s : Log) (p : Res ProcessStartObservation × Log)
      → services.process_exit_observation ev.owner.pid s ≡ p
      → Observed st
      → Outcome OfRound Trivial (
          attempt_run p
            (λ x u.
              attempt_run
                (probe_with_retry env ev.inspection.lock.path (some deadline) u)
                (λ probe. decide_round env services ev probe (record st {
                  lock_holder_note = none;
                  process_exited = original_process_exited ev.owner.start_time x;
                  process_observation = x;
                  lock_released = is_free probe.status;
                  last_lock_probe = some probe;
                }))
                (λ e. pure (broken (record st { lock_holder_note = none }) e)))
            (λ e. pure (broken (record st { lock_holder_note = none }) e)))
  exit-Observed deadline st s (ok x, t) e h =
      probed-Observed x deadline st t
        (probe_with_retry env ev.inspection.lock.path (some deadline) t) (s, t, e) refl h
  exit-Observed deadline st s (throw z, t) e h = record {
    exited = h.exited;
    freed = h.freed;
    rehashed = h.rehashed;
  }

  round-Observed :
      (deadline : ℕ) (st : PostSignalState) (s : Log)
      → Observed st
      → Outcome OfRound Trivial (round env services ev deadline st s)
  unfolding round
  round-Observed deadline st s h =
      exit-Observed deadline st s (services.process_exit_observation ev.owner.pid s) refl h

  next_round-Observed :
      (deadline : ℕ) (r : Round) (continue : PostSignalState → M Round) (s : Log)
      → ((st : PostSignalState) (t : Log) → Observed st → Outcome OfRound Trivial (continue st t))
      → OfRound r s
      → Outcome OfRound Trivial (next_round env services deadline r continue s)
  unfolding next_round
  next_round-Observed deadline (again st) continue s g h = g st _ h
  next_round-Observed deadline (done st) continue s g h = h
  next_round-Observed deadline (exhausted st) continue s g h = h
  next_round-Observed deadline (broken st e) continue s g h = h

  branch-Observed :
      (b : Bool) (st : PostSignalState) (m : M Round) (s : Log)
      → Observed st
      → Outcome OfRound Trivial (m s)
      → Outcome OfRound Trivial ((elim b as (λ _. M Round) [ false ↦ pure (done st) | true ↦ m ]) s)
  branch-Observed true st m s h g = g
  branch-Observed false st m s h g = h

  wait_loop-Observed :
      (fuel deadline probe_deadline : ℕ) (st : PostSignalState) (s : Log)
      → Observed st
      → Outcome OfRound Trivial (wait_loop env services fuel ev deadline probe_deadline st s)
  unfolding wait_loop
  wait_loop-Observed zero deadline probe_deadline st s h = h
  wait_loop-Observed (suc fuel) deadline probe_deadline st s h =
      let u = observed ∷ observed ∷ s in
      let continue = wait_loop env services fuel ev deadline probe_deadline in
      branch-Observed
        (leb (env.date_now s) deadline && leb (env.performance_now (observed ∷ s)) probe_deadline)
        st
        (round env services ev probe_deadline st
          >>= (λ r. next_round env services probe_deadline r continue))
        u h
        (then_run-Outcome OfRound OfRound Trivial (round env services ev probe_deadline st u) _
          (round-Observed probe_deadline st u h)
          λ r t k.
            next_round-Observed probe_deadline r continue t
              (wait_loop-Observed fuel deadline probe_deadline) k)

  hashed-Observed :
      (st : PostSignalState) (s : Log) (p : Res FileHash × Log)
      → services.stable_file_hash ev.transcript_path s ≡ p
      → Observed st
      → Outcome
          (λ st t. Observed st)
          Trivial
          (attempt_run p
            (λ h. pure (
              if some h.hash == ev.transcript_hash
              then record st { transcript_unchanged = some true }
              else record st {
                transcript_unchanged = some false;
                reasons = st.reasons ++ "transcript_changed_during_unlock" ∷ [];
              }))
            (λ e. pure (record st {
              reasons = st.reasons ++ ("post_unlock_transcript_hash_failed:" <> error_text e) ∷ [];
            })))
  hashed-Observed st s (throw e, t) k g = record {
    exited = g.exited;
    freed = g.freed;
    rehashed = g.rehashed;
  }
  hashed-Observed st s (ok h, t) k g = elim (Bool-cases (some h.hash == ev.transcript_hash)) [
    | inl q ↦ rw q (record {
      exited = g.exited;
      freed = g.freed;
      rehashed = λ _. (h, (s, t, k), eq_of_test (some h.hash) ev.transcript_hash q);
    })
    | inr q ↦ rw q (record { exited = g.exited; freed = g.freed; rehashed = λ z. cc })
  ]

  finish_wait-Observed :
      (r : Round) (s : Log)
      → OfRound r s
      → Outcome (λ st t. Observed st) Trivial (finish_wait env services ev r s)
  unfolding finish_wait check_transcript
  finish_wait-Observed (again st) s h = h
  finish_wait-Observed (exhausted st) s h = record {
    exited = h.exited;
    freed = h.freed;
    rehashed = h.rehashed;
  }
  finish_wait-Observed (broken st e) s h = record {
    exited = h.exited;
    freed = h.freed;
    rehashed = h.rehashed;
  }
  finish_wait-Observed (done st) s h =
      then_run-Outcome (λ st t. Observed st) (λ st t. Observed st) Trivial
        (check_transcript env services ev st s) _
        (hashed-Observed st s (services.stable_file_hash ev.transcript_path s) refl h)
        λ st' t g. ground arith

  -- What the outcome `unlocked` claims, and the observations it stands on.
  pub record Unlocked (r : UnlockResult) : Type 0 where
    pub sent : r.signal_sent ≡ true
    pub exit : r.process_exited ≡ some true
    pub release : r.lock_released ≡ true
    pub transcript : r.transcript_unchanged ≡ some true
    pub no_reasons : r.reasons ≡ []
    pub exited : Exited
    pub freed : Freed
    pub rehashed : Rehashed

  verified-fields :
      (st : PostSignalState)
      → verified env services st ≡ true
      → (st.process_exited ≡ some true)
        × (st.lock_released ≡ true)
        × (st.transcript_unchanged ≡ some true)
        × (st.reasons ≡ [])
  unfolding verified
  verified-fields st h = ground arith

  unverified :
      (st : PostSignalState)
      → verified env services st ≡ false
      → (signalled_result env services ev st).outcome ≢ unlocked
  unfolding signalled_result terminated
  unverified st h e = ground arith

  signalled_result-Unlocked :
      (st : PostSignalState)
      → Observed st
      → (signalled_result env services ev st).outcome ≡ unlocked
      → Unlocked (signalled_result env services ev st)
  unfolding signalled_result
  signalled_result-Unlocked st h e = elim (Bool-cases (verified env services st)) [
    | inr q ↦ absurd (unverified st q e)
    | inl q ↦
        let (exit, release, transcript, none_left) = verified-fields st q in
        record {
          sent = refl;
          exit = exit;
          release = release;
          transcript = transcript;
          no_reasons = rw none_left unique-nil;
          exited = h.exited exit;
          freed = h.freed release;
          rehashed = h.rehashed transcript;
        }
  ]

  waited-Observed :
      (options : DoctorOptions) (s : Log)
      → Outcome (λ st t. Observed st) Trivial (observe_termination env services ev options s)
  unfolding observe_termination
  waited-Observed options s =
      let u = observed ∷ observed ∷ s in
      let date = env.date_now s in
      let now = env.performance_now (observed ∷ s) in
      then_run-Outcome OfRound (λ st t. Observed st) Trivial
        (wait_loop env services (ms options.termination_timeout_ms + 2) ev
          (date + options.termination_timeout_ms) (now + ms options.termination_timeout_ms)
          (initial_state env services) u)
        _
        (wait_loop-Observed _ _ _ (initial_state env services) u
          (record { exited = λ k. cc; freed = λ k. cc; rehashed = λ k. cc }))
        λ r t h. finish_wait-Observed r t h

  sent-Unlocked :
      (options : DoctorOptions) (s : Log) (q : Res (Unit {0}))
      → env.terminate s ev.owner.pid ≡ q
      → Outcome
          (λ r t. r.outcome ≡ unlocked → Unlocked r)
          Trivial
          (terminate_revalidated_owner env services ev options s)
  unfolding terminate_revalidated_owner unsignalled_result
  sent-Unlocked options s (throw x) e = rw (e, terminate_revalidated_owner) (λ k. cc)
  sent-Unlocked options s (ok u) e =
      rw (e, terminate_revalidated_owner)
        (then_run-Outcome (λ st t. Observed st) (λ r t. r.outcome ≡ unlocked → Unlocked r) Trivial
          (observe_termination env services ev options (signalled ev.owner.pid ∷ s)) _
          (waited-Observed options (signalled ev.owner.pid ∷ s))
          λ st t h. signalled_result-Unlocked st h)

  -- The outcome `unlocked` is only given after the signal was sent, when an observation showed
  -- that the process which held the lock is gone, a probe found the lock free, the transcript had
  -- the hash that it had before the signal, and nothing else was noted.
  pub terminate_revalidated_owner-Unlocked :
      (options : DoctorOptions) (s : Log)
      → Outcome
          (λ r t. r.outcome ≡ unlocked → Unlocked r)
          Trivial
          (terminate_revalidated_owner env services ev options s)
  terminate_revalidated_owner-Unlocked options s =
      sent-Unlocked options s (env.terminate s ev.owner.pid) refl
