-- ===== src/Unlock/Signal/Reports.antt =====
-- Past the signal every failure still reports the signal, and nothing is left behind.
use codex_unlock.Base.{ℕ, zero, suc, ◌+◌, ◌-◌, min, leb, ◌&&◌, some, arith, ◌∷◌, inl, inr}
use codex_unlock.Types.{LockProbe, DoctorOptions}
use codex_unlock.Io.{
  Env, Log, M, Res, ok, throw, then_run, pure, signalled, date_now, performance_now, delay, ms,
  Res-cases,
}
use codex_unlock.Io.Calm.{Holds, Returned}
use codex_unlock.Io.Total.{
  IsTotal, IsTotal-bind, IsTotal-attempt, IsTotal-pure, IsTotal-observe, IsTotal-delay,
  IsTotal-branch, calm_total,
}
use codex_unlock.Native.{probe_with_retry}
use codex_unlock.Unlock.Observers.{Services, AreCalm}
use codex_unlock.Unlock.Signal.{
  RevalidatedUnlockEvidence, PostSignalState, Round, again, done, exhausted, broken, decide_round,
  round, next_round, wait_loop, check_transcript, finish_wait, observe_termination, initial_state,
  terminate_revalidated_owner, signalled_result, unsignalled_result,
}
use codex_unlock.Unlock.Signal.Quiet.{observe_termination-Calm, Reports}

module _ (env : Env) (services : Services) (ev : RevalidatedUnlockEvidence) where
  decide_round-Total :
      (probe : LockProbe) (st : PostSignalState) → IsTotal (decide_round env services ev probe st)
  unfolding decide_round
  decide_round-Total probe st = record { at = λ s. ground arith }

  pub round-Total :
      (deadline : ℕ) (st : PostSignalState) → IsTotal (round env services ev deadline st)
  unfolding round
  round-Total deadline st =
      IsTotal-attempt (services.process_exit_observation ev.owner.pid) _ _
        (λ exit.
          IsTotal-attempt (probe_with_retry env ev.inspection.lock.path (some deadline)) _ _
            (λ probe. decide_round-Total probe _) (λ e. IsTotal-pure _))
        (λ e. IsTotal-pure _)

  pub next_round-Total :
      (deadline : ℕ) (r : Round) (continue : PostSignalState → M Round)
      → ((st : PostSignalState) → IsTotal (continue st))
      → IsTotal (next_round env services deadline r continue)
  unfolding next_round
  next_round-Total deadline (again st) continue h =
      IsTotal-bind (performance_now env) _ (IsTotal-observe _)
        λ now. IsTotal-bind (delay (min (ms 100) (deadline - now))) _ (IsTotal-delay _) λ u. h st
  next_round-Total deadline (done st) continue h = IsTotal-pure _
  next_round-Total deadline (exhausted st) continue h = IsTotal-pure _
  next_round-Total deadline (broken st e) continue h = IsTotal-pure _

  wait_loop-Total :
      (fuel deadline probe_deadline : ℕ) (st : PostSignalState)
      → IsTotal (wait_loop env services fuel ev deadline probe_deadline st)
  unfolding wait_loop
  wait_loop-Total zero deadline probe_deadline st = IsTotal-pure _
  wait_loop-Total (suc fuel) deadline probe_deadline st =
      IsTotal-bind (date_now env) _ (IsTotal-observe _) λ date.
        IsTotal-bind (performance_now env) _ (IsTotal-observe _) λ now.
          IsTotal-branch (leb date deadline && leb now probe_deadline) _ _
            (IsTotal-bind _ _ (round-Total probe_deadline st) λ r.
              next_round-Total probe_deadline r _ (wait_loop-Total fuel deadline probe_deadline))
            (IsTotal-pure (done st))

  finish_wait-Total : (r : Round) → IsTotal (finish_wait env services ev r)
  unfolding finish_wait check_transcript
  finish_wait-Total (again st) = IsTotal-pure _
  finish_wait-Total (exhausted st) = IsTotal-pure _
  finish_wait-Total (broken st e) = IsTotal-pure _
  finish_wait-Total (done st) =
      IsTotal-bind (check_transcript env services ev st) _ (record { at = λ s. ground arith })
        λ st'. IsTotal-pure _

  pub observe_termination-Total :
      (options : DoctorOptions) → IsTotal (observe_termination env services ev options)
  unfolding observe_termination
  observe_termination-Total options = IsTotal-bind (date_now env) _ (IsTotal-observe _) λ date.
      IsTotal-bind (performance_now env) _ (IsTotal-observe _) λ now.
        IsTotal-bind
          (wait_loop env services (ms options.termination_timeout_ms + 2) ev
            (date + options.termination_timeout_ms) (now + ms options.termination_timeout_ms)
            (initial_state env services))
          _ (wait_loop-Total _ _ _ _) λ r. finish_wait-Total r

module _ (env : Env) (services : Services) (calm : AreCalm services)
    (ev : RevalidatedUnlockEvidence) (options : DoctorOptions) where
  after_signal :
      (s : Log) (p : Res PostSignalState × Log)
      → Returned (λ st u. Holds 0 0 (signalled ev.owner.pid ∷ s) u) p
      → Returned
          (λ r u. Reports s r u)
          (then_run p (λ st. pure (signalled_result env services ev st)))
  unfolding signalled_result
  after_signal s (ok st, u) h = ground arith
  after_signal s (throw e, u) h = absurd h

  -- With observations that leave nothing behind, sending the signal and waiting for its effect
  -- always returns a result, whatever fails afterwards: the result says that SIGTERM was sent
  -- exactly when one signal was sent, `changed` agrees with it, and no descriptor or lock is
  -- left behind.
  pub terminate_revalidated_owner-Reports :
      (s : Log)
      → Returned (λ r t. Reports s r t) (terminate_revalidated_owner env services ev options s)
  unfolding terminate_revalidated_owner unsignalled_result
  terminate_revalidated_owner-Reports s = elim (Res-cases (env.terminate s ev.owner.pid)) [
    | inr (e, q) ↦ rw (q, terminate_revalidated_owner) (ground arith)
    | inl (u, q) ↦
        rw (q, terminate_revalidated_owner)
          (after_signal s (observe_termination env services ev options _) (
            calm_total (observe_termination env services ev options)
              (observe_termination-Total env services ev options)
              (observe_termination-Calm env services calm ev options) _))
  ]
