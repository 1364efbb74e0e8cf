-- ===== src/Unlock/Signal/Quiet.antt =====
-- What is observed after SIGTERM sends no second signal and leaves nothing behind.
use codex_unlock.Base.{ℕ, zero, suc, ◌+◌, ◌-◌, min, leb, ◌&&◌, if◌then◌else◌, ◌≡◌}
use codex_unlock.Types.{LockProbe, DoctorOptions, UnlockResult}
use codex_unlock.Io.{Env, Log, M, date_now, performance_now, delay, ms}
use codex_unlock.Io.Calm.{
  IsCalm, signals, opens, closes, locks, releases, calm-bind, calm-observe, calm-delay, calm-if,
  calm-attempt, calm-pure, calm-branch,
}
use codex_unlock.Native.Retry.{probe_with_retry-Calm}
use codex_unlock.Unlock.Observers.{Services, AreCalm}
use codex_unlock.Unlock.Signal.{
  RevalidatedUnlockEvidence, PostSignalState, Round, again, done, exhausted, broken, decide_round,
  round, next_round, wait_loop, check_transcript, finish_wait, observe_termination, initial_state,
}

module _ (env : Env) (services : Services) (calm : AreCalm services)
    (ev : RevalidatedUnlockEvidence) where
  decide_round-Calm :
      (probe : LockProbe) (st : PostSignalState) → IsCalm (decide_round env services ev probe st)
  unfolding decide_round
  decide_round-Calm probe st = calm-if _ _ _ (calm-pure _) (
      calm-if _ _ _
        (calm-attempt _ _ _ (calm.inspect_lock_openers _) (λ o. calm-pure _) (λ e. calm-pure _))
        (calm-pure _))

  pub round-Calm :
      (deadline : ℕ) (st : PostSignalState) → IsCalm (round env services ev deadline st)
  unfolding round
  round-Calm deadline st =
      calm-attempt _ _ _ (calm.process_exit_observation _)
        (λ exit.
          calm-attempt _ _ _ (probe_with_retry-Calm env _ _) (λ probe. decide_round-Calm probe _)
            (λ e. calm-pure _))
        (λ e. calm-pure _)

  next_round-Calm :
      (deadline : ℕ) (r : Round) (continue : PostSignalState → M Round)
      → ((st : PostSignalState) → IsCalm (continue st))
      → IsCalm (next_round env services deadline r continue)
  unfolding next_round
  next_round-Calm deadline (again st) continue h =
      calm-bind (performance_now env) _ (calm-observe _)
        λ now. calm-bind (delay (min (ms 100) (deadline - now))) _ (calm-delay _) λ u. h st
  next_round-Calm deadline (done st) continue h = calm-pure _
  next_round-Calm deadline (exhausted st) continue h = calm-pure _
  next_round-Calm deadline (broken st e) continue h = calm-pure _

  wait_loop-Calm :
      (fuel deadline probe_deadline : ℕ) (st : PostSignalState)
      → IsCalm (wait_loop env services fuel ev deadline probe_deadline st)
  unfolding wait_loop
  wait_loop-Calm zero deadline probe_deadline st = calm-pure _
  wait_loop-Calm (suc fuel) deadline probe_deadline st =
      calm-bind (date_now env) _ (calm-observe _) λ date.
        calm-bind (performance_now env) _ (calm-observe _) λ now.
          calm-branch (leb date deadline && leb now probe_deadline) _ _
            (calm-bind _ _ (round-Calm probe_deadline st)
              λ r. next_round-Calm probe_deadline r _ (wait_loop-Calm fuel deadline probe_deadline))
            (calm-pure (done st))

  check_transcript-Calm : (st : PostSignalState) → IsCalm (check_transcript env services ev st)
  unfolding check_transcript
  check_transcript-Calm st =
      calm-attempt _ _ _ (calm.stable_file_hash _) (λ h. calm-pure _) (λ e. calm-pure _)

  finish_wait-Calm : (r : Round) → IsCalm (finish_wait env services ev r)
  unfolding finish_wait
  finish_wait-Calm (again st) = calm-pure _
  finish_wait-Calm (exhausted st) = calm-pure _
  finish_wait-Calm (broken st e) = calm-pure _
  finish_wait-Calm (done st) = calm-bind _ _ (check_transcript-Calm st) λ st'. calm-pure _

  pub observe_termination-Calm :
      (options : DoctorOptions) → IsCalm (observe_termination env services ev options)
  unfolding observe_termination
  observe_termination-Calm options = calm-bind (date_now env) _ (calm-observe _) λ date.
      calm-bind (performance_now env) _ (calm-observe _) λ now.
        calm-bind
          (wait_loop env services (ms options.termination_timeout_ms + 2) ev
            (date + options.termination_timeout_ms) (now + ms options.termination_timeout_ms)
            (initial_state env services))
          _ (wait_loop-Calm _ _ _ _) λ r. finish_wait-Calm r

-- A result that reports its signal: one more was sent exactly when it says so, it names the owner,
-- and nothing else is left behind.
pub record Reports (s : Log) (r : UnlockResult) (t : Log) : Type 0 where
  pub sent : signals t ≡ signals s + (if r.signal_sent then 1 else 0)
  pub same : r.changed ≡ r.signal_sent
  pub files : opens t + closes s ≡ opens s + closes t
  pub flocks : locks t + releases s ≡ locks s + releases t
