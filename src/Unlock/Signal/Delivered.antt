-- ===== src/Unlock/Signal/Delivered.antt =====
-- A result that says the signal was sent comes from a delivered signal.
use codex_unlock.Base.{◌≡◌, refl, true, some, ◌∷◌}
use codex_unlock.Types.{DoctorOptions, ProcessInfo, UnlockResult}
use codex_unlock.Io.{Env, Log, Res, ok, throw, then_run, pure, signalled}
use codex_unlock.Io.Calm.{Outcome}
use codex_unlock.Unlock.Observers.{Services}
use codex_unlock.Unlock.Signal.{
  RevalidatedUnlockEvidence, terminate_revalidated_owner, observe_termination, signalled_result,
  unsignalled_result, PostSignalState,
}

-- If the result says that it sent a signal, then `terminate` at `t` reached this process.
abbrev pub IsDelivered : Env → Log → ProcessInfo → UnlockResult → Type 0
IsDelivered env t o r =
    r.signal_sent ≡ true → (env.terminate t o.pid ≡ ok tt) × (r.pid ≡ some o.pid)

module _ (env : Env) (services : Services) (ev : RevalidatedUnlockEvidence)
    (options : DoctorOptions) (t : Log) where
  after_signal :
      (p : Res PostSignalState × Log)
      → env.terminate t ev.owner.pid ≡ ok tt
      → Outcome
          (λ r u. IsDelivered env t ev.owner r)
          (λ u. Unit {0})
          (then_run p (λ st. pure (signalled_result env services ev st)))
  unfolding signalled_result
  after_signal (ok st, v) h = λ k. (h, refl)
  after_signal (throw e, v) h = tt

  signalled-Delivered :
      (q : Res (Unit {0}))
      → env.terminate t ev.owner.pid ≡ q
      → Outcome
          (λ r u. IsDelivered env t ev.owner r)
          (λ u. Unit {0})
          (terminate_revalidated_owner env services ev options t)
  unfolding terminate_revalidated_owner unsignalled_result
  signalled-Delivered (throw e) h = rw (h, terminate_revalidated_owner) (λ k. cc)
  signalled-Delivered (ok u) h =
      rw (h, terminate_revalidated_owner)
        (after_signal (observe_termination env services ev options (signalled ev.owner.pid ∷ t)) h)

  pub terminate_revalidated_owner-Delivered :
      Outcome
        (λ r u. IsDelivered env t ev.owner r)
        (λ u. Unit {0})
        (terminate_revalidated_owner env services ev options t)
  terminate_revalidated_owner-Delivered = signalled-Delivered (env.terminate t ev.owner.pid) refl
