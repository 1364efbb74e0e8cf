-- ===== src/Native/Retry.antt =====
-- A retried probe leaves nothing behind.
use codex_unlock.Base.{ℕ, zero, suc, ◌+◌, ◌-◌, min, String, Option, arith, ◌∷◌}
use codex_unlock.Types.{LockProbe}
use codex_unlock.Io.{Env, M, observed, performance_now, waited}
use codex_unlock.Io.Calm.{
  Returned-map, calm_of_Returned, IsCalm, calm-bind, calm-observe, start-Holds,
}
use codex_unlock.Lock.{LockFileObservation, observe_lock_file}
use codex_unlock.Lock.Observe.{observe_lock_file-IsConsistent}
use codex_unlock.Native.{
  guarded_probe_once, retry_loop, probe_with_retry, earlier, retry_ms, retry_after,
  retry_interval_ms,
}
use codex_unlock.Native.Laws.{guarded_probe_once-IsSound}

-- Whatever the fuel and the clock, a retried probe leaves nothing behind.
retry_after-Calm :
    (env : Env) (deadline : ℕ) (r : LockProbe) (again : M LockProbe)
    → IsCalm again
    → IsCalm (retry_after env deadline r again)
unfolding retry_after
retry_after-Calm env deadline r again h = record {
  at = λ s. ground (
    arith,
    h.at (waited (min retry_interval_ms (deadline - env.performance_now s)) ∷ observed ∷ s),
  );
}

pub observe_lock_file-Calm : (env : Env) (path : String) → IsCalm (observe_lock_file env path)
observe_lock_file-Calm env path = calm_of_Returned _ λ s.
    Returned-map _ _ (observe_lock_file env path s) (observe_lock_file-IsConsistent env path s)
      λ o t h. h.0

pub guarded_probe_once-Calm :
    (env : Env) (path : String) (o : LockFileObservation) → IsCalm (guarded_probe_once env path o)
guarded_probe_once-Calm env path o = calm_of_Returned _ λ s.
    Returned-map _ _ (guarded_probe_once env path o s) (guarded_probe_once-IsSound env path o s)
      λ r t h. h.calm

retry_loop-Calm :
    (env : Env) (fuel : ℕ) (path : String) (deadline attempts : ℕ)
    → IsCalm (retry_loop env fuel path deadline attempts)
unfolding retry_loop
retry_loop-Calm env zero path deadline attempts = record { at = start-Holds }
retry_loop-Calm env (suc fuel) path deadline attempts =
    calm-bind _ _ (observe_lock_file-Calm env path) λ o.
      calm-bind _ _ (guarded_probe_once-Calm env path o) λ r.
        retry_after-Calm env deadline _ _ (retry_loop-Calm env fuel path deadline (attempts + 1))

pub probe_with_retry-Calm :
    (env : Env) (path : String) (caller : Option ℕ) → IsCalm (probe_with_retry env path caller)
unfolding probe_with_retry
probe_with_retry-Calm env path caller =
    calm-bind (performance_now env) _ (calm-observe _)
      λ now. retry_loop-Calm env (retry_ms + 1) path (earlier (now + retry_ms) caller) 0
