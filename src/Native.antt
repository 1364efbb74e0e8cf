-- ===== src/Native.antt =====
-- src/native-coordination.ts: the probe under the native coordination guard, once and retried.
pub mod Guard
pub mod Laws
pub mod Retry
use codex_unlock.Base.{
  ℕ, zero, suc, ◌+◌, ◌-◌, min, String, Bool, true, false, not, ◌&&◌, ◌||◌, Option, none, some, ◌==◌,
  nat_eq, leb, if◌then◌else◌,
}
use codex_unlock.Types.{
  Presence, ProbeStatus, LockProbe, GuardStatus, NativeGuardEvidence, PublicFileSnapshot, is_busy,
}
use codex_unlock.Util.{Error, error_text, ◌<>◌}
use codex_unlock.Io.{
  Env, M, ◌>>=◌, ◌>>◌, pure, try_catch, attempt, delay, performance_now, open_file, read_only,
  new_error, throw_error, ms,
}
use codex_unlock.Lock.{
  LockFileObservation, observe_lock_file, probe_thread_lock_once, probed, or_text, probe_target,
}
use Guard.{
  Site, Located, early, at_site, GuardAttempt, locate, take_guard, guard_work, finish_guard,
  unknown_guard, unavailable,
}

module _ (env : Env) where
  -- Everything from the open on: the `try` block and its `finally`.
  pub guard_session : String → LockFileObservation → Site → ℕ → M LockProbe
  guard_session lock_path o site fd = do
    a ← take_guard env site fd
    r ← try_catch (guard_work env lock_path o site fd a) unavailable
    finish_guard env fd a r

  pub at_guard : String → LockFileObservation → Located → M LockProbe
  at_guard lock_path o (early r) = pure r
  at_guard lock_path o (at_site site) =
      attempt (open_file env site.path read_only) (guard_session lock_path o site) unavailable

  pub guarded_file : String → LockFileObservation → M LockProbe
  guarded_file lock_path o = attempt (locate env lock_path) (at_guard lock_path o) unavailable

  pub guarded_target : String → LockFileObservation → Option PublicFileSnapshot → M LockProbe
  guarded_target lock_path o (some seen) = guarded_file lock_path o
  guarded_target lock_path o none =
      pure (unknown_guard GuardStatus.unsafe "refusing to probe a symlink or non-regular lock file")

  pub guarded_by : String → LockFileObservation → Presence → M LockProbe
  guarded_by lock_path o Presence.absent = pure (probed ProbeStatus.free none)
  guarded_by lock_path o Presence.unknown =
      pure (probed ProbeStatus.unknown (some (or_text o.error "lock file observation failed")))
  guarded_by lock_path o Presence.present = guarded_target lock_path o (probe_target o)

  -- The test-only hooks are left out.
  pub guarded_probe_once : String → LockFileObservation → M LockProbe
  guarded_probe_once lock_path o = guarded_by lock_path o o.status

abbrev pub retry_ms : ℕ
retry_ms = ms 100

abbrev pub retry_interval_ms : ℕ
retry_interval_ms = ms 10

-- `Math.min(deadline, callerDeadline)`, where none is Infinity.
abbrev pub earlier : ℕ → Option ℕ → ℕ
earlier d none = d
earlier d (some c) = min d c

abbrev pub counted : ℕ → LockProbe → LockProbe
counted attempts r = record r {
  guard = elim r.guard [
    | none ↦ none
    | some g ↦ some (record { status = g.status; attempts = some attempts })
  ];
}

module _ (env : Env) where
  -- The end of a round: return, or wait and go on as `again` does.
  pub retry_after : ℕ → LockProbe → M LockProbe → M LockProbe
  retry_after deadline result again = do
    now ← performance_now env
    elim (not (is_busy result.guard) || leb deadline now) [
      | true ↦ pure result
      | false ↦ delay (min retry_interval_ms (deadline - now)) >> again
    ]

  pub retry_loop : ℕ → String → ℕ → ℕ → M LockProbe
  retry_loop zero lock_path deadline attempts = throw_error (new_error "out of fuel")
  retry_loop (suc fuel) lock_path deadline attempts = do
    o ← observe_lock_file env lock_path
    r ← guarded_probe_once env lock_path o
    retry_after deadline (counted (attempts + 1) r)
        (retry_loop fuel lock_path deadline (attempts + 1))

  -- The fuel is one round for each microsecond until the deadline, and one more.
  pub probe_with_retry : String → Option ℕ → M LockProbe
  probe_with_retry lock_path caller_deadline = do
    now ← performance_now env
    retry_loop (retry_ms + 1) lock_path (earlier (now + retry_ms) caller_deadline) 0
