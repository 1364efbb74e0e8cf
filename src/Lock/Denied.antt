-- ===== src/Lock/Denied.antt =====
-- A probe that says "held" was refused the lock by another holder.
use codex_unlock.Base.{
  ℕ, ◌≡◌, refl, String, true, not, ◌&&◌, ◌||◌, Option, none, some, ◌==◌, string_eq, ◌⊎◌, inl, inr,
  eq_of_test, or-eq-true, Bool-cases,
}
use codex_unlock.Types.{ProbeStatus, LockProbe, PublicFileSnapshot}
use codex_unlock.Util.{Error, error_text}
use codex_unlock.Util.PublicSnapshot.{snapshot}
use codex_unlock.Io.{
  Env, Log, M, Res, ok, throw, ◌>>=◌, pure, or_handle, then_run, attempt_run, opening, locking,
  lstat, fstat, close_file, flock_release, is_file, read_write,
}
use codex_unlock.Io.Answers.{
  Answers, Yields, Yields-bind, Yields-catch, Yields-pure, Yields-if, Yields-then,
}
use codex_unlock.Lock.{
  LockFileObservation, Attempt, taken, not_taken, failed, take_lock, recheck, release_probe,
  close_probe, finish_probe, probe_file, probed, refused, is_contention_error, is_unseen, same_file,
  probe_target, probe_thread_lock_once,
}

-- An error of a lock that another process has.
abbrev pub IsContention : Error → Type 0
IsContention e = (e.code ≡ "EAGAIN") ⊎ ((e.code ≡ "EACCES") ⊎ (e.code ≡ "EWOULDBLOCK"))

is_contention_error-IsContention : (e : Error) → is_contention_error e ≡ true → IsContention e
unfolding is_contention_error
is_contention_error-IsContention e h =
    elim (or-eq-true (e.code == "EAGAIN" || e.code == "EACCES") (e.code == "EWOULDBLOCK") h) [
      | inr q ↦ inr (inr (eq_of_test e.code "EWOULDBLOCK" q))
      | inl q ↦ elim (or-eq-true (e.code == "EAGAIN") (e.code == "EACCES") q) [
        | inl k ↦ inl (eq_of_test e.code "EAGAIN" k)
        | inr k ↦ inr (inl (eq_of_test e.code "EACCES" k))
      ]
    ]

module _ (env : Env) where
  -- Locking the descriptor failed since another process has the lock.
  abbrev pub IsRefused : ℕ → Type 0
  IsRefused fd = (s : Log) × (e : Error) × (env.flock_exclusive s fd ≡ throw e) × IsContention e

  -- The same of a descriptor that was opened for the file at the path.
  abbrev pub IsDenied : String → Type 0
  IsDenied path = (fd : ℕ) × (s : Log) × (env.open_file s path read_write ≡ ok fd) × IsRefused fd

  abbrev IfHeld : Type 0 → LockProbe → Type 0
  IfHeld D r = r.status ≡ ProbeStatus.held → D

  abbrev AttemptHeld : Type 0 → Attempt → Type 0
  AttemptHeld D (taken seen) = Unit {0}
  AttemptHeld D (not_taken seen r) = IfHeld D r
  AttemptHeld D (failed e) = Unit {0}

  refused_held :
      (fd : ℕ) (s : Log) (e : Error)
      → env.flock_exclusive s fd ≡ throw e
      → IfHeld (IsRefused fd) (refused e)
  refused_held fd s e q = elim (Bool-cases (is_contention_error e)) [
    | inl k ↦ rw k (λ h. (s, e, q, is_contention_error-IsContention e k))
    | inr k ↦ rw k (λ h. cc)
  ]

  flocked :
      (fd : ℕ) (seen : PublicFileSnapshot) (s : Log) (r : Res (Unit {0}))
      → env.flock_exclusive s fd ≡ r
      → Answers (AttemptHeld (IsRefused fd)) (
          or_handle
            (then_run (r, locking fd r s) (λ u. pure (taken seen)))
            (λ e. pure (not_taken seen (refused e))))
  flocked fd seen s (ok u) q = tt
  flocked fd seen s (throw e) q = refused_held fd s e q

  take_lock-Held :
      (fd : ℕ) (before : PublicFileSnapshot)
      → Yields (AttemptHeld (IsRefused fd)) (take_lock env fd before)
  unfolding take_lock
  take_lock-Held fd before =
      Yields-catch _ _ _
        (Yields-bind _ (fstat env fd) _ λ value. Yields-bind _ (snapshot value) _ λ seen.
          Yields-if _ (is_file value && same_file seen before) _ _
            (λ e. record { at = λ s. flocked fd seen s (env.flock_exclusive s fd) refl })
            λ e. record { at = λ s. tt })
        λ e. Yields-pure _ _ tt

  module _ (D : Type 0) where
    recheck-Held :
        (path : String) (seen : PublicFileSnapshot) (r : LockProbe)
        → IfHeld D r
        → Yields (IfHeld D) (recheck env path seen r)
    unfolding recheck
    recheck-Held path seen r h =
        Yields-catch _ _ _
          (Yields-bind _ (lstat env path) _ λ value. Yields-bind _ (snapshot value) _ λ after.
            Yields-if _ (same_file after seen) _ _ (λ e. Yields-pure (IfHeld D) r h)
              λ e. record { at = λ s. tt })
          λ e. Yields-pure (IfHeld D) _ (λ k. cc)

    release_probe-Held :
        (fd : ℕ) (r : LockProbe) → IfHeld D r → Yields (IfHeld D) (release_probe env fd r)
    unfolding release_probe
    release_probe-Held fd r h =
        Yields-catch _ _ _ (Yields-bind _ (flock_release env fd) _ λ u. Yields-pure (IfHeld D) r h)
          λ e. Yields-pure (IfHeld D) _ (λ k. cc)

    close_probe-Held :
        (fd : ℕ) (r : LockProbe) → IfHeld D r → Yields (IfHeld D) (close_probe env fd r)
    unfolding close_probe
    close_probe-Held fd r h =
        Yields-catch _ _ _ (Yields-bind _ (close_file env fd) _ λ u. Yields-pure (IfHeld D) r h)
          λ e. Yields-pure (IfHeld D) _ (λ k. cc)

    finish_probe-Held :
        (fd : ℕ) (path : String) (a : Attempt)
        → AttemptHeld D a
        → Yields (IfHeld D) (finish_probe env fd path a)
    unfolding finish_probe
    finish_probe-Held fd path (taken seen) h =
        Yields-then (IfHeld D) (IfHeld D) (recheck env path seen _) _
          (recheck-Held path seen _ (λ k. cc))
          λ r k.
            Yields-then (IfHeld D) (IfHeld D) (release_probe env fd r) _ (release_probe-Held fd r k)
              λ r' l. close_probe-Held fd r' l
    finish_probe-Held fd path (not_taken seen r) h =
        Yields-then (IfHeld D) (IfHeld D) (recheck env path seen r) _ (recheck-Held path seen r h)
          λ r' k. close_probe-Held fd r' k
    finish_probe-Held fd path (failed e) h = close_probe-Held fd _ (λ k. cc)

  opened_probe :
      (path : String) (before : PublicFileSnapshot) (s : Log) (r : Res ℕ)
      → env.open_file s path read_write ≡ r
      → Answers (IfHeld (IsDenied path)) (
          attempt_run
            (r, opening r s)
            (λ fd. take_lock env fd before >>= (λ a. finish_probe env fd path a))
            (λ e. pure (probed ProbeStatus.unknown (some (error_text e)))))
  opened_probe path before s (throw e) q = λ k. cc
  opened_probe path before s (ok fd) q =
      (Yields-then (AttemptHeld (IsRefused fd)) (IfHeld (IsDenied path)) (take_lock env fd before) _
          (take_lock-Held fd before)
          λ a h. finish_probe-Held (IsDenied path) fd path a (lifted a h)).at
        (opening (ok fd) s)
    where
      lifted : (a : Attempt) → AttemptHeld (IsRefused fd) a → AttemptHeld (IsDenied path) a
      lifted (taken seen) h = tt
      lifted (not_taken seen r) h = λ k. (fd, s, q, h k)
      lifted (failed e) h = tt

  probe_file-Held :
      (path : String) (before : PublicFileSnapshot)
      → Yields (IfHeld (IsDenied path)) (probe_file env path before)
  unfolding probe_file
  probe_file-Held path before = record {
    at = λ s. opened_probe path before s (env.open_file s path read_write) refl;
  }

  pub probe_thread_lock_once-Held :
      (path : String) (o : LockFileObservation)
      → Yields
          (λ r. r.status ≡ ProbeStatus.held → IsDenied path)
          (probe_thread_lock_once env path o)
  unfolding probe_thread_lock_once
  probe_thread_lock_once-Held path o =
      Yields-if _ (is_unseen o.status) _ _ (λ e. Yields-pure (IfHeld (IsDenied path)) _ (λ k. cc))
        λ e.
          Yields-if _ (not o.exists) _ _ (λ e. Yields-pure (IfHeld (IsDenied path)) _ (λ k. cc))
            λ e. by_target (probe_target o)
    where
      by_target :
          (t : Option PublicFileSnapshot)
          → Yields (IfHeld (IsDenied path)) (elim t as (λ _. M LockProbe) [
            | none ↦ pure (
                probed ProbeStatus.unknown
                  (some "refusing to probe a symlink or non-regular lock file"))
            | some seen ↦ probe_file env path seen
          ])
      by_target none = Yields-pure (IfHeld (IsDenied path)) _ (λ k. cc)
      by_target (some seen) = probe_file-Held path seen
