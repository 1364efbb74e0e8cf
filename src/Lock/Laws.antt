-- ===== src/Lock/Laws.antt =====
-- What the probe and the observations of the lock file guarantee.
use codex_unlock.Base.{
  ℕ, suc, ◌+◌, ◌≡◌, refl, String, Bool, true, false, none, arith, ◌⊎◌, inl, inr, ◌∷◌, Bool-cases,
  Option-cases,
}
use codex_unlock.Types.{ProbeStatus, LockProbe, PublicFileSnapshot}
use codex_unlock.Io.{Env, Log, then_run, Res-cases, opened, read_write}
use codex_unlock.Io.Calm.{Holds, start-Holds, locks, Returned, then_run-Returned, Returned-map}
use codex_unlock.Io.Answers.{Returned-and}
use codex_unlock.Lock.Denied.{IsDenied, probe_thread_lock_once-Held}
use codex_unlock.Lock.{
  LockFileObservation, Attempt, taken, not_taken, failed, take_lock, recheck, release_probe,
  close_probe, finish_probe, probe_file, probed, is_contention_error, is_unseen, probe_target,
  probe_thread_lock_once,
}

abbrev taken_locks : Attempt → ℕ
taken_locks (taken seen) = 1
taken_locks (not_taken seen r) = 0
taken_locks (failed e) = 0

-- A stage of a probe that began at `s`: `d` descriptors and `k` locks are held, `n` locks were
-- taken in all, and the result so far says free only after a lock was taken, held only without.
record Stage (d k n : ℕ) (s : Log) (r : LockProbe) (t : Log) : Type 0 where
  holds : Holds d k s t
  counted : locks t ≡ locks s + n
  free : r.status ≡ ProbeStatus.free → n ≡ 1
  held : r.status ≡ ProbeStatus.held → n ≡ 0

abbrev attempt_probe : Attempt → LockProbe
attempt_probe (taken seen) = probed ProbeStatus.free none
attempt_probe (not_taken seen r) = r
attempt_probe (failed e) = probed ProbeStatus.unknown none

module _ (env : Env) {s : Log} where
  take_lock-Stage :
      (fd : ℕ) (before : PublicFileSnapshot) (t : Log)
      → Holds 1 0 s t
      → locks t ≡ locks s
      → Returned
          (λ a u. Stage 1 (taken_locks a) (taken_locks a) s (attempt_probe a) u)
          (take_lock env fd before t)
  unfolding take_lock is_contention_error
  take_lock-Stage fd before t h e = ground arith

  recheck-Stage :
      (path : String) (seen : PublicFileSnapshot) (r : LockProbe) (d k n : ℕ) (t : Log)
      → Stage d k n s r t
      → Returned (λ a u. Stage d k n s a u) (recheck env path seen r t)
  unfolding recheck
  recheck-Stage path seen r d k n t h = ground arith

  release_probe-Stage :
      (fd : ℕ) (r : LockProbe) (n : ℕ) (t : Log)
      → Stage 1 1 n s r t
      → Returned (λ a u. Stage 1 0 n s a u) (release_probe env fd r t)
  unfolding release_probe
  release_probe-Stage fd r n t h = ground arith

  close_probe-Stage :
      (fd : ℕ) (r : LockProbe) (n : ℕ) (t : Log)
      → Stage 1 0 n s r t
      → Returned (λ a u. Stage 0 0 n s a u) (close_probe env fd r t)
  unfolding close_probe
  close_probe-Stage fd r n t h = ground arith

  finish_probe-Stage :
      (fd : ℕ) (path : String) (a : Attempt) (t : Log)
      → Stage 1 (taken_locks a) (taken_locks a) s (attempt_probe a) t
      → Returned (λ r u. Stage 0 0 (taken_locks a) s r u) (finish_probe env fd path a t)
  unfolding finish_probe
  finish_probe-Stage fd path (taken seen) t h =
      then_run-Returned _ _ (recheck env path seen _ t) _ (recheck-Stage path seen _ 1 1 1 t h)
        λ r u k.
          then_run-Returned _ _ (release_probe env fd r u) _ (release_probe-Stage fd r 1 u k)
            λ r' v l. close_probe-Stage fd r' 1 v l
  finish_probe-Stage fd path (not_taken seen result) t h =
      then_run-Returned _ _ (recheck env path seen result t) _
        (recheck-Stage path seen result 1 0 0 t h) λ r u k. close_probe-Stage fd r 0 u k
  finish_probe-Stage fd path (failed e) t h =
      close_probe-Stage fd _ 0 t
        (record { holds = h.holds; counted = h.counted; free = λ p. cc; held = λ p. cc })

-- What the result of a probe counts, by the locks taken since `s`.
record IsCounted (exists : Bool) (s : Log) (r : LockProbe) (t : Log) : Type 0 where
  pub calm : Holds 0 0 s t
  pub free : r.status ≡ ProbeStatus.free → (exists ≡ false) ⊎ (locks t ≡ suc (locks s))
  pub held : r.status ≡ ProbeStatus.held → (exists ≡ true) × (locks t ≡ locks s)

-- What the result of a probe of the file at the path may say, by the locks taken since `s`.
pub record IsSoundProbe (env : Env) (path : String) (exists : Bool) (s : Log) (r : LockProbe)
    (t : Log) : Type 0 where
  pub calm : Holds 0 0 s t
  pub free : r.status ≡ ProbeStatus.free → (exists ≡ false) ⊎ (locks t ≡ suc (locks s))
  pub held : r.status ≡ ProbeStatus.held → (exists ≡ true) × (locks t ≡ locks s) × IsDenied env path

module _ (env : Env) where
  start-Stage :
      (path : String) (before : PublicFileSnapshot) (fd : ℕ) (s t : Log)
      → Holds 1 0 s t
      → locks t ≡ locks s
      → Returned
          (λ r u. IsCounted true s r u)
          (then_run (take_lock env fd before t) (λ a. finish_probe env fd path a))
  start-Stage path before fd s t h e =
      then_run-Returned _ _ (take_lock env fd before t) _ (take_lock-Stage env fd before t h e)
        λ a u k.
          Returned-map _ _ (finish_probe env fd path a u) (finish_probe-Stage env fd path a u k)
            λ r v l. sound r v (taken_locks a) l
    where
      sound : (r : LockProbe) (v : Log) (n : ℕ) → Stage 0 0 n s r v → IsCounted true s r v
      sound r v n l = record {
        calm = l.holds;
        free = λ p. inr (omega (arith, l.free p, l.counted));
        held = λ p. (refl, omega (arith, l.held p, l.counted));
      }

  probe_file-IsSound :
      (path : String) (before : PublicFileSnapshot) (s : Log)
      → Returned (λ r t. IsCounted true s r t) (probe_file env path before s)
  unfolding probe_file
  probe_file-IsSound path before s = elim (Res-cases (env.open_file s path read_write)) [
    | inl (fd, e) ↦
        rw (e, probe_file) (start-Stage path before fd s (opened fd ∷ s) (omega arith) refl)
    | inr (x, e) ↦
        rw (e, probe_file) (record { calm = omega arith; free = λ p. cc; held = λ p. cc })
  ]

  probe_thread_lock_once-IsCounted :
      (path : String) (o : LockFileObservation) (s : Log)
      → Returned (λ r t. IsCounted o.exists s r t) (probe_thread_lock_once env path o s)
  unfolding probe_thread_lock_once
  probe_thread_lock_once-IsCounted path o s = elim (Bool-cases (is_unseen o.status)) [
    | inl unseen ↦ rw unseen (record { calm = start-Holds s; free = λ p. cc; held = λ p. cc })
    | inr seen ↦ elim (Bool-cases o.exists) [
      | inr gone ↦
          rw (seen, gone) (record { calm = start-Holds s; free = λ p. inl refl; held = λ p. cc })
      | inl there ↦ elim (Option-cases (probe_target o)) [
        | inl unfit ↦
            rw (seen, there, unfit)
              (record { calm = start-Holds s; free = λ p. cc; held = λ p. cc })
        | inr (before, fit) ↦ rw (seen, there, fit) (probe_file-IsSound path before s)
      ]
    ]
  ]

  -- The probe always returns a result. It sends no signal, closes the descriptor that it opened
  -- and releases the lock that it took, whatever fails. It says "free" only of a lock file that
  -- the observation found missing, or after taking the lock, and "held" only of an existing one
  -- without having taken the lock, where locking a descriptor that was opened for the file was
  -- refused with EAGAIN, EACCES or EWOULDBLOCK.
  pub probe_thread_lock_once-IsSound :
      (path : String) (o : LockFileObservation) (s : Log)
      → Returned (λ r t. IsSoundProbe env path o.exists s r t) (probe_thread_lock_once env path o s)
  probe_thread_lock_once-IsSound path o s =
      Returned-map _ _ (probe_thread_lock_once env path o s)
        (Returned-and _ _ (probe_thread_lock_once env path o s)
          (probe_thread_lock_once-IsCounted path o s)
          ((probe_thread_lock_once-Held env path o).at s))
        λ r t h. record {
          calm = h.0.calm;
          free = h.0.free;
          held = λ e. ((h.0.held e).0, (h.0.held e).1, h.1 e);
        }
