-- ===== src/Coordination/Laws.antt =====
-- The lease keeps one locked descriptor when it is acquired and none otherwise.
use codex_unlock.Base.{
  ℕ, ◌+◌, ◌≡◌, String, false, Option, none, some, arith, ◌∷◌, length, ◌≤◌, inl, inr,
}
use codex_unlock.Io.{
  Env, Stats, Log, Res, ok, throw, attempt_run, create_read_write, opened, closed, released, pure,
  Res-cases,
}
use codex_unlock.Io.Calm.{
  signals, opens, closes, locks, releases, Returned, Outcome, or_handle-Returned,
}
use codex_unlock.Lock.{is_contention_error}
use codex_unlock.Coordination.{
  LeaseLocation, UnlockLease, UnlockLeaseAttempt, acquired, contended, unknown, lock_directory,
  lease_location, prepare_directory, close_quietly, confirm_lease, lock_lease, open_lease,
  place_lease, acquire_unlock_lease, release_lease, acquire_as, location_error,
}

-- No signal, and `d` descriptors more.
pub record Keeps (d : ℕ) (s t : Log) : Type 0 where
  pub quiet : signals t ≡ signals s
  pub files : opens t + closes s ≡ opens s + closes t + d
  pub grows : length s ≤ length t

abbrev pub lease_files : UnlockLeaseAttempt → ℕ
lease_files (acquired lease) = 1
lease_files contended = 0
lease_files (unknown reason) = 0

-- An acquired lease was locked since `s`, and is not released yet.
abbrev pub IsLocked : UnlockLeaseAttempt → Log → Log → Type 0
IsLocked (acquired lease) s t =
    (locks t ≡ locks s + 1) × (releases t ≡ releases s) × (lease.is_released ≡ false)
IsLocked contended s t = Unit {0}
IsLocked (unknown reason) s t = Unit {0}

module _ (env : Env) where
  place_lease-Holds :
      (home id : String) (uid : ℕ) (s : Log)
      → Outcome
          (λ p t. Keeps 0 s t × (locks t ≡ locks s) × (releases t ≡ releases s))
          (λ t. Keeps 0 s t)
          (place_lease env home id uid s)
  unfolding place_lease lease_location lock_directory prepare_directory
  place_lease-Holds home id uid s = ground arith

  lock_lease-Keeps :
      (location : LeaseLocation) (value : Stats) (uid fd : ℕ) (s t : Log)
      → Keeps 1 s t
      → locks t ≡ locks s
      → releases t ≡ releases s
      → Outcome
          (λ a u. Keeps (lease_files a) s u × IsLocked a s u)
          (λ u. Keeps 1 s u)
          (lock_lease env location value uid fd t)
  unfolding lock_lease confirm_lease close_quietly is_contention_error
  lock_lease-Keeps location value uid fd s t h e k = ground arith

  open_lease-Keeps :
      (location : LeaseLocation) (value : Stats) (uid : ℕ) (s t : Log)
      → Keeps 0 s t
      → locks t ≡ locks s
      → releases t ≡ releases s
      → Returned
          (λ a u. Keeps (lease_files a) s u × IsLocked a s u)
          (open_lease env location value uid t)
  unfolding open_lease close_quietly
  open_lease-Keeps location value uid s t h e k =
      elim (Res-cases (env.open_file t location.path create_read_write)) [
        | inr (x, q) ↦ rw (q, open_lease) (omega arith)
        | inl (fd, q) ↦
            rw (q, open_lease)
              (or_handle-Returned _ _ (lock_lease env location value uid fd (opened fd ∷ t)) _
                (lock_lease-Keeps location value uid fd s (opened fd ∷ t) (omega arith) e k)
                λ x u j. ground arith)
      ]

  acquire_as-Keeps :
      (home id : String) (uid : Option ℕ) (s : Log)
      → Returned (λ a u. Keeps (lease_files a) s u × IsLocked a s u) (acquire_as env home id uid s)
  acquire_as-Keeps home id none s = omega arith
  acquire_as-Keeps home id (some uid) s =
      after (place_lease env home id uid s) (place_lease-Holds home id uid s)
    where
      after :
          (p : Res (LeaseLocation × Stats) × Log)
          → Outcome
              (λ p t. Keeps 0 s t × (locks t ≡ locks s) × (releases t ≡ releases s))
              (λ t. Keeps 0 s t)
              p
          → Returned
              (λ a u. Keeps (lease_files a) s u × IsLocked a s u)
              (attempt_run p (λ p. open_lease env p.0 p.1 uid) (λ e. pure (location_error env e)))
      after (ok q, t) h = open_lease-Keeps q.0 q.1 uid s t h.0 h.1 h.2
      after (throw e, t) h = (h, tt)

  -- Asking for a lease never throws and sends no signal. When it is acquired, one more descriptor
  -- is open and its lock was taken and not released since; when it is contended or unknown, every
  -- descriptor that was opened on the way is closed.
  pub acquire_unlock_lease-Keeps :
      (home id : String) (s : Log)
      → Returned
          (λ a u. Keeps (lease_files a) s u × IsLocked a s u)
          (acquire_unlock_lease env home id s)
  unfolding acquire_unlock_lease
  acquire_unlock_lease-Keeps home id s = acquire_as-Keeps home id env.uid s

  -- Releasing a lease releases its lock and closes its descriptor once, whatever those calls
  -- answer; releasing it again does nothing.
  pub release_lease-once :
      (lease : UnlockLease) (s : Log)
      → lease.is_released ≡ false
      → Returned
          (λ l t.
            (t ≡ closed lease.descriptor ∷ released lease.descriptor ∷ s)
            × (release_lease env l t ≡ (ok l, t)))
          (release_lease env lease s)
  unfolding release_lease
  release_lease-once lease s h = ground arith
