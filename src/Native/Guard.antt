-- ===== src/Native/Guard.antt =====
-- The guard file of src/native-coordination.ts: finding it, locking it, and the checks around a
-- probe. `GuardAttempt` says what the steps up to `flockSync` came to.
pub mod Laws
use codex_unlock.Base.{
  ℕ, String, Bool, true, false, not, ◌&&◌, ◌||◌, Option, none, some, ◌==◌, nat_eq, if◌then◌else◌,
}
use codex_unlock.Types.{ProbeStatus, LockProbe, GuardStatus, NativeGuardEvidence}
use codex_unlock.Util.{Error, error_text, ◌<>◌}
use codex_unlock.Io.{
  Env, Stats, is_file, is_directory, is_symbolic_link, M, ◌>>=◌, ◌>>◌, pure, try_catch, throw_error,
  new_error, lstat, stat, fstat, real_path, flock_exclusive, flock_release, close_file,
}
use codex_unlock.Lock.{LockFileObservation, is_missing, is_contention_error, probe_thread_lock_once}

pub record Site : Type 0 where
  pub path : String
  pub original_parent : String
  pub parent : String
  pub parent_before : Stats
  pub before : Stats

pub data Located : Type 0 where
  early : LockProbe → Located
  at_site : Site → Located

pub data GuardAttempt : Type 0 where
  moved : GuardAttempt
  busy acquired : Stats → GuardAttempt
  failed : Error → GuardAttempt

abbrev pub same_inode : Stats → Stats → Bool
same_inode l r = l.dev == r.dev && l.ino == r.ino

abbrev pub safe_guard : Stats → Option ℕ → Bool
safe_guard value none = false
safe_guard value (some uid) =
    is_file value && not (is_symbolic_link value) && value.uid == uid && value.nlink == 1

abbrev pub unknown_guard : GuardStatus → String → LockProbe
unknown_guard status error = record {
  status = ProbeStatus.unknown;
  error = some error;
  guard = some (record { status = status; attempts = some 1 });
}

abbrev pub unavailable : Error → M LockProbe
unavailable e =
    pure (unknown_guard GuardStatus.unsafe ("native_coordination_unavailable:" <> error_text e))

abbrev pub changed_guard : LockProbe
changed_guard = unknown_guard GuardStatus.changed "native_coordination_changed"

module _ (env : Env) where
  -- The guard's entry, or none where it does not exist.
  pub guard_entry : String → M (Option Stats)
  guard_entry path =
      try_catch (do value ← lstat env path; pure (some value))
        (λ e. if is_missing e then pure none else throw_error e)

  abbrev site_of : Site → Option Stats → Located
  site_of site none = early (unknown_guard GuardStatus.absent "native_coordination_absent")
  site_of site (some before) =
      if safe_guard before env.uid
      then at_site (record site { before = before })
      else early (unknown_guard GuardStatus.unsafe "native_coordination_unsafe")

  pub locate : String → M Located
  locate lock_path = do
    let original_parent = env.dirname lock_path
    parent ← real_path env original_parent
    parent_before ← stat env original_parent
    canonical ← stat env parent
    (if is_directory parent_before && same_inode parent_before canonical
        then (do
          let path = env.join parent ".coordination.lock"
          entry ← guard_entry path
          pure (
              site_of
                (record {
                  path = path;
                  original_parent = original_parent;
                  parent = parent;
                  parent_before = parent_before;
                  before = parent_before;
                })
                entry))
        else throw_error (new_error "native_coordination_parent_changed"))

  pub take_guard : Site → ℕ → M GuardAttempt
  take_guard site fd =
      try_catch
        (do
          opened ← fstat env fd
          (if safe_guard opened env.uid && same_inode site.before opened
              then try_catch (flock_exclusive env fd >> pure (acquired opened))
                  (λ e. if is_contention_error e then pure (busy opened) else throw_error e)
              else pure moved))
        (λ e. pure (failed e))

  -- `{ ...probeThreadLockOnce(…), guard: { status: "acquired", attempts: 1 } }`
  pub probe_acquired : String → LockFileObservation → M LockProbe
  probe_acquired lock_path o = do
    r ← probe_thread_lock_once env lock_path o
    pure (record r { guard = some (record { status = GuardStatus.acquired; attempts = some 1 }) })

  -- Under the guard: the path and its directory must be those that were opened.
  pub guarded_probe : String → LockFileObservation → Site → Stats → M LockProbe
  guarded_probe lock_path o site opened = do
    guarded_path ← lstat env site.path
    guarded_parent ← stat env site.original_parent
    (if safe_guard guarded_path env.uid
          && same_inode opened guarded_path
          && same_inode site.parent_before guarded_parent
        then (do
          parent ← stat env site.parent
          (if same_inode site.parent_before parent
              then probe_acquired lock_path o
              else pure changed_guard))
        else pure changed_guard)

  pub recheck_guard : Site → ℕ → Stats → LockProbe → M LockProbe
  recheck_guard site fd opened result = do
    after ← lstat env site.path
    descriptor_after ← fstat env fd
    parent_after ← stat env site.original_parent
    (if safe_guard after env.uid
          && safe_guard descriptor_after env.uid
          && same_inode opened after
          && same_inode opened descriptor_after
          && same_inode site.parent_before parent_after
        then (do
          parent ← stat env site.parent
          (if same_inode site.parent_before parent then pure result else pure changed_guard))
        else pure changed_guard)

  pub guard_work : String → LockFileObservation → Site → ℕ → GuardAttempt → M LockProbe
  guard_work lock_path o site fd moved = pure changed_guard
  guard_work lock_path o site fd (busy opened) =
      recheck_guard site fd opened (unknown_guard GuardStatus.busy "native_coordination_busy")
  guard_work lock_path o site fd (acquired opened) = do
    r ← guarded_probe lock_path o site opened
    recheck_guard site fd opened r
  guard_work lock_path o site fd (failed e) = throw_error e

  pub release_guard : ℕ → LockProbe → M LockProbe
  release_guard fd result = try_catch (flock_release env fd >> pure result) (λ e.
      pure
        (unknown_guard GuardStatus.unsafe ("native_coordination_release_failed:" <> error_text e)))

  pub close_guard : ℕ → LockProbe → M LockProbe
  close_guard fd result = try_catch (close_file env fd >> pure result) (λ e.
      pure (unknown_guard GuardStatus.unsafe ("native_coordination_close_failed:" <> error_text e)))

  pub finish_guard : ℕ → GuardAttempt → LockProbe → M LockProbe
  finish_guard fd (acquired opened) result = do r ← release_guard fd result; close_guard fd r
  finish_guard fd moved result = close_guard fd result
  finish_guard fd (busy opened) result = close_guard fd result
  finish_guard fd (failed e) result = close_guard fd result
