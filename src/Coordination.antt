-- ===== src/Coordination.antt =====
-- src/coordination.ts: the lease that serialises unlocks of one thread.
pub mod Laws
use Prim.Native.Nat.{bit_and}
use codex_unlock.Base.{
  ℕ, String, Bool, true, false, not, ◌&&◌, ◌||◌, Option, none, some, List, [], ◌∷◌, ◌==◌, nat_eq,
  string_eq, if◌then◌else◌,
}
use codex_unlock.Util.{Error, ErrorClass, plain, own, syntax, ◌<>◌}
use codex_unlock.Io.{
  Env, Stats, is_file, is_directory, is_symbolic_link, M, ◌>>=◌, ◌>>◌, pure, try_catch, attempt,
  throw_error, own_error, lstat, fstat, open_file, close_file, flock_exclusive, flock_release,
  real_path, make_directory, change_mode, create_read_write,
}
use codex_unlock.Lock.{is_contention_error}
use codex_unlock.Native.Guard.{same_inode}

pub record LeaseLocation : Type 0 where
  pub directory : String
  pub path : String

pub record UnlockLease : Type 0 where
  pub descriptor : ℕ
  pub is_released : Bool

pub data UnlockLeaseAttempt : Type 0 where
  acquired : UnlockLease → UnlockLeaseAttempt
  contended : UnlockLeaseAttempt
  unknown : String → UnlockLeaseAttempt

-- `(mode & 0o077) === 0`
abbrev pub is_private_mode : Stats → Bool
is_private_mode value = bit_and value.mode 0o077 == 0

pub private_directory : Stats → ℕ → Bool
private_directory value uid =
    is_directory value && not (is_symbolic_link value) && value.uid == uid && is_private_mode value

pub private_file : Stats → ℕ → Bool
private_file value uid =
    is_file value && value.uid == uid && value.nlink == 1 && is_private_mode value

abbrev pub is_own : ErrorClass → Bool
is_own own = true
is_own plain = false
is_own syntax = false

module _ (env : Env) where
  -- Any failure becomes the module's own error.
  abbrev or_own {ℓ} : {A : Type ℓ} → M A → String → M A
  or_own m message = try_catch m (λ e. throw_error (own_error message))

  pub lock_directory : String → M (String × Stats)
  lock_directory codex_home =
      or_own
        (do
          path ← real_path env (env.join codex_home "thread-writer-locks")
          identity ← lstat env path
          pure (path, identity))
        "lock_directory_unavailable"

  abbrev lease_key : Stats → String → String
  lease_key identity thread_id = env.sha256_text (
      "codex-unlock-lease-v2"
      ∷ "\0"
      ∷ env.show_number identity.dev
      ∷ "\0"
      ∷ env.show_number identity.ino
      ∷ "\0"
      ∷ thread_id
      ∷ [])

  pub lease_location : String → String → ℕ → M LeaseLocation
  lease_location codex_home thread_id uid = do
    found ← lock_directory codex_home
    let parent = env.dirname found.0
    (if is_directory found.1
        then (do
          parent_value ← or_own (lstat env parent) "coordination_parent_unavailable"
          let directory = env.join parent "codex-unlock"
          (if is_directory parent_value && parent_value.uid == uid
              then pure (record {
                directory = directory;
                path = env.join directory (lease_key found.1 thread_id <> ".lock");
              })
              else throw_error (own_error "coordination_parent_is_not_owned")))
        else throw_error (own_error "lock_directory_unavailable"))

  pub prepare_directory : String → ℕ → M Stats
  prepare_directory directory uid = do
    try_catch (make_directory env directory) (λ e.
        if e.code == "EEXIST"
        then pure tt
        else throw_error (own_error "coordination_directory_unavailable"))
    value ← or_own (lstat env directory) "coordination_directory_unavailable"
    (if private_directory value uid
        then or_own (change_mode env directory) "coordination_directory_unavailable" >> pure value
        else throw_error (own_error "coordination_directory_is_not_private"))

  pub close_quietly : ℕ → M (Unit {0})
  close_quietly fd = try_catch (close_file env fd) (λ e. pure tt)

  -- A refusal after the file was opened. Closing the descriptor drops its lock, if there is one.
  abbrev pub refuse : ℕ → UnlockLeaseAttempt → M UnlockLeaseAttempt
  refuse fd a = close_quietly fd >> pure a

  -- With the lock taken: the path must still name the locked file in the validated directory.
  pub confirm_lease : LeaseLocation → Stats → ℕ → ℕ → Stats → M UnlockLeaseAttempt
  confirm_lease location directory_value uid fd value = do
    directory_after ← lstat env location.directory
    path_after ← lstat env location.path
    (if same_inode directory_value directory_after
          && private_directory directory_after uid
          && same_inode value path_after
        then pure (acquired (record { descriptor = fd; is_released = false }))
        else refuse fd (unknown "coordination_path_changed"))

  pub lock_lease : LeaseLocation → Stats → ℕ → ℕ → M UnlockLeaseAttempt
  lock_lease location directory_value uid fd = do
    value ← fstat env fd
    (if private_file value uid
        then attempt (flock_exclusive env fd)
            (λ u. confirm_lease location directory_value uid fd value)
            (λ e.
              refuse fd
                (if is_contention_error e then contended else unknown "coordination_lock_failed"))
        else refuse fd (unknown "coordination_file_is_not_private"))

  pub open_lease : LeaseLocation → Stats → ℕ → M UnlockLeaseAttempt
  open_lease location directory_value uid =
      attempt (open_file env location.path create_read_write)
        (λ fd.
          try_catch (lock_lease location directory_value uid fd)
            (λ e. refuse fd (unknown "coordination_file_unavailable")))
        (λ e. pure (unknown "coordination_file_unavailable"))

  abbrev pub location_error : Error → UnlockLeaseAttempt
  location_error e =
      unknown (if is_own e.class then e.message else "coordination_directory_unavailable")

  pub place_lease : String → String → ℕ → M (LeaseLocation × Stats)
  place_lease codex_home thread_id uid = do
    location ← lease_location codex_home thread_id uid
    directory_value ← prepare_directory location.directory uid
    pure (location, directory_value)

  abbrev pub acquire_as : String → String → Option ℕ → M UnlockLeaseAttempt
  acquire_as codex_home thread_id none = pure (unknown "current_user_is_unavailable")
  acquire_as codex_home thread_id (some uid) =
      attempt (place_lease codex_home thread_id uid) (λ p. open_lease p.0 p.1 uid)
        (λ e. pure (location_error e))

  pub acquire_unlock_lease : String → String → M UnlockLeaseAttempt
  acquire_unlock_lease codex_home thread_id = acquire_as codex_home thread_id env.uid

  -- The second call of `release` does nothing.
  pub release_lease : UnlockLease → M UnlockLease
  release_lease lease = if lease.is_released then pure lease else (do
    try_catch (flock_release env lease.descriptor) (λ e. pure tt)
    try_catch (close_file env lease.descriptor) (λ e. pure tt)
    pure (record lease { is_released = true }))
