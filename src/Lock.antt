-- ===== src/Lock.antt =====
-- src/lock.ts: what is seen of a thread's lock file and its directory, and the nonblocking probe.
pub mod Denied
pub mod Directory
pub mod Laws
pub mod Observe
use codex_unlock.Base.{
  ℕ, String, Bool, true, false, not, ◌&&◌, ◌||◌, Option, none, some, ◌==◌, nat_eq, string_eq,
  if◌then◌else◌,
}
use codex_unlock.Types.{Presence, ProbeStatus, LockProbe, PublicFileSnapshot}
use codex_unlock.Util.{Error, error_text, ◌<>◌}
use codex_unlock.Util.PublicSnapshot.{public_snapshot, snapshot}
use codex_unlock.Io.{
  Stats, is_file, is_directory, is_symbolic_link, Env, M, Res, ok, throw, ◌>>=◌, ◌>>◌, pure,
  try_catch, attempt, throw_error, new_error, lstat, stat, fstat, open_file, close_file,
  flock_exclusive, flock_release, read_write,
}

pub record LockFileObservation : Type 0 where
  pub status : Presence
  pub exists : Bool
  pub regular_file : Option Bool
  pub symlink : Option Bool
  pub owned_by_current_user : Option Bool
  pub snapshot : Option PublicFileSnapshot
  pub error : Option String

pub data Scope : Type 0 where
  codex_home lock_directory : Scope

pub data LockDirectoryObservation : Type 0 where
  present not_created : LockDirectoryObservation
  unknown : Scope → String → LockDirectoryObservation

pub data DirectoryState : Type 0 where
  directory missing other : DirectoryState

abbrev pub is_missing : Error → Bool
is_missing e = e.code == "ENOENT"

abbrev pub directory_of : Stats → DirectoryState
directory_of value = if is_directory value then directory else other

-- EAGAIN, EACCES or EWOULDBLOCK: another process has the lock.
unfoldable pub is_contention_error : Error → Bool
is_contention_error e = e.code == "EAGAIN" || e.code == "EACCES" || e.code == "EWOULDBLOCK"

abbrev pub unseen : Presence → Option String → LockFileObservation
unseen status error = record {
  status = status;
  exists = false;
  regular_file = none;
  symlink = none;
  owned_by_current_user = none;
  snapshot = none;
  error = error;
}

abbrev pub probed : ProbeStatus → Option String → LockProbe
probed status error = record { status = status; error = error; guard = none }

abbrev pub or_text : Option String → String → String
or_text none text = text
or_text (some e) text = e

-- What a file that is not there says, by what is known of its directory.
abbrev pub absence : Error → Option LockDirectoryObservation → LockFileObservation
absence e none = unseen Presence.unknown (some (error_text e))
absence e (some present) = unseen Presence.absent none
absence e (some not_created) = unseen Presence.absent none
absence e (some (unknown scope text)) = unseen Presence.unknown (some text)

abbrev pub owned_by : Option ℕ → ℕ → Option Bool
owned_by none owner = none
owned_by (some u) owner = some (owner == u)

abbrev pub is_unseen : Presence → Bool
is_unseen Presence.unknown = true
is_unseen _ = false

-- What taking the lock through an open descriptor came to.
pub data Attempt : Type 0 where
  taken : PublicFileSnapshot → Attempt
  not_taken : PublicFileSnapshot → LockProbe → Attempt
  failed : Error → Attempt

abbrev pub refused : Error → LockProbe
refused e =
    if is_contention_error e
    then probed ProbeStatus.held none
    else probed ProbeStatus.unknown (some (error_text e))

abbrev pub same_file : PublicFileSnapshot → PublicFileSnapshot → Bool
same_file l r = l.device == r.device && l.inode == r.inode

abbrev pub is_true : Option Bool → Bool
is_true none = false
is_true (some b) = b

-- `before.symlink || !before.regularFile || !before.snapshot`, or the snapshot to probe with.
abbrev pub probe_target : LockFileObservation → Option PublicFileSnapshot
probe_target o = if is_true o.symlink || not (is_true o.regular_file) then none else o.snapshot

module _ (env : Env) where
  pub directory_state : String → M DirectoryState
  directory_state path =
      try_catch (do value ← stat env path; pure (directory_of value))
        (λ e. if is_missing e then pure missing else throw_error e)

  -- The lock directory's state, when the home is a directory.
  pub observe_inside : String → M LockDirectoryObservation
  observe_inside path =
      try_catch
        (do
          state ← directory_state path
          elim state [
            | directory ↦ pure present
            | other ↦ pure (unknown lock_directory ("lock directory is not a directory: " <> path))
            | missing ↦
                try_catch
                  (do
                    value ← lstat env path
                    pure
                        (unknown lock_directory ("lock directory is a dangling symlink: " <> path)))
                  (λ e. if is_missing e then pure not_created else throw_error e)
          ])
        (λ e. pure (unknown lock_directory (error_text e)))

  pub observe_lock_directory : String → M LockDirectoryObservation
  observe_lock_directory path = do
    let home_path = env.dirname path
    home ←
        try_catch
          (do
            state ← directory_state home_path
            pure (elim state [
              | missing ↦ some ("Codex home does not exist: " <> home_path)
              | other ↦ some ("Codex home is not a directory: " <> home_path)
              | directory ↦ none
            ]))
          (λ e. pure (some (error_text e)))
    elim home [ some text ↦ pure (unknown codex_home text) | none ↦ observe_inside path ]

  -- The directory is looked at where the file is missing, and not after another error.
  pub directory_after : Error → String → M (Option LockDirectoryObservation)
  directory_after e path =
      if is_missing e
      then (observe_lock_directory (env.dirname path) >>= (λ d. pure (some d)))
      else pure none

  pub seen_file : String → M LockFileObservation
  seen_file path = do
    value ← lstat env path
    seen ← snapshot value
    pure (record {
      status = Presence.present;
      exists = true;
      regular_file = some (is_file value);
      symlink = some (is_symbolic_link value);
      owned_by_current_user = owned_by env.uid value.uid;
      snapshot = some seen;
      error = none;
    })

  pub unseen_file : String → Error → M LockFileObservation
  unseen_file path e = directory_after e path >>= (λ found. pure (absence e found))

  pub observe_lock_file : String → M LockFileObservation
  observe_lock_file path = try_catch (seen_file path) (unseen_file path)

  -- The checks on the open descriptor, and the lock.
  pub take_lock : ℕ → PublicFileSnapshot → M Attempt
  take_lock fd before =
      try_catch
        (do
          value ← fstat env fd
          seen ← snapshot value
          (if is_file value && same_file seen before
              then try_catch (flock_exclusive env fd >> pure (taken seen))
                  (λ e. pure (not_taken seen (refused e)))
              else throw_error (new_error "lock file changed while it was opened")))
        (λ e. pure (failed e))

  -- The path must still name the file that was opened.
  pub recheck : String → PublicFileSnapshot → LockProbe → M LockProbe
  recheck path seen result =
      try_catch
        (do
          value ← lstat env path
          after ← snapshot value
          (if same_file after seen
              then pure result
              else throw_error (new_error "lock file changed during the probe")))
        (λ e. pure (probed ProbeStatus.unknown (some (error_text e))))

  pub release_probe : ℕ → LockProbe → M LockProbe
  release_probe fd result = try_catch (flock_release env fd >> pure result) (λ e.
      pure (probed ProbeStatus.unknown (some ("thread_probe_release_failed:" <> error_text e))))

  pub close_probe : ℕ → LockProbe → M LockProbe
  close_probe fd result =
      try_catch (close_file env fd >> pure result) (λ e.
        pure (probed ProbeStatus.unknown (some ("thread_probe_close_failed:" <> error_text e))))

  -- The rest of the `try` block and its `finally`, by what the attempt came to.
  pub finish_probe : ℕ → String → Attempt → M LockProbe
  finish_probe fd path (taken seen) = do
    r ← recheck path seen (probed ProbeStatus.free none)
    r' ← release_probe fd r
    close_probe fd r'
  finish_probe fd path (not_taken seen result) = do r ← recheck path seen result; close_probe fd r
  finish_probe fd path (failed e) =
      close_probe fd (probed ProbeStatus.unknown (some (error_text e)))

  pub probe_file : String → PublicFileSnapshot → M LockProbe
  probe_file path before =
      attempt (open_file env path read_write)
        (λ fd. take_lock fd before >>= (λ a. finish_probe fd path a))
        (λ e. pure (probed ProbeStatus.unknown (some (error_text e))))

  -- The test-only hook after the lock is taken is left out.
  pub probe_thread_lock_once : String → LockFileObservation → M LockProbe
  probe_thread_lock_once path before =
      if is_unseen before.status
      then pure
          (probed ProbeStatus.unknown (some (or_text before.error "lock file observation failed")))
      else if not before.exists
      then pure (probed ProbeStatus.free none)
      else elim (probe_target before) [
        | none ↦ pure (
            probed ProbeStatus.unknown
              (some "refusing to probe a symlink or non-regular lock file"))
        | some seen ↦ probe_file path seen
      ]
