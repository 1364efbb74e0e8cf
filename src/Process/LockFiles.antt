-- ===== src/Process/LockFiles.antt =====
-- src/process.ts: which processes have a lock file open, and which lock files a process has open.
pub mod Laws
pub mod Quiet
use Prim.Native.Char.{code}
use Prim.Native.String
use codex_unlock.Base.{
  ℕ, String, Bool, true, false, not, ◌&&◌, ◌||◌, Option, none, some, List, [], ◌∷◌, ◌++◌, ◌==◌,
  nat_eq, string_eq, option_eq, if◌then◌else◌, length,
}
use codex_unlock.Util.{CommandResult, command_failure_text, error_text, Error, ◌<>◌}
use codex_unlock.Util.Lists.{unique}
use codex_unlock.Policy.{truthy}
use codex_unlock.Io.{
  Env, M, ◌>>=◌, pure, attempt, try_catch, Stats, lstat, real_path, is_file, is_symbolic_link,
}
use codex_unlock.Text.{trim, points, starts_with, ends_with}
use codex_unlock.Text.Lines.{sort_texts}
use codex_unlock.Options.{fits_prefix, thread_id_pattern}
use codex_unlock.Unlock.Observers.{LockFiles}
use codex_unlock.Process.Lsof.{LsofProcess, LsofFile, parse_lsof_processes, parse_lsof_files}

-- `{ processes, error? }`
pub record LockOpeners : Type 0 where
  pub processes : List LsofProcess
  pub error : Option String

abbrev is_nil {ℓ} : {A : Type ℓ} → List A → Bool
is_nil [] = true
is_nil (x ∷ xs) = false

-- `value || other`
abbrev or_text : String → String → String
or_text value other = if value == "" then other else value

abbrev text_of : Option String → String
text_of none = ""
text_of (some s) = s

abbrev exited_text : (Option ℕ → String) → CommandResult → String
exited_text show_status r = "lsof exited with status " <> show_status r.status

module _ (show_status : Option ℕ → String) where
  pub openers_of : CommandResult → LockOpeners
  openers_of r =
      let processes = parse_lsof_processes r.stdout in
      let warning = trim r.stderr in
      if truthy (command_failure_text r)
      then (record { processes = []; error = command_failure_text r })
      else if not (warning == "")
      then (record { processes = processes; error = some warning })
      else if r.status == some 0 || (r.status == some 1 && is_nil processes)
      then (record { processes = processes; error = none })
      else (record { processes = processes; error = some (exited_text show_status r) })

  unfoldable pub find_lock_openers : (List String → M CommandResult) → String → M LockOpeners
  find_lock_openers run_lsof path = do
    r ← run_lsof ("-nP" ∷ "-F0pcu" ∷ "--" ∷ path ∷ [])
    pure (openers_of r)

abbrev pub deleted_suffix : String
deleted_suffix = " (deleted)"

-- What may follow the id of a lock file's name.
abbrev lock_endings : List (List ℕ)
lock_endings = points ".lock" ∷ points ".lock (deleted)" ∷ []

-- The files of a process that a check of the intended lock refuses, or the paths so far.
pub data Scan : Type 0 where
  refuse : String → Scan
  listed : List String → Scan

-- The intended lock: its canonical path and its identity.
pub record IntendedLock : Type 0 where
  pub canonical : String
  pub device : ℕ
  pub inode : ℕ

abbrev pub has_identity : IntendedLock → LsofFile → Bool
has_identity lock f = f.device == some lock.device && f.inode == some lock.inode

module _ (env : Env) (show_status : Option ℕ → String) where
  is_thread_lock_name : String → Bool
  is_thread_lock_name path =
      fits_prefix thread_id_pattern lock_endings (points (env.basename path))
      && env.basename (env.dirname path) == "thread-writer-locks"

  pub thread_locks : List LsofFile → List LsofFile
  thread_locks [] = []
  thread_locks (f ∷ fs) =
      let rest = thread_locks fs in if is_thread_lock_name f.name then f ∷ rest else rest

  -- The file of a path that is not known by its identity, as far as it is the other file that its
  -- name says.
  listed_path : IntendedLock → String → Stats → M Scan
  listed_path lock path value =
      if is_symbolic_link value || not (is_file value)
      then pure (refuse ("open lock path is a symlink or non-regular file: " <> path))
      else do
        directory ← real_path env (env.dirname path)
        pure (
            if env.join directory (env.basename path) == lock.canonical
            then refuse
                ("open lock path names the intended lock but not its device/inode: " <> path)
            else listed (env.join directory (env.basename path) ∷ []))

  scan_file : String → IntendedLock → LsofFile → M Scan
  scan_file intended lock f =
      if ends_with deleted_suffix f.name
      then pure (refuse ("open lock path was deleted: " <> f.name))
      else if has_identity lock f
      then pure (listed (intended ∷ []))
      else if not (starts_with "/" f.name)
      then pure (refuse ("lsof returned a relative lock path: " <> f.name))
      else try_catch (lstat env f.name >>= listed_path lock f.name)
          (λ e. pure (refuse ("open lock path is unresolved: " <> error_text e)))

  abbrev after_scan : List String → (List String → M Scan) → Scan → M Scan
  after_scan paths go_on (refuse error) = pure (refuse error)
  after_scan paths go_on (listed more) = go_on (paths ++ more)

  scan_files : String → IntendedLock → List LsofFile → List String → M Scan
  scan_files intended lock [] paths = pure (listed paths)
  scan_files intended lock (f ∷ fs) paths =
      scan_file intended lock f >>= after_scan paths (λ more. scan_files intended lock fs more)

  abbrev pub no_paths : String → LockFiles
  no_paths error = record { paths = []; error = some error }

  abbrev files_of : Scan → LockFiles
  files_of (refuse error) = no_paths error
  files_of (listed paths) = record { paths = sort_texts (unique paths); error = none }

  intended_lock : String → M IntendedLock
  intended_lock path = do
    directory ← real_path env (env.dirname path)
    s ← lstat env path
    pure (record {
      canonical = env.join directory (env.basename path);
      device = s.dev;
      inode = s.ino;
    })

  scan_output : String → CommandResult → M LockFiles
  scan_output intended r =
      attempt (intended_lock intended)
        (λ lock. do
          scan ← scan_files intended lock (thread_locks (parse_lsof_files r.stdout)) []
          pure (files_of scan))
        (λ e. pure (no_paths ("intended lock is unresolved: " <> error_text e)))

  files_after : String → CommandResult → M LockFiles
  files_after intended r =
      if truthy (command_failure_text r)
      then pure (no_paths (text_of (command_failure_text r)))
      else if not (r.status == some 0) || not (trim r.stderr == "")
      then pure (no_paths (or_text (trim r.stderr) (exited_text show_status r)))
      else scan_output intended r

  pub lock_files_opened_by_process : (List String → M CommandResult) → ℕ → String → M LockFiles
  lock_files_opened_by_process run_lsof pid intended = do
    r ← run_lsof ("-a" ∷ "-p" ∷ env.show_number pid ∷ "-F0fDin" ∷ [])
    files_after intended r
