-- ===== src/Process/LockFiles/Quiet.antt =====
-- Asking for the lock files of a process leaves nothing behind.
use codex_unlock.Base.{
  ℕ, String, not, ◌||◌, Option, some, List, [], ◌∷◌, ◌++◌, ◌==◌, nat_eq, string_eq, option_eq,
}
use codex_unlock.Util.{CommandResult, command_failure_text}
use codex_unlock.Policy.{truthy}
use codex_unlock.Io.{Env, M, Stats, lstat, real_path, is_file, is_symbolic_link}
use codex_unlock.Io.Calm.{
  IsCalm, calm-bind, calm-pure, calm-if, calm-attempt, calm-catch, calm-observe,
}
use codex_unlock.Text.{trim, starts_with, ends_with}
use codex_unlock.Process.Lsof.{LsofFile}
use codex_unlock.Process.LockFiles.{
  Scan, refuse, listed, IntendedLock, has_identity, deleted_suffix, listed_path, scan_file,
  after_scan, scan_files, intended_lock, scan_output, files_after, lock_files_opened_by_process,
}

module _ (env : Env) (show_status : Option ℕ → String) where
  lstat-Calm : (path : String) → IsCalm (lstat env path)
  lstat-Calm path = calm-observe (λ s. env.lstat s path)

  real_path-Calm : (path : String) → IsCalm (real_path env path)
  real_path-Calm path = calm-observe (λ s. env.real_path s path)

  listed_path-Calm :
      (lock : IntendedLock) (path : String) (value : Stats)
      → IsCalm (listed_path env show_status lock path value)
  unfolding listed_path
  listed_path-Calm lock path value =
      calm-if (is_symbolic_link value || not (is_file value)) _ _ (calm-pure _)
        (calm-bind _ _ (real_path-Calm (env.dirname path)) λ directory. calm-pure _)

  scan_file-Calm :
      (intended : String) (lock : IntendedLock) (f : LsofFile)
      → IsCalm (scan_file env show_status intended lock f)
  unfolding scan_file
  scan_file-Calm intended lock f = calm-if (ends_with deleted_suffix f.name) _ _ (calm-pure _) (
      calm-if (has_identity lock f) _ _ (calm-pure _) (
        calm-if (not (starts_with "/" f.name)) _ _ (calm-pure _) (
          calm-catch _ _ (calm-bind _ _ (lstat-Calm f.name) (listed_path-Calm lock f.name))
            λ e. calm-pure _)))

  after_scan-Calm :
      (paths : List String) (go_on : List String → M Scan) (scan : Scan)
      → ((more : List String) → IsCalm (go_on more))
      → IsCalm (after_scan env show_status paths go_on scan)
  after_scan-Calm paths go_on (refuse e) h = calm-pure _
  after_scan-Calm paths go_on (listed more) h = h (paths ++ more)

  scan_files-Calm :
      (intended : String) (lock : IntendedLock) (fs : List LsofFile) (paths : List String)
      → IsCalm (scan_files env show_status intended lock fs paths)
  unfolding scan_files
  scan_files-Calm intended lock [] paths = calm-pure _
  scan_files-Calm intended lock (f ∷ fs) paths =
      calm-bind _ _ (scan_file-Calm intended lock f)
        λ scan. after_scan-Calm paths _ scan (scan_files-Calm intended lock fs)

  pub lock_files_opened_by_process-Calm :
      (run_lsof : List String → M CommandResult) (pid : ℕ) (intended : String)
      → ((args : List String) → IsCalm (run_lsof args))
      → IsCalm (lock_files_opened_by_process env show_status run_lsof pid intended)
  unfolding lock_files_opened_by_process files_after scan_output intended_lock
  lock_files_opened_by_process-Calm run_lsof pid intended calm = calm-bind _ _ (calm _) λ r.
      calm-if (truthy (command_failure_text r)) _ _ (calm-pure _) (
        calm-if (not (r.status == some 0) || not (trim r.stderr == "")) _ _ (calm-pure _) (
          calm-attempt _ _ _
            (calm-bind _ _ (real_path-Calm (env.dirname intended))
              λ directory. calm-bind _ _ (lstat-Calm intended) λ s. calm-pure _)
            (λ lock. calm-bind _ _ (scan_files-Calm intended lock _ []) λ scan. calm-pure _)
            λ e. calm-pure _))
