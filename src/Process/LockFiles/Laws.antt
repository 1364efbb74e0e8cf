-- ===== src/Process/LockFiles/Laws.antt =====
-- What an answer about a process's lock files says of the lock files that lsof named.
use codex_unlock.Base.{
  ℕ, ◌≡◌, refl, ◌∙◌, subst, String, Bool, true, false, not, ◌||◌, Option, none, some, List, [], ◌∷◌,
  ◌++◌, ◌==◌, nat_eq, string_eq, option_eq, includes, includes-head, ◌⊎◌, inl, inr, arith,
  if◌then◌else◌, ◌≢◌, or-eq-true, or-eq-false, eq-true_of_not, eq_of_test,
}
use codex_unlock.Util.{CommandResult, command_failure_text, ◌<>◌}
use codex_unlock.Util.Lists.{unique, includes-unique}
use codex_unlock.Policy.{truthy}
use codex_unlock.Io.{Env, M, Log, ok, ◌>>=◌, Stats, lstat, real_path, is_file, is_symbolic_link}
use codex_unlock.Io.Calm.{Outcome, then_ran, Outcome-map}
use codex_unlock.Io.Answers.{
  Ran, Yields, Yields-catch, Yields-pure, Yields-if, Yields-then, Yields-ran, Yields-attempted,
}
use codex_unlock.Text.{trim, starts_with, ends_with}
use codex_unlock.Text.Lines.{sort_texts, text_less}
use codex_unlock.Text.Lines.Laws.{includes-sort_by}
use codex_unlock.Unlock.Observers.{LockFiles}
use codex_unlock.Process.Lsof.{LsofFile, parse_lsof_files}
use codex_unlock.Process.LockFiles.{
  Scan, refuse, listed, IntendedLock, has_identity, deleted_suffix, thread_locks, listed_path,
  scan_file, after_scan, scan_files, files_of, intended_lock, scan_output, files_after,
  lock_files_opened_by_process,
}

-- The identity of the intended lock, from the calls that answered it.
pub record IsIntended (env : Env) (intended : String) (lock : IntendedLock) : Type 0 where
  pub directory : String
  pub resolved : Ran (real_path env (env.dirname intended)) directory
  pub canonical : lock.canonical ≡ env.join directory (env.basename intended)
  pub stats : Stats
  pub seen : Ran (lstat env intended) stats
  pub same_device : lock.device ≡ stats.dev
  pub same_inode : lock.inode ≡ stats.ino

-- The file is another regular file than the intended lock, and is listed by its own path: its
-- directory as it was resolved, and its name.
pub record IsOther (env : Env) (lock : IntendedLock) (paths : List String) (f : LsofFile)
    : Type 0 where
  pub stats : Stats
  pub seen : Ran (lstat env f.name) stats
  pub regular_file : is_file stats ≡ true
  pub no_symlink : is_symbolic_link stats ≡ false
  pub directory : String
  pub resolved : Ran (real_path env (env.dirname f.name)) directory
  pub differs : env.join directory (env.basename f.name) ≢ lock.canonical
  pub listed_as : includes paths (env.join directory (env.basename f.name)) ≡ true

-- The file was not deleted, and it is the intended lock, which is then listed, or another file.
pub record IsAccounted (env : Env) (lock : IntendedLock) (intended : String) (paths : List String)
    (f : LsofFile) : Type 0 where
  pub not_deleted : ends_with deleted_suffix f.name ≡ false
  pub place :
      ((has_identity lock f ≡ true) × (includes paths intended ≡ true)) ⊎ IsOther env lock paths f

abbrev pub In : List LsofFile → LsofFile → Type 0
In [] f = ⊥
In (x ∷ fs) f = (x ≡ f) ⊎ In fs f

ne_of_test : (a b : String) → (a == b) ≡ false → a ≢ b
ne_of_test a b h e = cc ((string_eq.equals_iff a b).1 e, h)

IsOther-by_more :
    (env : Env) (lock : IntendedLock) (paths more : List String) (f : LsofFile)
    → ((v : String) → includes paths v ≡ true → includes more v ≡ true)
    → IsOther env lock paths f
    → IsOther env lock more f
IsOther-by_more env lock paths more f h o = record {
  stats = o.stats;
  seen = o.seen;
  regular_file = o.regular_file;
  no_symlink = o.no_symlink;
  directory = o.directory;
  resolved = o.resolved;
  differs = o.differs;
  listed_as = h _ o.listed_as;
}

IsAccounted-by_more :
    (env : Env) (lock : IntendedLock) (intended : String) (paths more : List String) (f : LsofFile)
    → ((v : String) → includes paths v ≡ true → includes more v ≡ true)
    → IsAccounted env lock intended paths f
    → IsAccounted env lock intended more f
IsAccounted-by_more env lock intended paths more f h a = record {
  not_deleted = a.not_deleted;
  place = elim a.place [
    | inl (same, i) ↦ inl (same, h intended i)
    | inr other ↦ inr (IsOther-by_more env lock paths more f h other)
  ];
}

includes-append_left :
    (xs ys : List String) (v : String) → includes xs v ≡ true → includes (xs ++ ys) v ≡ true
includes-append_left [] ys v h = cc
includes-append_left (x ∷ xs) ys v h = elim (or-eq-true (x == v) (includes xs v) h) [
  | inl p ↦ rw p refl
  | inr p ↦ rw (includes-append_left xs ys v p) (ground arith)
]

includes-append_right :
    (xs ys : List String) (v : String) → includes ys v ≡ true → includes (xs ++ ys) v ≡ true
includes-append_right [] ys v h = h
includes-append_right (x ∷ xs) ys v h = rw (includes-append_right xs ys v h) (ground arith)

module _ (env : Env) (show_status : Option ℕ → String) (intended : String)
    (lock : IntendedLock) where
  abbrev FileAccounted : LsofFile → Scan → Type 0
  FileAccounted f (refuse error) = Unit {0}
  FileAccounted f (listed more) = IsAccounted env lock intended more f

  abbrev AllAccounted : List LsofFile → List String → Scan → Type 0
  AllAccounted fs paths (refuse error) = Unit {0}
  AllAccounted fs paths (listed found) =
      ((v : String) → includes paths v ≡ true → includes found v ≡ true)
      × ((f : LsofFile) → In fs f → IsAccounted env lock intended found f)

  by_name :
      (f : LsofFile) (value : Stats) (directory : String) (b : Bool)
      → ends_with deleted_suffix f.name ≡ false
      → Ran (lstat env f.name) value
      → (is_symbolic_link value || not (is_file value)) ≡ false
      → Ran (real_path env (env.dirname f.name)) directory
      → (env.join directory (env.basename f.name) == lock.canonical) ≡ b
      → FileAccounted f (
          if b
          then refuse
              ("open lock path names the intended lock but not its device/inode: " <> f.name)
          else listed (env.join directory (env.basename f.name) ∷ []))
  by_name f value directory true h seen kind resolved e = tt
  by_name f value directory false h seen kind resolved e =
      let (no_link, no_file) = or-eq-false _ _ kind in
      record {
        not_deleted = h;
        place = inr (record {
          stats = value;
          seen = seen;
          regular_file = eq-true_of_not _ no_file;
          no_symlink = no_link;
          directory = directory;
          resolved = resolved;
          differs = λ q. ne_of_test _ _ e q;
          listed_as = includes-head (env.join directory (env.basename f.name)) [];
        });
      }

  listed_path-Accounted :
      (f : LsofFile) (value : Stats)
      → ends_with deleted_suffix f.name ≡ false
      → Ran (lstat env f.name) value
      → Yields (FileAccounted f) (listed_path env show_status lock f.name value)
  unfolding listed_path
  listed_path-Accounted f value h seen =
      Yields-if _ (is_symbolic_link value || not (is_file value)) _ _ (λ e. Yields-pure _ _ tt)
        λ kind. Yields-ran _ (real_path env (env.dirname f.name)) _ λ directory resolved.
          Yields-pure (FileAccounted f) _ (by_name f value directory _ h seen kind resolved refl)

  scan_file-Accounted :
      (f : LsofFile) → Yields (FileAccounted f) (scan_file env show_status intended lock f)
  unfolding scan_file
  scan_file-Accounted f =
      Yields-if _ (ends_with deleted_suffix f.name) _ _ (λ e. Yields-pure _ _ tt)
        λ kept.
          Yields-if _ (has_identity lock f) _ _
            (λ same.
              Yields-pure (FileAccounted f) (listed (intended ∷ []))
                (record { not_deleted = kept; place = inl (same, includes-head intended []) }))
            λ e.
              Yields-if _ (not (starts_with "/" f.name)) _ _ (λ e. Yields-pure _ _ tt)
                λ e.
                  Yields-catch _ (lstat env f.name >>= listed_path env show_status lock f.name) _
                    (Yields-ran _ (lstat env f.name) _
                      λ value seen. listed_path-Accounted f value kept seen)
                    λ e. Yields-pure _ _ tt

  scan_files-Accounted :
      (fs : List LsofFile) (paths : List String)
      → Yields (AllAccounted fs paths) (scan_files env show_status intended lock fs paths)
  unfolding scan_files
  scan_files-Accounted [] paths =
      Yields-pure (AllAccounted [] paths) (listed paths) (λ v h. h, λ f i. absurd i)
  scan_files-Accounted (f ∷ fs) paths =
      Yields-then (FileAccounted f) (AllAccounted (f ∷ fs) paths)
        (scan_file env show_status intended lock f) _ (scan_file-Accounted f)
        λ scan a. after_file scan a (λ more. scan_files-Accounted fs more)
    where
      whole :
          (more : List String) (scan : Scan)
          → IsAccounted env lock intended more f
          → AllAccounted fs (paths ++ more) scan
          → AllAccounted (f ∷ fs) paths scan
      whole more (refuse e) a h = tt
      whole more (listed found) a (grow, rest) = (
        λ v i. grow v (includes-append_left paths more v i),
        λ x i. elim i [
          | inl p ↦ subst (IsAccounted env lock intended found) p (
              IsAccounted-by_more env lock intended more found f
                (λ v k. grow v (includes-append_right paths more v k)) a)
          | inr k ↦ rest x k
        ],
      )

      after_file :
          (scan : Scan)
          → FileAccounted f scan
          → ((more : List String)
              → Yields (AllAccounted fs more) (scan_files env show_status intended lock fs more))
          → Yields (AllAccounted (f ∷ fs) paths) (
              after_scan env show_status paths
                (λ more. scan_files env show_status intended lock fs more)
                scan)
      after_file (refuse e) a h = Yields-pure (AllAccounted (f ∷ fs) paths) (refuse e) tt
      after_file (listed more) a h = record {
        at = λ s. Outcome-map _ ((h (paths ++ more)).at s) (λ x t k. whole more x a k) (λ t k. tt);
      }

  files_of-Accounted :
      (fs : List LsofFile) (scan : Scan)
      → AllAccounted fs [] scan
      → (files_of env show_status scan).error ≡ none
      → (f : LsofFile) → In fs f
      → IsAccounted env lock intended (files_of env show_status scan).paths f
  files_of-Accounted fs (refuse error) a h f i = cc
  files_of-Accounted fs (listed paths) (grow, all) h f i =
      IsAccounted-by_more env lock intended paths (sort_texts (unique paths)) f
        (λ v k. includes-sort_by text_less (unique paths) v ∙ includes-unique paths v k) (all f i)

module _ (env : Env) (show_status : Option ℕ → String) (intended : String) where
  -- An answer without an error accounts for every lock file that a complete run of lsof named.
  pub record IsComplete (r : CommandResult) (files : LockFiles) : Type 0 where
    pub succeeded : r.status ≡ some 0
    pub no_warning : trim r.stderr ≡ ""
    pub lock : IntendedLock
    pub identity : IsIntended env intended lock
    pub accounted :
        (f : LsofFile)
        → In (thread_locks env show_status (parse_lsof_files r.stdout)) f
        → IsAccounted env lock intended files.paths f

  intended_lock-IsIntended :
      Yields (IsIntended env intended) (intended_lock env show_status intended)
  unfolding intended_lock
  intended_lock-IsIntended =
      Yields-ran _ (real_path env (env.dirname intended)) _ λ directory resolved.
        Yields-ran _ (lstat env intended) _ λ stats seen. Yields-pure _ _ (record {
          directory = directory;
          resolved = resolved;
          canonical = refl;
          stats = stats;
          seen = seen;
          same_device = refl;
          same_inode = refl;
        })

  files_after-Complete :
      (r : CommandResult)
      → Yields
          (λ files. files.error ≡ none → IsComplete r files)
          (files_after env show_status intended r)
  unfolding files_after scan_output
  files_after-Complete r =
      Yields-if _ (truthy (command_failure_text r)) _ _ (λ e. Yields-pure _ _ λ h. cc)
        λ e.
          Yields-if _ (not (r.status == some 0) || not (trim r.stderr == "")) _ _
            (λ e. Yields-pure _ _ λ h. cc)
            λ clean.
              let tests =
                or-eq-false (not (r.status == some 0)) (not (trim r.stderr == "")) clean in
              Yields-attempted (IsIntended env intended) _ (intended_lock env show_status intended)
                _ _ intended_lock-IsIntended
                (λ lock identity.
                  Yields-then
                    (AllAccounted env show_status intended lock
                      (thread_locks env show_status (parse_lsof_files r.stdout)) [])
                    _
                    (scan_files env show_status intended lock
                      (thread_locks env show_status (parse_lsof_files r.stdout)) [])
                    _ (scan_files-Accounted env show_status intended lock _ [])
                    λ scan a. Yields-pure _ _ λ h. record {
                      succeeded = eq_of_test r.status (some 0) (eq-true_of_not _ tests.0);
                      no_warning = eq_of_test (trim r.stderr) "" (eq-true_of_not _ tests.1);
                      lock = lock;
                      identity = identity;
                      accounted = files_of-Accounted env show_status intended lock _ scan a h;
                    })
                (λ e. Yields-pure _ _ λ h. cc)

  pub lock_files_opened_by_process-IsComplete :
      (run_lsof : List String → M CommandResult) (pid : ℕ) (s : Log)
      → Outcome
          (λ files t.
            files.error ≡ none
            → (r : CommandResult) × (u : Log) × (run_lsof
                  ("-a" ∷ "-p" ∷ env.show_number pid ∷ "-F0fDin" ∷ [])
                  s
                ≡ (ok r, u))
              × IsComplete r files)
          (λ t. Unit {0})
          (lock_files_opened_by_process env show_status run_lsof pid intended s)
  unfolding lock_files_opened_by_process
  lock_files_opened_by_process-IsComplete run_lsof pid s =
      then_ran (λ files t. Known files) (run_lsof _ s) _
        λ r u e.
          Outcome-map {R = λ files t. Known files} _ ((files_after-Complete r).at u)
            (λ files t h q. (r, u, e, h q)) (λ t k. tt)
    where
      Known : LockFiles → Type 0
      Known files =
          files.error ≡ none
          → (r : CommandResult) × (u : Log) × (run_lsof
                ("-a" ∷ "-p" ∷ env.show_number pid ∷ "-F0fDin" ∷ []) s
              ≡ (ok r, u))
            × IsComplete r files
