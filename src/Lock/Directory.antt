-- ===== src/Lock/Directory.antt =====
-- What an observation of the lock directory rests on.
use codex_unlock.Base.{
  ◌≡◌, refl, String, true, Option, none, some, arith, string_eq, ◌∷◌, eq_of_test, Bool-cases, inl,
  inr, ◌⊎◌, if◌then◌else◌,
}
use codex_unlock.Util.{Error, ◌<>◌}
use codex_unlock.Io.{
  Env, M, Log, Res, ok, throw, ◌>>=◌, pure, try_catch, or_handle, then_run, throw_error, observed,
  Stats, is_directory, lstat,
}
use codex_unlock.Io.Answers.{Answers, Yields, Yields-then, Yields-catch, Yields-pure}
use codex_unlock.Io.Calm.{Holds, Returned, Outcome-map}
use codex_unlock.Lock.{
  LockDirectoryObservation, present, not_created, unknown, directory_state, Scope, codex_home,
  lock_directory, DirectoryState, directory, missing, other, directory_of, is_missing,
  observe_inside, observe_lock_directory,
}

module _ (env : Env) where
  -- A `stat` answered with a directory.
  abbrev pub IsDirectoryAt : String → Type 0
  IsDirectoryAt path =
      (s : Log) × (value : Stats) × (env.stat s path ≡ ok value) × (is_directory value ≡ true)

  -- A call on the path failed with ENOENT.
  abbrev pub IsMissingAt : (Log → String → Res Stats) → String → Type 0
  IsMissingAt call path = (s : Log) × (e : Error) × (call s path ≡ throw e) × (e.code ≡ "ENOENT")

  -- What an observation of the lock directory rests on, where it is not unknown.
  abbrev pub Says : String → LockDirectoryObservation → Type 0
  Says path present = IsDirectoryAt (env.dirname path) × IsDirectoryAt path
  Says path not_created =
      IsDirectoryAt (env.dirname path) × IsMissingAt env.stat path × IsMissingAt env.lstat path
  Says path (unknown scope text) = ⊥

  abbrev StateSays : String → DirectoryState → Type 0
  StateSays path directory = IsDirectoryAt path
  StateSays path missing = IsMissingAt env.stat path
  StateSays path other = Unit {0}

  directory_of-Says :
      (path : String) (s : Log) (value : Stats)
      → env.stat s path ≡ ok value
      → StateSays path (directory_of value)
  directory_of-Says path s value e = elim (Bool-cases (is_directory value)) [
    | inl d ↦ rw d (s, value, e, d)
    | inr d ↦ rw d tt
  ]

  stated :
      (path : String) (s : Log) (r : Res Stats)
      → env.stat s path ≡ r
      → Answers (StateSays path) (
          or_handle
            (then_run (r, observed ∷ s) (λ value. pure (directory_of value)))
            (λ e. if is_missing e then pure missing else throw_error e))
  stated path s (ok value) e = directory_of-Says path s value e
  stated path s (throw x) e = elim (Bool-cases (is_missing x)) [
    | inl m ↦ rw m (s, x, e, eq_of_test x.code "ENOENT" m)
    | inr m ↦ rw m tt
  ]

  directory_state-Says : (path : String) → Yields (StateSays path) (directory_state env path)
  unfolding directory_state
  directory_state-Says path = record { at = λ s. stated path s (env.stat s path) refl }

  abbrev InsideSays : String → LockDirectoryObservation → Type 0
  InsideSays path present = IsDirectoryAt path
  InsideSays path not_created = IsMissingAt env.stat path × IsMissingAt env.lstat path
  InsideSays path (unknown scope text) = Unit {0}

  gone_too :
      (path : String) (s : Log) (r : Res Stats)
      → IsMissingAt env.stat path
      → env.lstat s path ≡ r
      → Answers (InsideSays path) (
          or_handle
            (then_run
              (r, observed ∷ s)
              (λ value.
                pure (unknown lock_directory ("lock directory is a dangling symlink: " <> path))))
            (λ e. if is_missing e then pure not_created else throw_error e))
  gone_too path s (ok value) m e = tt
  gone_too path s (throw x) m e = elim (Bool-cases (is_missing x)) [
    | inl k ↦ rw k (m, (s, x, e, eq_of_test x.code "ENOENT" k))
    | inr k ↦ rw k tt
  ]

  observe_inside-Says : (path : String) → Yields (InsideSays path) (observe_inside env path)
  unfolding observe_inside
  observe_inside-Says path =
      Yields-catch _ _ _
        (Yields-then (StateSays path) (InsideSays path) (directory_state env path) _
          (directory_state-Says path) by_state)
        λ e. Yields-pure _ _ tt
    where
      by_state :
          (state : DirectoryState)
          → StateSays path state
          → Yields (InsideSays path) (elim state as (λ _. M LockDirectoryObservation) [
            | directory ↦ pure present
            | other ↦ pure (unknown lock_directory ("lock directory is not a directory: " <> path))
            | missing ↦
                try_catch
                  (lstat env path >>= (λ value.
                    pure
                      (unknown lock_directory ("lock directory is a dangling symlink: " <> path))))
                  (λ e. if is_missing e then pure not_created else throw_error e)
          ])
      by_state directory h = Yields-pure _ _ h
      by_state other h = Yields-pure _ _ tt
      by_state missing h = record { at = λ s. gone_too path s (env.lstat s path) h refl }

  abbrev HomeSays : String → Option String → Type 0
  HomeSays home none = IsDirectoryAt home
  HomeSays home (some text) = Unit {0}

  abbrev pub DirectorySays : String → LockDirectoryObservation → Type 0
  DirectorySays path d =
      ((scope : Scope) × (text : String) × (d ≡ unknown scope text)) ⊎ Says path d

  inside_of :
      (path : String) (d : LockDirectoryObservation)
      → IsDirectoryAt (env.dirname path)
      → InsideSays path d
      → DirectorySays path d
  inside_of path present home h = inr (home, h)
  inside_of path not_created home h = inr (home, h.0, h.1)
  inside_of path (unknown scope text) home h = inl (scope, text, refl)

  pub observe_lock_directory-Says :
      (path : String) → Yields (DirectorySays path) (observe_lock_directory env path)
  unfolding observe_lock_directory
  observe_lock_directory-Says path =
      let home = env.dirname path in
      Yields-then (HomeSays home) (DirectorySays path) _ _
        (Yields-catch _ _ _
          (Yields-then (StateSays home) (HomeSays home) (directory_state env home) _
            (directory_state-Says home) by_home_state)
          λ e. Yields-pure _ _ tt)
        by_home
    where
      by_home_state :
          (state : DirectoryState)
          → StateSays (env.dirname path) state
          → Yields (HomeSays (env.dirname path)) (
              pure (elim state as (λ _. Option String) [
                | missing ↦ some ("Codex home does not exist: " <> env.dirname path)
                | other ↦ some ("Codex home is not a directory: " <> env.dirname path)
                | directory ↦ none
              ]))
      by_home_state directory h = Yields-pure _ _ h
      by_home_state missing h = Yields-pure _ _ tt
      by_home_state other h = Yields-pure _ _ tt

      by_home :
          (home : Option String)
          → HomeSays (env.dirname path) home
          → Yields (DirectorySays path) (elim home as (λ _. M LockDirectoryObservation) [
            | some text ↦ pure (unknown codex_home text)
            | none ↦ observe_inside env path
          ])
      by_home (some text) h = Yields-pure _ _ (inl (codex_home, text, refl))
      by_home none h = record {
        at = λ s.
            Outcome-map {R = λ d t. DirectorySays path d} _ ((observe_inside-Says path).at s)
              (λ d t k. inside_of path d h k) (λ t k. tt);
      }

  directory_state-Holds : (path : String) (s : Log) → Holds 0 0 s (directory_state env path s).1
  unfolding directory_state
  directory_state-Holds path s = ground arith

  observe_inside-Holds :
      (path : String) (s : Log) → Returned (λ a t. Holds 0 0 s t) (observe_inside env path s)
  unfolding observe_inside directory_state
  observe_inside-Holds path s = ground arith

  pub observe_lock_directory-Holds :
      (path : String) (s : Log)
      → Returned (λ a t. Holds 0 0 s t) (observe_lock_directory env path s)
  unfolding observe_lock_directory directory_state
  observe_lock_directory-Holds path s = ground (arith, observe_inside-Holds path (observed ∷ s))
