-- ===== src/Lock/Observe.antt =====
-- What an observation of the lock file says: it is consistent, and absence is confirmed.
use codex_unlock.Base.{
  ◌≡◌, ◌≢◌, refl, subst, ◌∙◌, ap, String, true, false, none, some, arith, string_eq, ◌∷◌,
  eq_of_test, Bool-cases, inl, inr,
}
use codex_unlock.Types.{Presence, PublicFileSnapshot}
use codex_unlock.Util.{Error}
use codex_unlock.Util.PublicSnapshot.{snapshot, public_snapshot, public_snapshot-code}
use codex_unlock.Io.{
  Env, Log, Res, ok, throw, pure, or_handle, then_run, observed, Stats, is_file, is_symbolic_link,
}
use codex_unlock.Io.Answers.{Answers}
use codex_unlock.Io.Calm.{Holds, Returned, chain-Holds, Outcome}
use codex_unlock.Lock.{
  LockFileObservation, LockDirectoryObservation, present, not_created, unknown, is_missing,
  owned_by, observe_lock_directory, directory_after, observe_lock_file, absence, seen_file,
  unseen_file,
}
use codex_unlock.Lock.Directory.{
  IsMissingAt, Says, DirectorySays, observe_lock_directory-Holds, observe_lock_directory-Says,
}

module _ (env : Env) where
  -- The file was missing, and what holds its directory was then seen.
  abbrev pub IsConfirmed : String → Type 0
  IsConfirmed path =
      IsMissingAt env env.lstat path
      × ((d : LockDirectoryObservation) × Says env (env.dirname path) d)

  -- The fields agree with the status, and an absence is confirmed.
  abbrev pub IsConsistent : String → LockFileObservation → Presence → Type 0
  IsConsistent path o Presence.present = (o.exists ≡ true) × (o.snapshot ≢ none) × (o.error ≡ none)
  IsConsistent path o Presence.absent =
      (o.exists ≡ false) × (o.snapshot ≡ none) × (o.error ≡ none) × IsConfirmed path
  IsConsistent path o Presence.unknown = (o.exists ≡ false) × (o.snapshot ≡ none) × (o.error ≢ none)

  seen_file-IsConsistent :
      (path : String) (s : Log)
      → Outcome
          (λ o t. Holds 0 0 s t × IsConsistent path o o.status)
          (λ t. Holds 0 0 s t)
          (seen_file env path s)
  unfolding seen_file
  seen_file-IsConsistent path s = ground arith

  abbrev seen_from : Stats → Res PublicFileSnapshot × Log → Res LockFileObservation × Log
  seen_from value p = then_run p (λ seen. pure (record {
    status = Presence.present;
    exists = true;
    regular_file = some (is_file value);
    symlink = some (is_symbolic_link value);
    owned_by_current_user = owned_by env.uid value.uid;
    snapshot = some seen;
    error = none;
  }))

  -- The conversion of the status never says that a file is missing.
  snapshot-not_missing :
      (value : Stats) (r : Res PublicFileSnapshot) (s t : Log) (e : Error)
      → public_snapshot value ≡ r
      → seen_from value (r, s) ≡ (throw e, t)
      → is_missing e ≡ false
  snapshot-not_missing value (ok seen) s t e k q = cc q
  snapshot-not_missing value (throw x) s t e k q =
      let same : x ≡ e = cc q in
      subst (λ y. is_missing y ≡ false) {x = x} {y = e} same
        (rw (public_snapshot-code value x k) refl)

  -- A missing file that made the observation throw was missing to `lstat`.
  seen_file-missing :
      (path : String) (s t : Log) (e : Error)
      → seen_file env path s ≡ (throw e, t)
      → is_missing e ≡ true
      → IsMissingAt env env.lstat path
  unfolding seen_file
  seen_file-missing path s t e h m = by_result (env.lstat s path) refl h
    where
      by_result :
          (r : Res Stats)
          → env.lstat s path ≡ r
          → then_run (r, observed ∷ s) (λ value u. seen_from value (snapshot value u))
            ≡ (throw e, t)
          → IsMissingAt env env.lstat path
      by_result (throw x) k q =
          (s, e, k ∙ ap throw {x = x} {y = e} (cc q), eq_of_test e.code "ENOENT" m)
      by_result (ok value) k q =
          cc (snapshot-not_missing value (public_snapshot value) (observed ∷ s) t e refl q, m)

  absence-IsConsistent :
      (path : String) (e : Error) (d : LockDirectoryObservation)
      → IsMissingAt env env.lstat path
      → DirectorySays env (env.dirname path) d
      → IsConsistent path (absence e (some d)) (absence e (some d)).status
  absence-IsConsistent path e present m (inr h) = (refl, refl, refl, (m, (present, h)))
  absence-IsConsistent path e not_created m (inr h) = (refl, refl, refl, (m, (not_created, h)))
  absence-IsConsistent path e (unknown scope text) m h = (refl, refl, λ p. cc)
  absence-IsConsistent path e present m (inl (scope, text, h)) = cc
  absence-IsConsistent path e not_created m (inl (scope, text, h)) = cc

  abbrev Observed : String → Log → LockFileObservation → Log → Type 0
  Observed path s o t = Holds 0 0 s t × IsConsistent path o o.status

  after_directory :
      (path : String) (s t : Log) (e : Error) (p : Res LockDirectoryObservation × Log)
      → Holds 0 0 s t
      → IsMissingAt env env.lstat path
      → Returned (λ a u. Holds 0 0 t u) p
      → Answers (DirectorySays env (env.dirname path)) p
      → Returned
          (Observed path s)
          (then_run (then_run p (λ d. pure (some d))) (λ found. pure (absence e found)))
  after_directory path s t e (ok d, u) h m k says =
      (chain-Holds h k, absence-IsConsistent path e d m says)
  after_directory path s t e (throw x, u) h m k says = k

  unseen_file-IsConsistent :
      (path : String) (s t : Log) (e : Error)
      → Holds 0 0 s t
      → (is_missing e ≡ true → IsMissingAt env env.lstat path)
      → Returned (Observed path s) (unseen_file env path e t)
  unfolding unseen_file directory_after
  unseen_file-IsConsistent path s t e h m = elim (Bool-cases (is_missing e)) [
    | inl k ↦ rw k (
        after_directory path s t e (observe_lock_directory env (env.dirname path) t) h (m k)
          (observe_lock_directory-Holds env (env.dirname path) t)
          ((observe_lock_directory-Says env (env.dirname path)).at t))
    | inr k ↦ rw k (h, (refl, refl, λ p. cc))
  ]

  handled :
      (path : String) (s : Log) (p : Res LockFileObservation × Log)
      → seen_file env path s ≡ p
      → Outcome (Observed path s) (λ t. Holds 0 0 s t) p
      → Returned (Observed path s) (or_handle p (unseen_file env path))
  handled path s (ok o, t) e h = h
  handled path s (throw x, t) e h =
      unseen_file-IsConsistent path s t x h (seen_file-missing path s t x e)

  -- Observing a lock file returns an observation whose fields agree with its status, and changes
  -- and holds nothing: it sends no signal and keeps no descriptor or lock. The file is only said to
  -- be absent when an `lstat` of it failed with ENOENT, the home above its directory was seen to be
  -- a directory, and its directory was seen to be one or failed both `stat` and `lstat` with
  -- ENOENT; what is not known for certain is unknown, with an error.
  pub observe_lock_file-IsConsistent :
      (path : String) (s : Log)
      → Returned
          (λ o t. Holds 0 0 s t × IsConsistent path o o.status)
          (observe_lock_file env path s)
  unfolding observe_lock_file
  observe_lock_file-IsConsistent path s =
      handled path s (seen_file env path s) refl (seen_file-IsConsistent path s)
