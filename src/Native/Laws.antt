-- ===== src/Native/Laws.antt =====
-- What `guardedProbeOnce` guarantees.
use codex_unlock.Base.{
  ℕ, ◌+◌, ◌≡◌, refl, String, true, false, Option, none, some, arith, ◌⊎◌, inl, inr, ◌∷◌,
}
use codex_unlock.Types.{Presence, ProbeStatus, LockProbe, PublicFileSnapshot}
use codex_unlock.Io.{Env, Log, Res, ok, throw, Res-cases, opened, read_only, attempt_run, try_catch}
use codex_unlock.Io.Calm.{
  Holds, start-Holds, locks, Returned, then_run-Returned, Returned-map, Outcome,
}
use codex_unlock.Lock.{LockFileObservation, probe_target}
use codex_unlock.Native.{
  guard_session, at_guard, guarded_file, guarded_target, guarded_by, guarded_probe_once,
}
use codex_unlock.Native.Guard.{
  Site, Located, early, at_site, locate, take_guard, unavailable, guard_work, finish_guard,
}
use codex_unlock.Native.Guard.Laws.{
  Stage, IsAcquired, guard_locks, take_guard-Holds, guard_result-Stage, finish_guard-Stage,
  ClaimsNothing, locate-ClaimsNothing,
}

-- What the result of a guarded probe may say: "free" of a file that was observed to be missing or
-- after the guard and the thread's lock were taken, and "held" after the guard alone was taken.
pub record IsSoundGuarded (o : LockFileObservation) (s : Log) (r : LockProbe) (t : Log)
    : Type 0 where
  pub calm : Holds 0 0 s t
  pub free :
      r.status ≡ ProbeStatus.free
      → (o.status ≡ Presence.absent) ⊎ (o.exists ≡ false) ⊎ (locks t ≡ locks s + 2)
  pub held :
      r.status ≡ ProbeStatus.held
      → (o.status ≡ Presence.present)
        × (o.exists ≡ true)
        × (locks t ≡ locks s + 1)
        × IsAcquired r.guard

module _ (env : Env) (path : String) (o : LockFileObservation) where
  guard_session-Stage :
      (site : Site) (fd : ℕ) (s t : Log)
      → Holds 1 0 s t
      → locks t ≡ locks s
      → Returned (λ r u. Stage o.exists 0 0 s r u) (guard_session env path o site fd t)
  unfolding guard_session
  guard_session-Stage site fd s t h e =
      then_run-Returned _ _ (take_guard env site fd t) _ (take_guard-Holds env site fd t h e)
        λ a u k.
          then_run-Returned (λ r v. Stage o.exists 1 (guard_locks a) s r v)
            (λ r v. Stage o.exists 0 0 s r v)
            (try_catch (guard_work env path o site fd a) unavailable u) (finish_guard env fd a)
            (guard_result-Stage env path o site fd a u k.0 k.1)
            λ r v l. finish_guard-Stage env fd o.exists a r v l

  at_guard-Stage :
      (l : Located) (s t : Log)
      → Holds 0 0 s t
      → locks t ≡ locks s
      → ClaimsNothing l
      → Returned (λ r u. Stage o.exists 0 0 s r u) (at_guard env path o l t)
  unfolding at_guard
  at_guard-Stage (early r) s t h e c = record { holds = h; free = λ p. cc; held = λ p. cc }
  at_guard-Stage (at_site site) s t h e c = elim (Res-cases (env.open_file t site.path read_only)) [
    | inl (fd, q) ↦ rw (q, at_guard) (guard_session-Stage site fd s (opened fd ∷ t) (omega arith) e)
    | inr (x, q) ↦ rw (q, at_guard) (record { holds = omega arith; free = λ p. cc; held = λ p. cc })
  ]

  attempt-Stage :
      (s : Log) (p : Res Located × Log)
      → Outcome
          (λ l u. Holds 0 0 s u × ClaimsNothing l × (locks u ≡ locks s))
          (λ u. Holds 0 0 s u)
          p
      → Returned (λ r u. Stage o.exists 0 0 s r u) (attempt_run p (at_guard env path o) unavailable)
  attempt-Stage s (ok l, t) h = at_guard-Stage l s t h.0 h.2 h.1
  attempt-Stage s (throw e, t) h = record { holds = h; free = λ p. cc; held = λ p. cc }

  guarded_target-IsSound :
      (target : Option PublicFileSnapshot) (s : Log)
      → o.status ≡ Presence.present
      → Returned (λ r t. IsSoundGuarded o s r t) (guarded_target env path o target s)
  unfolding guarded_target guarded_file
  guarded_target-IsSound none s e = record { calm = start-Holds s; free = λ p. cc; held = λ p. cc }
  guarded_target-IsSound (some seen) s e =
      Returned-map _ _ (guarded_file env path o s)
        (attempt-Stage s (locate env path s) (locate-ClaimsNothing env path s))
        λ r t k. (record {
          calm = k.holds;
          free = λ p. inr (k.free p);
          held = λ p. let (x, n, g) = k.held p in (e, x, n, g);
        })

  guarded_by-IsSound :
      (p : Presence) (s : Log)
      → o.status ≡ p
      → Returned (λ r t. IsSoundGuarded o s r t) (guarded_by env path o p s)
  unfolding guarded_by
  guarded_by-IsSound Presence.absent s e = record {
    calm = start-Holds s;
    free = λ p. inl e;
    held = λ p. cc;
  }
  guarded_by-IsSound Presence.unknown s e = record {
    calm = start-Holds s;
    free = λ p. cc;
    held = λ p. cc;
  }
  guarded_by-IsSound Presence.present s e = guarded_target-IsSound (probe_target o) s e

  -- A guarded probe always returns a result. It sends no signal, closes the guard's and the
  -- thread's descriptor and releases every lock that it took, whatever fails on the way. "free"
  -- is said only of a file that was seen to be missing or after both locks were taken, "held" only
  -- of a present file, after the guard alone was taken.
  pub guarded_probe_once-IsSound :
      (s : Log) → Returned (λ r t. IsSoundGuarded o s r t) (guarded_probe_once env path o s)
  unfolding guarded_probe_once
  guarded_probe_once-IsSound s = guarded_by-IsSound o.status s refl
