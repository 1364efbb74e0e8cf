-- ===== src/Native/Guard/Laws.antt =====
-- What a guarded probe guarantees: the guard and the descriptor are given back on every path.
use codex_unlock.Base.{ℕ, ◌+◌, ◌≡◌, String, Bool, true, false, Option, none, some, arith, ◌⊎◌, ◌∷◌}
use codex_unlock.Types.{ProbeStatus, LockProbe, GuardStatus, NativeGuardEvidence}
use codex_unlock.Io.{Env, Log, observed, Stats, try_catch}
use codex_unlock.Io.Calm.{
  Holds, chain-Holds, locks, Returned, then_run-Returned, Outcome, then_run-Outcome,
  or_handle-Returned, Outcome-Returned,
}
use codex_unlock.Lock.{LockFileObservation, probe_thread_lock_once, is_contention_error}
use codex_unlock.Lock.Laws.{probe_thread_lock_once-IsSound}
use codex_unlock.Native.Guard.{
  Site, Located, early, at_site, GuardAttempt, moved, busy, acquired, failed, locate, take_guard,
  probe_acquired, guarded_probe, recheck_guard, guard_work, release_guard, close_guard,
  finish_guard, unavailable, guard_entry,
}

abbrev pub guard_locks : GuardAttempt → ℕ
guard_locks moved = 0
guard_locks (busy s) = 0
guard_locks (acquired s) = 1
guard_locks (failed e) = 0

abbrev pub IsAcquired : Option NativeGuardEvidence → Type 0
IsAcquired none = ⊥
IsAcquired (some g) = g.status ≡ GuardStatus.acquired

-- A stage of a guarded probe that began at `s`, with the claims that its result may make.
pub record Stage (exists : Bool) (d k : ℕ) (s : Log) (r : LockProbe) (t : Log) : Type 0 where
  pub holds : Holds d k s t
  pub free : r.status ≡ ProbeStatus.free → (exists ≡ false) ⊎ (locks t ≡ locks s + 2)
  pub held :
      r.status ≡ ProbeStatus.held → (exists ≡ true) × (locks t ≡ locks s + 1) × IsAcquired r.guard

module _ (env : Env) {s : Log} where
  pub take_guard-Holds :
      (site : Site) (fd : ℕ) (t : Log)
      → Holds 1 0 s t
      → locks t ≡ locks s
      → Returned
          (λ a u. Holds 1 (guard_locks a) s u × (locks u ≡ locks s + guard_locks a))
          (take_guard env site fd t)
  unfolding take_guard is_contention_error
  take_guard-Holds site fd t h e = ground arith

  recheck_guard-Stage :
      (site : Site) (fd : ℕ) (st : Stats) (exists : Bool) (d k : ℕ) (r : LockProbe) (t : Log)
      → Stage exists d k s r t
      → Outcome
          (λ a u. Stage exists d k s a u)
          (λ u. Holds d k s u)
          (recheck_guard env site fd st r t)
  unfolding recheck_guard
  recheck_guard-Stage site fd st exists d k r t h = ground arith

  release_guard-Stage :
      (fd : ℕ) (exists : Bool) (r : LockProbe) (t : Log)
      → Stage exists 1 1 s r t
      → Returned (λ a u. Stage exists 1 0 s a u) (release_guard env fd r t)
  unfolding release_guard
  release_guard-Stage fd exists r t h = ground arith

  close_guard-Stage :
      (fd : ℕ) (exists : Bool) (r : LockProbe) (t : Log)
      → Stage exists 1 0 s r t
      → Returned (λ a u. Stage exists 0 0 s a u) (close_guard env fd r t)
  unfolding close_guard
  close_guard-Stage fd exists r t h = ground arith

  probe_acquired-Stage :
      (path : String) (o : LockFileObservation) (t : Log)
      → Holds 1 1 s t
      → locks t ≡ locks s + 1
      → Returned (λ a u. Stage o.exists 1 1 s a u) (probe_acquired env path o t)
  unfolding probe_acquired
  probe_acquired-Stage path o t h e =
      then_run-Returned _ _ (probe_thread_lock_once env path o t) _
        (probe_thread_lock_once-IsSound env path o t)
        λ r u p. (record {
          holds = chain-Holds h p.calm;
          free = λ q. ground (arith, p.free q);
          held = λ q. ground (arith, p.held q);
        })

  guarded_probe-Stage :
      (path : String) (o : LockFileObservation) (site : Site) (st : Stats) (t : Log)
      → Holds 1 1 s t
      → locks t ≡ locks s + 1
      → Outcome
          (λ a u. Stage o.exists 1 1 s a u)
          (λ u. Holds 1 1 s u)
          (guarded_probe env path o site st t)
  unfolding guarded_probe
  guarded_probe-Stage path o site st t h e =
      let u : Log = observed ∷ observed ∷ observed ∷ t in
      let inner =
        Outcome-Returned _ (λ a v. Stage o.exists 1 1 s a v) (λ v. Holds 1 1 s v)
          (probe_acquired env path o u) (probe_acquired-Stage path o u (omega arith) (omega arith))
          (λ a v k. k) in
      ground (arith, inner)

  guard_work-Stage :
      (path : String) (o : LockFileObservation) (site : Site) (fd : ℕ) (a : GuardAttempt) (t : Log)
      → Holds 1 (guard_locks a) s t
      → locks t ≡ locks s + guard_locks a
      → Outcome
          (λ r u. Stage o.exists 1 (guard_locks a) s r u)
          (λ u. Holds 1 (guard_locks a) s u)
          (guard_work env path o site fd a t)
  unfolding guard_work
  guard_work-Stage path o site fd moved t h e = record { holds = h; free = λ p. cc; held = λ p. cc }
  guard_work-Stage path o site fd (busy st) t h e =
      recheck_guard-Stage site fd st o.exists 1 0 _ t
        (record { holds = h; free = λ p. cc; held = λ p. cc })
  guard_work-Stage path o site fd (acquired st) t h e =
      then_run-Outcome _ _ _ (guarded_probe env path o site st t) _
        (guarded_probe-Stage path o site st t h e)
        λ r u k. recheck_guard-Stage site fd st o.exists 1 1 r u k
  guard_work-Stage path o site fd (failed x) t h e = h

  pub guard_result-Stage :
      (path : String) (o : LockFileObservation) (site : Site) (fd : ℕ) (a : GuardAttempt) (t : Log)
      → Holds 1 (guard_locks a) s t
      → locks t ≡ locks s + guard_locks a
      → Returned
          (λ r u. Stage o.exists 1 (guard_locks a) s r u)
          (try_catch (guard_work env path o site fd a) unavailable t)
  guard_result-Stage path o site fd a t h e =
      or_handle-Returned _ _ (guard_work env path o site fd a t) unavailable
        (guard_work-Stage path o site fd a t h e)
        λ x u k. record { holds = k; free = λ p. cc; held = λ p. cc }

  pub finish_guard-Stage :
      (fd : ℕ) (exists : Bool) (a : GuardAttempt) (r : LockProbe) (t : Log)
      → Stage exists 1 (guard_locks a) s r t
      → Returned (λ r' u. Stage exists 0 0 s r' u) (finish_guard env fd a r t)
  unfolding finish_guard
  finish_guard-Stage fd exists (acquired st) r t h =
      then_run-Returned _ _ (release_guard env fd r t) _ (release_guard-Stage fd exists r t h)
        λ r' u k. close_guard-Stage fd exists r' u k
  finish_guard-Stage fd exists moved r t h = close_guard-Stage fd exists r t h
  finish_guard-Stage fd exists (busy st) r t h = close_guard-Stage fd exists r t h
  finish_guard-Stage fd exists (failed x) r t h = close_guard-Stage fd exists r t h

-- An early result claims nothing.
abbrev pub ClaimsNothing : Located → Type 0
ClaimsNothing (early r) = r.status ≡ ProbeStatus.unknown
ClaimsNothing (at_site site) = Unit {0}

pub locate-ClaimsNothing :
    (env : Env) (path : String) (s : Log)
    → Outcome
        (λ l u. Holds 0 0 s u × ClaimsNothing l × (locks u ≡ locks s))
        (λ u. Holds 0 0 s u)
        (locate env path s)
unfolding locate guard_entry
locate-ClaimsNothing env path s = ground arith
