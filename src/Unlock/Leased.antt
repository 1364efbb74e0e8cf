-- ===== src/Unlock/Leased.antt =====
-- The lease around an unlock: whatever happens under it, it is given back.
use codex_unlock.Base.{
  ◌+◌, ◌≡◌, refl, String, false, if◌then◌else◌, Option, none, some, List, [], ◌∷◌, arith, inl, inr,
  Bool-cases,
}
use codex_unlock.Types.{ProcessInfo, DoctorOptions, InspectionResult, UnlockResult}
use codex_unlock.Io.{Env, Log, Res, ok, throw, then_run, closed, released}
use codex_unlock.Io.Calm.{
  Holds, signals, opens, closes, Returned, Outcome, Outcome-map, Outcome-Returned, chain-Holds,
}
use codex_unlock.Io.Total.{calm-Outcome}
use codex_unlock.Coordination.{
  UnlockLease, UnlockLeaseAttempt, acquired, contended, unknown, acquire_unlock_lease,
  release_lease,
}
use codex_unlock.Coordination.Laws.{
  Keeps, lease_files, IsLocked, acquire_unlock_lease-Keeps, release_lease-once,
}
use codex_unlock.Unlock.{
  is_settled, signal_target, signal_if_valid, unlock_target, unlock_inspected_thread, with_lease,
  unlock_leased, unlock_thread, released_after,
}
use codex_unlock.Unlock.Observers.{Services, AreCalm}
use codex_unlock.Unlock.Revalidate.{Revalidation, revalidate}
use codex_unlock.Unlock.Revalidate.Quiet.{revalidate-Calm}
use codex_unlock.Unlock.Signal.Quiet.{Reports}
use codex_unlock.Unlock.Signal.Reports.{terminate_revalidated_owner-Reports}

-- One signal was sent if the result says so and none otherwise, and no descriptor is left open.
pub record Accounts (s : Log) (r : UnlockResult) (t : Log) : Type 0 where
  pub sent : signals t ≡ signals s + (if r.signal_sent then 1 else 0)
  pub same : r.changed ≡ r.signal_sent
  pub files : opens t + closes s ≡ opens s + closes t

-- An exception leaves no signal and no descriptor behind.
pub record Aborts (s t : Log) : Type 0 where
  pub quiet : signals t ≡ signals s
  pub files : opens t + closes s ≡ opens s + closes t

after_quiet : (r : UnlockResult) {s t u : Log} → Holds 0 0 s t → Reports t r u → Reports s r u
after_quiet r h g = record {
  sent = rw (g.sent, h.quiet) refl;
  same = g.same;
  files = omega arith;
  flocks = omega arith;
}

unsignalled :
    (r : UnlockResult) (s : Log) → r.signal_sent ≡ false → r.changed ≡ false → Reports s r s
unsignalled r s h g = record {
  sent = rw h (omega arith);
  same = rw (g, h) refl;
  files = omega arith;
  flocks = omega arith;
}

module _ (env : Env) (services : Services) (calm : AreCalm services) where
  signal_if_valid-Reports :
      (i : InspectionResult) (o : ProcessInfo) (path : String) (options : DoctorOptions)
      (r : Revalidation) (reasons : List String) (s : Log)
      → r.reasons ≡ reasons
      → Outcome
          (λ x t. Reports s x t)
          (λ t. Holds 0 0 s t)
          (signal_if_valid env services i o path options r s)
  unfolding signal_if_valid
  signal_if_valid-Reports i o path options r [] s h =
      rw (h, signal_if_valid)
        (Outcome-Returned (λ x t. Reports s x t) _ (λ t. Holds 0 0 s t) _
          (terminate_revalidated_owner-Reports env services calm _ options s) λ x t g. g)
  signal_if_valid-Reports i o path options r (x ∷ xs) s h =
      rw (h, signal_if_valid) (unsignalled _ s refl refl)

  target-Reports :
      (i : InspectionResult) (target : Option (ProcessInfo × String)) (options : DoctorOptions)
      (s : Log)
      → Outcome
          (λ x t. Reports s x t)
          (λ t. Holds 0 0 s t)
          (unlock_target env services i target options s)
  unfolding unlock_target
  target-Reports i none options s = unsignalled _ s refl refl
  target-Reports i (some (o, path)) options s = revalidated (revalidate env services i o path s) (
      calm-Outcome (revalidate env services i o path) (revalidate-Calm env services calm i o path)
        s)
    where
      revalidated :
          (p : Res Revalidation × Log)
          → Outcome (λ r t. Holds 0 0 s t) (λ t. Holds 0 0 s t) p
          → Outcome
              (λ x t. Reports s x t)
              (λ t. Holds 0 0 s t)
              (then_run p (signal_if_valid env services i o path options))
      revalidated (throw e, t) h = h
      revalidated (ok r, t) h =
          Outcome-map _ (signal_if_valid-Reports i o path options r r.reasons t refl)
            (λ x u. after_quiet x h) (λ u. chain-Holds h)

  pub unlock_inspected_thread-Reports :
      (i : InspectionResult) (options : DoctorOptions) (s : Log)
      → Outcome
          (λ x t. Reports s x t)
          (λ t. Holds 0 0 s t)
          (unlock_inspected_thread env services i options s)
  unfolding unlock_inspected_thread
  unlock_inspected_thread-Reports i options s = elim (Bool-cases (is_settled i.classification)) [
    | inl h ↦ rw (h, unlock_inspected_thread) (unsignalled _ s refl refl)
    | inr h ↦ rw (h, unlock_inspected_thread) (target-Reports i (signal_target i) options s)
  ]

  -- After the release of an acquired lease.
  given_back :
      {A : Type 0} (lease : UnlockLease) (x : Res A) (P : A → Log → Type 0) (Q : Log → Type 0)
      (t : Log)
      → lease.is_released ≡ false
      → Outcome P Q (x, closed lease.descriptor ∷ released lease.descriptor ∷ t)
      → Outcome P Q (then_run (release_lease env lease t) (λ l u. (x, u)))
  given_back lease x P Q t h g =
      after (release_lease env lease t) (release_lease-once env lease t h)
    where
      after :
          (p : Res UnlockLease × Log)
          → Returned
              (λ l u.
                (u ≡ closed lease.descriptor ∷ released lease.descriptor ∷ t)
                × (release_lease env l u ≡ (ok l, u)))
              p
          → Outcome P Q (then_run p (λ l u. (x, u)))
      after (ok l, u) (e, k) = rw e g
      after (throw z, u) k = absurd k

  released_after-Accounts :
      (lease : UnlockLease) {s t : Log} (p : Res UnlockResult × Log)
      → lease.is_released ≡ false
      → Keeps 1 s t
      → Outcome (λ r u. Reports t r u) (λ u. Holds 0 0 t u) p
      → Outcome (λ r u. Accounts s r u) (λ u. Aborts s u) (released_after env services lease p)
  released_after-Accounts lease (ok r, u) h k g =
      given_back lease (ok r) _ _ u h
        (record { sent = rw (g.sent, k.quiet) refl; same = g.same; files = omega arith })
  released_after-Accounts lease (throw e, u) h k g =
      given_back lease (throw e) (λ r v. Accounts _ r v) _ u h (omega arith)

  with_lease-Accounts :
      (i : InspectionResult) (options : DoctorOptions) (a : UnlockLeaseAttempt) (s t : Log)
      → Keeps (lease_files a) s t
      → IsLocked a s t
      → Outcome (λ r u. Accounts s r u) (λ u. Aborts s u) (with_lease env services i options a t)
  unfolding with_lease
  with_lease-Accounts i options (acquired lease) s t k l =
      released_after-Accounts lease _ l.2 k (unlock_inspected_thread-Reports i options t)
  with_lease-Accounts i options contended s t k l = record {
    sent = omega arith;
    same = refl;
    files = omega arith;
  }
  with_lease-Accounts i options (unknown reason) s t k l = record {
    sent = omega arith;
    same = refl;
    files = omega arith;
  }

  after_Holds :
      (i : InspectionResult) (options : DoctorOptions) (s t : Log) (p : Res UnlockResult × Log)
      → Holds 0 0 s t
      → Outcome (λ r u. Accounts t r u) (λ u. Aborts t u) p
      → Outcome (λ r u. Accounts s r u) (λ u. Aborts s u) p
  after_Holds i options s t p h g =
      Outcome-map p g
        (λ r u k. record { sent = rw (k.sent, h.quiet) refl; same = k.same; files = omega arith })
        (λ u k. omega arith)

  leased-Accounts :
      (i : InspectionResult) (target : Option (ProcessInfo × String)) (options : DoctorOptions)
      (thread_id : String) (t : Log)
      → Outcome
          (λ r u. Accounts t r u)
          (λ u. Aborts t u)
          (unlock_leased env services i target options thread_id t)
  leased-Accounts i none options thread_id t =
      Outcome-map {R = λ r u. Accounts t r u} {S = λ u. Aborts t u} _
        (unlock_inspected_thread-Reports i options t)
        (λ r u g. record { sent = g.sent; same = g.same; files = g.files }) (λ u g. omega arith)
  leased-Accounts i (some target) options thread_id t =
      leased (acquire_unlock_lease env options.codex_home thread_id t)
        (acquire_unlock_lease-Keeps env options.codex_home thread_id t)
    where
      leased :
          (p : Res UnlockLeaseAttempt × Log)
          → Returned (λ a u. Keeps (lease_files a) t u × IsLocked a t u) p
          → Outcome
              (λ r u. Accounts t r u)
              (λ u. Aborts t u)
              (then_run p (with_lease env services i options))
      leased (ok a, u) h = with_lease-Accounts i options a t u h.0 h.1
      leased (throw e, u) h = absurd h

  -- With observations that leave nothing behind, a run of the unlock sends at most one signal:
  -- one when its result says that it was sent, none when it does not and none when it throws.
  -- `changed` is `signal_sent`, and every descriptor opened on the way, the lease's included,
  -- is closed at the end, also after an exception.
  pub unlock_thread-Accounts :
      (thread_id : String) (options : DoctorOptions) (s : Log)
      → Outcome
          (λ r t. Accounts s r t)
          (λ t. Aborts s t)
          (unlock_thread env services thread_id options s)
  unfolding unlock_thread
  unlock_thread-Accounts thread_id options s =
      inspected (services.inspect_thread thread_id s)
        (calm-Outcome (services.inspect_thread thread_id) (calm.inspect_thread thread_id) s)
    where
      inspected :
          (p : Res InspectionResult × Log)
          → Outcome (λ i t. Holds 0 0 s t) (λ t. Holds 0 0 s t) p
          → Outcome
              (λ r t. Accounts s r t)
              (λ t. Aborts s t)
              (then_run p (λ i. unlock_leased env services i (signal_target i) options thread_id))
      inspected (ok i, t) h =
          after_Holds i options s t
            (unlock_leased env services i (signal_target i) options thread_id t) h
            (leased-Accounts i (signal_target i) options thread_id t)
      inspected (throw e, t) h = omega arith
