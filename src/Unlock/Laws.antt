-- ===== src/Unlock/Laws.antt =====
-- Every signal that src/unlock.ts sends is justified, and none of its ends leaves a descriptor
-- open or a lease held.
use codex_unlock.Base.{
  ◌≡◌, refl, String, Bool, true, false, Option, none, some, List, [], ◌∷◌, arith, inl, inr,
  Bool-cases,
}
use codex_unlock.Types.{ProcessInfo, DoctorOptions, InspectionResult, UnlockResult}
use codex_unlock.Io.{Env, Log, Res, ok, throw}
use codex_unlock.Io.Calm.{Outcome, then_run-Outcome}
use codex_unlock.Unlock.{
  is_settled, signal_target, target_of, signal_if_valid, unlock_target, unlock_inspected_thread,
}
use codex_unlock.Unlock.Observers.{Services}
use codex_unlock.Unlock.Revalidate.{Revalidation, revalidate}
use codex_unlock.Unlock.Revalidate.Justified.{Justified, Trivial, revalidate-Justified}
use codex_unlock.Unlock.Signal.Delivered.{IsDelivered, terminate_revalidated_owner-Delivered}

-- The inspection allowed a signal to this owner, with this transcript.
pub record Targets (i : InspectionResult) (o : ProcessInfo) (path : String) : Type 0 where
  pub safe : i.safe_to_unlock ≡ true
  pub owner : i.owner ≡ some o
  pub transcript : i.transcript.path ≡ some path

target_of-Targets :
    (safe : Bool) (owner : Option ProcessInfo) (transcript : Option String) {o : ProcessInfo}
    {path : String}
    → target_of safe owner transcript ≡ some (o, path)
    → (safe ≡ true) × (owner ≡ some o) × (transcript ≡ some path)
target_of-Targets false owner transcript h = cc
target_of-Targets true none transcript h = cc
target_of-Targets true (some p) none h = cc
target_of-Targets true (some p) (some t) h = ground arith

module _ (env : Env) (services : Services) (i : InspectionResult) where
  -- SIGTERM was delivered to the inspected owner right after a revalidation without a reason.
  pub record Licensed (r : UnlockResult) : Type 0 where
    pub owner : ProcessInfo
    pub path : String
    pub targets : Targets i owner path
    pub at : Log
    pub justified : Justified env services i owner path at
    pub delivered : env.terminate at owner.pid ≡ ok tt
    pub to_owner : r.pid ≡ some owner.pid

  abbrev IsLicensed : UnlockResult → Log → Type 0
  IsLicensed r t = r.signal_sent ≡ true → Licensed r

  licensed :
      (o : ProcessInfo) (path : String) (t : Log) (p : Res UnlockResult × Log)
      → Targets i o path
      → Justified env services i o path t
      → Outcome (λ r u. IsDelivered env t o r) Trivial p
      → Outcome IsLicensed Trivial p
  licensed o path t (throw e, u) targets j h = tt
  licensed o path t (ok r, u) targets j h = λ k.
      let (delivered, to_owner) = h k in
      record {
        owner = o;
        path = path;
        targets = targets;
        at = t;
        justified = j;
        delivered = delivered;
        to_owner = to_owner;
      }

  valid-Licensed :
      (o : ProcessInfo) (path : String) (options : DoctorOptions) (r : Revalidation) (t : Log)
      (reasons : List String)
      → r.reasons ≡ reasons
      → Targets i o path
      → (r.reasons ≡ [] → Justified env services i o path t)
      → Outcome IsLicensed Trivial (signal_if_valid env services i o path options r t)
  unfolding signal_if_valid
  valid-Licensed o path options r t [] q targets h =
      rw (q, signal_if_valid)
        (licensed o path t _ targets (h q)
          (terminate_revalidated_owner-Delivered env services _ options t))
  valid-Licensed o path options r t (x ∷ xs) q targets h = rw (q, signal_if_valid) (λ k. cc)

  target-Licensed :
      (target : Option (ProcessInfo × String)) (options : DoctorOptions) (s : Log)
      → signal_target i ≡ target
      → Outcome IsLicensed Trivial (unlock_target env services i target options s)
  unfolding unlock_target
  target-Licensed none options s h = λ k. cc
  target-Licensed (some (o, path)) options s h =
      then_run-Outcome (λ r t. r.reasons ≡ [] → Justified env services i o path t) IsLicensed
        Trivial (revalidate env services i o path s) _
        (revalidate-Justified env services i o path s)
        λ r t j.
          valid-Licensed o path options r t r.reasons refl
            (let (a, b, c) = target_of-Targets i.safe_to_unlock i.owner i.transcript.path h in
              record { safe = a; owner = b; transcript = c })
            j

  -- Whenever the unlock of an inspected thread says that it sent SIGTERM, the inspection had
  -- found it safe and had named the owner and the transcript, a revalidation of that owner had
  -- just succeeded (a second inspection agreed, the owner held this lock alone, lived since the
  -- same start, the transcript was unchanged and the lock held), and the signal was delivered to
  -- that owner at the very moment at which the last probe had ended.
  pub unlock_inspected_thread-Licensed :
      (options : DoctorOptions) (s : Log)
      → Outcome
          (λ r t. r.signal_sent ≡ true → Licensed r)
          Trivial
          (unlock_inspected_thread env services i options s)
  unfolding unlock_inspected_thread
  unlock_inspected_thread-Licensed options s = elim (Bool-cases (is_settled i.classification)) [
    | inl h ↦ rw (h, unlock_inspected_thread) (λ k. cc)
    | inr h ↦ rw (h, unlock_inspected_thread) (target-Licensed (signal_target i) options s refl)
  ]
