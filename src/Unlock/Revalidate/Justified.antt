-- ===== src/Unlock/Revalidate/Justified.antt =====
-- What revalidation has established when it gives no reason against the signal.
use codex_unlock.Base.{
  eq_of_test, ◌≡◌, refl, Option, none, String, Bool, true, false, not, ◌&&◌, ◌||◌, some, List, [],
  ◌∷◌, ◌++◌, append-eq-nil, eq-true_of_not, or-eq-false, ◌==◌, nat_eq, string_eq, option_eq, arith,
  Bool-cases, inl, inr,
}
use codex_unlock.Types.{
  ProcessInfo, Presence, ProbeStatus, LockProbe, PublicFileSnapshot, InspectionResult,
  ProcessStartObservation, is_held, is_present, is_busy,
}
use codex_unlock.Util.{error_text, ◌<>◌}
use codex_unlock.Util.Snapshots.{same_snapshot, SameSnapshot, same_snapshot_sound}
use codex_unlock.Io.{Env, Log, Res, ok, throw, then_run, attempt_run, pure, ◌>>=◌}
use codex_unlock.Io.Answers.{Ran, Answers}
use codex_unlock.Io.Calm.{Outcome, then_run-Outcome}
use codex_unlock.Lock.{LockFileObservation, observe_lock_file}
use codex_unlock.Native.{guarded_probe_once}
use codex_unlock.Policy.{truthy}
use codex_unlock.Policy.Authorised.{NoError}
use codex_unlock.Policy.Laws.{NoError-truthy}
use codex_unlock.Unlock.Observers.{Services, LockFiles, FileHash}
use codex_unlock.Unlock.Compare.{reason_if, compare_inspections}
use codex_unlock.Unlock.Compare.Laws.{
  SameEvidence, compare_inspections_sound, reason_if-nil, same_string_array_sound, present_of,
  held_of,
}
use codex_unlock.Unlock.Revalidate.Hashes.{
  Rehashing, HashSays, RehashSays, hash_before-Says, rehash-Says,
}
use codex_unlock.Unlock.Revalidate.{
  Revalidation, Hashed, Rehashed, add, hash_before, rehash, reinspect, check_lock_set, check_start,
  check_transcript, check_probe, if_none, last_checks, revalidate, lock_set_reasons, probe_reasons,
}

snoc-ne-nil : (xs : List String) (x : String) → (xs ++ x ∷ []) ≡ [] → ⊥
snoc-ne-nil [] x h = cc
snoc-ne-nil (y ∷ ys) x h = cc

abbrev pub Trivial : Log → Type 0
Trivial t = Unit {0}

held_unless_busy : (held busy : Bool) → busy ≡ false → (not held && not busy) ≡ false → held ≡ true
held_unless_busy held busy h k = ground arith

-- The owner still holds only the inspected lock.
abbrev pub HoldsOnly : LockFiles → String → Type 0
HoldsOnly l path = NoError l.error × (l.paths ≡ path ∷ [])

module _ (env : Env) (services : Services) (i : InspectionResult) (o : ProcessInfo)
    (path : String) where
  -- What the second inspection and the two hashes have shown.
  record Known (f : InspectionResult) (x : Option PublicFileSnapshot) : Type 0 where
    agrees : SameEvidence i o f
    first : FileHash
    hashed : Ran (services.stable_file_hash path) first
    unmoved : SameSnapshot (some first.snapshot) i.transcript.snapshot
    rehashed : (y : PublicFileSnapshot) → x ≡ some y → Rehashing env services i path f first y

  -- The samples behind a signal, each with the run that took it; the last probe ended at `t`.
  pub record Justified (t : Log) : Type 0 where
    pub final : InspectionResult
    pub reinspected : Ran (services.inspect_thread i.thread_id) final
    pub agrees : SameEvidence i o final
    pub first_hash : FileHash
    pub hashed : Ran (services.stable_file_hash path) first_hash
    pub unmoved : SameSnapshot (some first_hash.snapshot) i.transcript.snapshot
    pub hash_snapshot : PublicFileSnapshot
    pub rehashed : Rehashing env services i path final first_hash hash_snapshot
    pub files : LockFiles
    pub sampled : Ran (services.lock_files_opened_by_process o.pid i.lock.path) files
    pub only : HoldsOnly files i.lock.path
    pub start : ProcessStartObservation
    pub started : Ran (services.process_start_time o.pid) start
    pub alive : (start.status ≡ Presence.present) × (start.start_time ≡ o.start_time)
    pub snapshot : PublicFileSnapshot
    pub seen : Ran (services.transcript_snapshot path) snapshot
    pub unchanged : SameSnapshot (some snapshot) final.transcript.snapshot
    pub unchanged_since_hash : SameSnapshot (some snapshot) (some hash_snapshot)
    pub observation : LockFileObservation
    pub same_lock : SameSnapshot final.lock.snapshot observation.snapshot
    pub probe : LockProbe
    pub before : Log
    pub probed : guarded_probe_once env i.lock.path observation before ≡ (ok probe, t)
    pub held : probe.status ≡ ProbeStatus.held

  -- The facts so far, each valid when there is no reason yet.
  abbrev Agrees : Revalidation → Log → Type 0
  Agrees r t =
      r.reasons ≡ []
      → Ran (services.inspect_thread i.thread_id) r.final × Known r.final r.final_hash_snapshot

  abbrev Only : Type 0
  Only =
      (files : LockFiles) × Ran (services.lock_files_opened_by_process o.pid i.lock.path) files
      × HoldsOnly files i.lock.path

  abbrev Sampled : Revalidation → Log → Type 0
  Sampled r t =
      r.reasons ≡ []
      → Ran (services.inspect_thread i.thread_id) r.final
        × Known r.final r.final_hash_snapshot
        × Only

  abbrev Alive : Type 0
  Alive =
      (start : ProcessStartObservation) × Ran (services.process_start_time o.pid) start
      × ((start.status ≡ Presence.present) × (start.start_time ≡ o.start_time))

  abbrev Unchanged : InspectionResult → Option PublicFileSnapshot → Type 0
  Unchanged f x =
      (s : PublicFileSnapshot) × Ran (services.transcript_snapshot path) s
      × SameSnapshot (some s) f.transcript.snapshot
      × SameSnapshot (some s) x

  only_of :
      (f : InspectionResult) (l : LockFiles) → lock_set_reasons i f l ≡ [] → HoldsOnly l i.lock.path
  only_of f l h = elim (Bool-cases (truthy l.error)) [
    | inl e ↦ cc (rw (e, lock_set_reasons) at h)
    | inr e ↦
        let (a, b) = or-eq-false _ _ (reason_if-nil _ _ (rw (e, lock_set_reasons) at h)) in
        let (k, p, q) = same_string_array_sound _ _ (eq-true_of_not _ a) in
        (NoError-truthy _ e, ground (arith, p, q))
  ]

  attempted_lock_set :
      (r : Revalidation) (s : Log) (p : Res LockFiles × Log)
      → services.lock_files_opened_by_process o.pid i.lock.path s ≡ p
      → Agrees r s
      → Outcome Sampled Trivial (
          attempt_run p
            (λ files. pure (add (lock_set_reasons i r.final files) r))
            (λ e. pure (add (("owner_lock_set_unknown_before_signal:" <> error_text e) ∷ []) r)))
  attempted_lock_set r s (ok l, t) e h = λ q.
      let (q1, q2) = append-eq-nil _ _ q in
      let (ran, same) = h q1 in (ran, same, (l, (s, t, e), only_of r.final l q2))
  attempted_lock_set r s (throw x, t) e h = λ q. absurd (snoc-ne-nil _ _ q)

  start_of :
      (x : ProcessStartObservation)
      → reason_if
          (not (is_present x.status) || not (x.start_time == o.start_time))
          "owner_changed_before_signal"
        ≡ []
      → (x.status ≡ Presence.present) × (x.start_time ≡ o.start_time)
  start_of x h =
      let (a, b) = or-eq-false _ _ (reason_if-nil _ _ h) in
      (
        present_of x.status (eq-true_of_not _ a),
        eq_of_test x.start_time o.start_time (eq-true_of_not _ b),
      )

  abbrev Started : Revalidation → Log → Type 0
  Started r t =
      r.reasons ≡ []
      → Ran (services.inspect_thread i.thread_id) r.final
        × Known r.final r.final_hash_snapshot
        × Only
        × Alive

  attempted_start :
      (r : Revalidation) (s : Log) (p : Res ProcessStartObservation × Log)
      → services.process_start_time o.pid s ≡ p
      → Sampled r s
      → Outcome Started Trivial (
          attempt_run p
            (λ x. pure (
              add
                (reason_if
                  (not (is_present x.status) || not (x.start_time == o.start_time))
                  "owner_changed_before_signal")
                r))
            (λ e. pure (add (("owner_observation_failed_before_signal:" <> error_text e) ∷ []) r)))
  attempted_start r s (ok x, t) e h = λ q.
      let (q1, q2) = append-eq-nil _ _ q in
      let (ran, same, only) = h q1 in (ran, same, only, (x, (s, t, e), start_of x q2))
  attempted_start r s (throw x, t) e h = λ q. absurd (snoc-ne-nil _ _ q)

  abbrev Seen : Revalidation → Log → Type 0
  Seen r t =
      r.reasons ≡ []
      → Ran (services.inspect_thread i.thread_id) r.final
        × Known r.final r.final_hash_snapshot
        × Only
        × Alive
        × Unchanged r.final r.final_hash_snapshot

  attempted_transcript :
      (r : Revalidation) (s : Log) (p : Res PublicFileSnapshot × Log)
      → services.transcript_snapshot path s ≡ p
      → Started r s
      → Outcome Seen Trivial (
          attempt_run p
            (λ x. pure (
              add
                (reason_if
                  (not (same_snapshot (some x) r.final_hash_snapshot)
                    || not (same_snapshot (some x) r.final.transcript.snapshot))
                  "transcript_changed_before_signal")
                r))
            (λ e.
              pure (add (("transcript_observation_failed_before_signal:" <> error_text e) ∷ []) r)))
  attempted_transcript r s (ok x, t) e h = λ q.
      let (q1, q2) = append-eq-nil _ _ q in
      let (ran, same, only, alive) = h q1 in
      let (a, b) = or-eq-false _ _ (reason_if-nil _ _ q2) in
      (
        ran,
        same,
        only,
        alive,
        (
          x,
          (s, t, e),
          same_snapshot_sound _ _ (eq-true_of_not _ b),
          same_snapshot_sound _ _ (eq-true_of_not _ a),
        ),
      )
  attempted_transcript r s (throw x, t) e h = λ q. absurd (snoc-ne-nil _ _ q)

  probe_of :
      (f : InspectionResult) (ob : LockFileObservation) (p : LockProbe)
      → probe_reasons f ob p ≡ []
      → SameSnapshot f.lock.snapshot ob.snapshot × (p.status ≡ ProbeStatus.held)
  probe_of f ob p h =
      let (h1, h2) = append-eq-nil _ _ h in
      let calm = reason_if-nil _ _ h1 in
      let (a, b) = or-eq-false _ _ (reason_if-nil _ _ h2) in
      (
        same_snapshot_sound _ _ (eq-true_of_not _ a),
        held_of p.status (held_unless_busy (is_held p.status) (is_busy p.guard) calm b),
      )

  abbrev Final : Revalidation → Log → Type 0
  Final r t = r.reasons ≡ [] → Justified t

  -- The facts in one record, with the snapshot of the second hash.
  justified :
      (f : InspectionResult) (x : Option PublicFileSnapshot) (ob : LockFileObservation) (s t : Log)
      (p : LockProbe)
      → Ran (services.inspect_thread i.thread_id) f
      → Known f x
      → Only
      → Alive
      → Unchanged f x
      → SameSnapshot f.lock.snapshot ob.snapshot
      → guarded_probe_once env i.lock.path ob s ≡ (ok p, t)
      → p.status ≡ ProbeStatus.held
      → Justified t
  justified f none ob s t p ran known only alive (snap, seen, same, none_same) lock e held =
      absurd none_same
  justified f (some x) ob s t p ran known (files, sampled, only) (start, started, alive)
        (snap, seen, same, same_hash) lock e held =
      record {
        final = f;
        reinspected = ran;
        agrees = known.agrees;
        first_hash = known.first;
        hashed = known.hashed;
        unmoved = known.unmoved;
        hash_snapshot = x;
        rehashed = known.rehashed x refl;
        files = files;
        sampled = sampled;
        only = only;
        start = start;
        started = started;
        alive = alive;
        snapshot = snap;
        seen = seen;
        unchanged = same;
        unchanged_since_hash = same_hash;
        observation = ob;
        same_lock = lock;
        probe = p;
        before = s;
        probed = e;
        held = held;
      }

  after_probe :
      (r : Revalidation) (ob : LockFileObservation) (s u : Log) (p : Res LockProbe × Log)
      → guarded_probe_once env i.lock.path ob s ≡ p
      → Seen r u
      → Outcome Final Trivial (then_run p (λ x. pure (add (probe_reasons r.final ob x) r)))
  after_probe r ob s u (throw x, t) e h = tt
  after_probe r ob s u (ok p, t) e h = λ q.
      let (q1, q2) = append-eq-nil _ _ q in
      let (ran, known, only, alive, unchanged) = h q1 in
      let (lock, held) = probe_of r.final ob p q2 in
      justified r.final r.final_hash_snapshot ob s t p ran known only alive unchanged lock e held

  checked_probe :
      (r : Revalidation) (u : Log) (p : Res LockFileObservation × Log)
      → Seen r u
      → Outcome Final Trivial (
          then_run p (λ ob.
            guarded_probe_once env i.lock.path ob
            >>= (λ x. pure (add (probe_reasons r.final ob x) r))))
  checked_probe r u (ok ob, t) h =
      after_probe r ob t u (guarded_probe_once env i.lock.path ob t) refl h
  checked_probe r u (throw x, t) h = tt

  last_checks-Final :
      (r : Revalidation) (s : Log)
      → Sampled r s
      → Outcome Final Trivial (last_checks env services i o path r s)
  unfolding last_checks check_start check_transcript check_probe
  last_checks-Final r s h =
      then_run-Outcome Started Final Trivial (check_start env services o r s) _
        (attempted_start r s (services.process_start_time o.pid s) refl h)
        λ r1 t1 h1.
          then_run-Outcome Seen Final Trivial (check_transcript env services path r1 t1) _
            (attempted_transcript r1 t1 (services.transcript_snapshot path t1) refl h1)
            λ r2 t2 h2. checked_probe r2 t2 (observe_lock_file env i.lock.path t2) h2

  clean-Final :
      (r : Revalidation) (rs : List String) (s : Log)
      → r.reasons ≡ rs
      → Sampled r s
      → Outcome Final Trivial (if_none rs (last_checks env services i o path) r s)
  clean-Final r [] s e h = last_checks-Final r s h
  clean-Final r (x ∷ xs) s e h = λ q. cc

  clean-Sampled :
      (r : Revalidation) (rs : List String) (s : Log)
      → r.reasons ≡ rs
      → Agrees r s
      → Outcome Sampled Trivial (if_none rs (check_lock_set env services i o) r s)
  unfolding check_lock_set
  clean-Sampled r [] s e h =
      attempted_lock_set r s (services.lock_files_opened_by_process o.pid i.lock.path s) refl h
  clean-Sampled r (x ∷ xs) s e h = λ q. cc

  reinspected_rest :
      (h : Hashed) (f : InspectionResult) (q : Res Rehashed × Log)
      → Ran (services.inspect_thread i.thread_id) f
      → HashSays env services i path h
      → ((g : FileHash) → h.hash ≡ some g.hash → Answers (RehashSays env services i path f g) q)
      → Outcome Agrees Trivial (
          then_run q (λ r. pure (record {
            before_hash = h.hash;
            final = f;
            final_hash_snapshot = r.snapshot;
            reasons = h.reasons ++ compare_inspections i o f ++ r.reasons;
          })))
  reinspected_rest h f (throw x, t) ran first again = tt
  reinspected_rest h f (ok r, t) ran first again = λ e.
      let (e1, e2) = append-eq-nil _ _ e in
      let (e3, e4) = append-eq-nil _ _ e1 in
      let (g, hashed, same, unmoved) = first e3 in
      (
        ran,
        record {
          agrees = compare_inspections_sound i o f e4;
          first = g;
          hashed = hashed;
          unmoved = unmoved;
          rehashed = again g same e2;
        },
      )

  reinspected_inspection :
      (h : Hashed) (s : Log) (q : Res InspectionResult × Log)
      → services.inspect_thread i.thread_id s ≡ q
      → HashSays env services i path h
      → Outcome Agrees Trivial (
          then_run q (λ f. rehash env services f f.transcript.path h.hash >>= (λ r. pure (record {
            before_hash = h.hash;
            final = f;
            final_hash_snapshot = r.snapshot;
            reasons = h.reasons ++ compare_inspections i o f ++ r.reasons;
          }))))
  reinspected_inspection h s (throw x, t) e first = tt
  reinspected_inspection h s (ok f, t) e first =
      reinspected_rest h f (rehash env services f f.transcript.path h.hash t) (s, t, e) first
        λ g k. (rehash-Says env services i path f g f.transcript.path h.hash refl k).at t

  reinspect-Agrees : (s : Log) → Outcome Agrees Trivial (reinspect env services i o path s)
  unfolding reinspect
  reinspect-Agrees s =
      by_hash (hash_before env services i path s) ((hash_before-Says env services i path).at s)
    where
      by_hash :
          (q : Res Hashed × Log)
          → Answers (HashSays env services i path) q
          → Outcome Agrees Trivial (
              then_run q (λ h. services.inspect_thread i.thread_id >>= (λ f.
                rehash env services f f.transcript.path h.hash >>= (λ r. pure (record {
                  before_hash = h.hash;
                  final = f;
                  final_hash_snapshot = r.snapshot;
                  reasons = h.reasons ++ compare_inspections i o f ++ r.reasons;
                })))))
      by_hash (throw x, t) first = tt
      by_hash (ok h, t) first =
          reinspected_inspection h t (services.inspect_thread i.thread_id t) refl first

  -- When revalidation returns without a reason, the signal is justified: the transcript was hashed
  -- in the state that the first inspection saw, a second inspection that was run agrees with the
  -- first, its transcript was hashed again with the same hash and in the state that it saw, the
  -- owner was seen to hold this lock alone and to be alive since the same start, the transcript was
  -- last seen as at the second hash and inspection, and the probe that ended the revalidation found
  -- the same lock file held.
  pub revalidate-Justified :
      (s : Log)
      → Outcome (λ r t. r.reasons ≡ [] → Justified t) Trivial (revalidate env services i o path s)
  unfolding revalidate
  revalidate-Justified s =
      then_run-Outcome Agrees Final Trivial (reinspect env services i o path s) _
        (reinspect-Agrees s)
        λ r t h.
          then_run-Outcome Sampled Final Trivial
            (if_none r.reasons (check_lock_set env services i o) r t) _
            (clean-Sampled r r.reasons t refl h) λ r1 u h1. clean-Final r1 r1.reasons u refl h1
