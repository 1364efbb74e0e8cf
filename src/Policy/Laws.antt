-- ===== src/Policy/Laws.antt =====
-- The list of blockers is empty exactly when the evidence authorises the unlock.
use codex_unlock.Base.{
  ℤ, pos, integer_eq, ℕ, ◌≡◌, refl, ap, ◌∙◌, String, true, false, not, Option, none, some, List, [],
  ◌∷◌, ◌==◌, nat_eq, string_eq, bool_eq, option_eq, StrictEquality, length, arith, eq-true_of_not,
  or-eq-false, Option-cases, inl, inr, includes,
}
use codex_unlock.Types.{ProcessInfo, TranscriptRecord, TranscriptInspection, InspectionEvidence}
use codex_unlock.Policy.{
  SafetyContext, lock_blockers, known_owner_blockers, owner_blockers, lock_set_blockers,
  transcript_blockers, evaluate_safety, truthy, links_wrong, not_only, wrong_user, in_family,
  is_none, not_complete,
}
use codex_unlock.Policy.Blockers.{add_once-ne-nil, block_if-eq-nil}
use codex_unlock.Policy.Authorised.{
  NoError, HasOneLink, IsLockHeld, IsRecoverableOwner, IsComplete, IsAuthorised,
}

eq_of_not-false {ℓ} : {A : Type ℓ} ⦃e : StrictEquality A⦄ (a b : A) → not (a == b) ≡ false → a ≡ b
eq_of_not-false ⦃e⦄ a b h = (e.equals_iff a b).0 (eq-true_of_not _ h)

pub NoError-truthy : (o : Option String) → truthy o ≡ false → NoError o
NoError-truthy none h = tt
NoError-truthy (some s) h = eq_of_not-false s "" h

HasOneLink-links_wrong : (o : Option _) → links_wrong o ≡ false → HasOneLink o
HasOneLink-links_wrong none h = tt
HasOneLink-links_wrong (some s) h = eq_of_not-false s.links 1 h

length-eq-zero {ℓ} : {A : Type ℓ} (xs : List A) → (length xs == 0) ≡ true → xs ≡ []
length-eq-zero [] h = refl
length-eq-zero (x ∷ xs) h = absurd (ground arith)

module _ (e : InspectionEvidence) (c : SafetyContext) where
  lock_blockers-eq-nil :
      (b : List String) → lock_blockers e c b ≡ [] → IsLockHeld e c.opener_error × (b ≡ [])
  unfolding lock_blockers
  lock_blockers-eq-nil b h0 =
      let (t12, h1) = block_if-eq-nil _ _ _ h0 in
      let (t11, h2) = block_if-eq-nil _ _ _ h1 in
      let (t10, h3) = block_if-eq-nil _ _ _ h2 in
      let (t9, h4) = block_if-eq-nil _ _ _ h3 in
      let (t8, h5) = block_if-eq-nil _ _ _ h4 in
      let (t7, h6) = block_if-eq-nil _ _ _ h5 in
      let (t6, h7) = block_if-eq-nil _ _ _ h6 in
      let (t5, h8) = block_if-eq-nil _ _ _ h7 in
      let (t4, h9) = block_if-eq-nil _ _ _ h8 in
      let (t3, h10) = block_if-eq-nil _ _ _ h9 in
      let (t2, h11) = block_if-eq-nil _ _ _ h10 in
      let (t1, h12) = block_if-eq-nil _ _ _ h11 in
      (
        record {
          live = ground arith;
          exists = eq-true_of_not _ t2;
          observed = λ p. ground arith;
          regular = eq_of_not-false _ _ t4;
          no_symlink = eq_of_not-false _ _ t5;
          owned = eq_of_not-false _ _ t6;
          one_link = HasOneLink-links_wrong _ t7;
          stable = eq_of_not-false _ _ t8;
          held = ground arith;
          openers_seen = NoError-truthy _ t10;
          one_opener = eq_of_not-false (length e.openers) 1 t11;
          same_owner = eq_of_not-false _ _ t12;
        },
        h12,
      )

user_of :
    (u : Option ℕ) (o : Option ℤ)
    → wrong_user u o ≡ false
    → (n : ℕ) × (u ≡ some n) × (o ≡ some (pos n))
user_of none o h = cc
user_of (some n) o h = (n, refl, eq_of_not-false o (some (pos n)) h)

stranger_of :
    (f : Option (List ℕ)) (pid : ℕ)
    → is_none f ≡ false
    → in_family f pid ≡ false
    → (l : List ℕ) × (f ≡ some l) × (includes l pid ≡ false)
stranger_of none pid h k = cc
stranger_of (some l) pid h k = (l, refl, k)

only_of : (fs : List String) (p : String) → not_only fs p ≡ false → fs ≡ p ∷ []
only_of [] p h = cc
only_of (f ∷ []) p h = ap (λ x. x ∷ []) (eq_of_not-false f p h)
only_of (f ∷ g ∷ r) p h = cc

finished_of :
    (o : Option TranscriptRecord)
    → not_complete o ≡ false
    → (r : TranscriptRecord) × (o ≡ some r)
      × (r.record_type ≡ some "event_msg")
      × (r.event_type ≡ some "task_complete")
finished_of none h = cc
finished_of (some r) h =
    let (a, b) = or-eq-false _ _ h in (r, refl, eq_of_not-false _ _ a, eq_of_not-false _ _ b)

module _ (e : InspectionEvidence) (c : SafetyContext) where
  known_owner_blockers-eq-nil :
      (o : ProcessInfo) (b : List String)
      → known_owner_blockers o c b ≡ []
      → IsRecoverableOwner o c.current_process_family c.current_uid × (b ≡ [])
  unfolding known_owner_blockers
  known_owner_blockers-eq-nil o b h0 =
      let (t6, h1) = block_if-eq-nil _ _ _ h0 in
      let (t5, h2) = block_if-eq-nil _ _ _ h1 in
      let (t4, h3) = block_if-eq-nil _ _ _ h2 in
      let (t3, h4) = block_if-eq-nil _ _ _ h3 in
      let (t2, h5) = block_if-eq-nil _ _ _ h4 in
      let (t1, h6) = block_if-eq-nil _ _ _ h5 in
      (
        record {
          complete = eq-true_of_not _ t1;
          codex = eq-true_of_not _ t2;
          not_shared = t3;
          user = user_of _ _ t4;
          stranger = stranger_of _ _ t5 t6;
        },
        h6,
      )

  owner_blockers-eq-nil :
      (o : Option ProcessInfo) (b : List String)
      → owner_blockers o c b ≡ []
      → ((p : ProcessInfo) × (o ≡ some p)
          × IsRecoverableOwner p c.current_process_family c.current_uid)
        × (b ≡ [])
  unfolding owner_blockers
  owner_blockers-eq-nil none b h = absurd (add_once-ne-nil _ _ h)
  owner_blockers-eq-nil (some o) b h =
      let (r, k) = known_owner_blockers-eq-nil o b h in ((o, refl, r), k)

  lock_set_blockers-eq-nil :
      (b : List String)
      → lock_set_blockers e c b ≡ []
      → NoError c.owner_lock_error × (e.owner_lock_files ≡ some (e.lock.path ∷ [])) × (b ≡ [])
  unfolding lock_set_blockers
  lock_set_blockers-eq-nil b h = elim (Option-cases e.owner_lock_files) [
    | inl q ↦ absurd (add_once-ne-nil _ _ (rw (q, lock_set_blockers) at h))
    | inr (fs, q) ↦
        let (t2, h1) = block_if-eq-nil _ _ _ (rw (q, lock_set_blockers) at h) in
        let (t1, h2) = block_if-eq-nil _ _ _ h1 in
        (NoError-truthy _ t1, q ∙ ap some (only_of fs e.lock.path t2), h2)
  ]

transcript_blockers-eq-nil :
    (t : TranscriptInspection) (b : List String)
    → transcript_blockers t b ≡ []
    → IsComplete t × (b ≡ [])
unfolding transcript_blockers
transcript_blockers-eq-nil t b h0 =
    let (t3, h1) = block_if-eq-nil _ _ _ h0 in
    let (t2, h2) = block_if-eq-nil _ _ _ h1 in
    let (t1, h3) = block_if-eq-nil _ _ _ h2 in
    (
      record { found = ground arith; stable = eq_of_not-false _ _ t2; finished = finished_of _ t3 },
      h3,
    )

-- The decision is safe only for evidence that authorises a signal: a held, stable, regular lock
-- file of the current user with one opener, a stable Codex owner of that user outside the current
-- process family that is no shared service and holds no other lock, and a stable transcript whose
-- last record is a completed task.
pub evaluate_safety_sound :
    (join : List ℕ → String) (e : InspectionEvidence) (c : SafetyContext)
    → (evaluate_safety join e c).safe_to_unlock ≡ true
    → IsAuthorised e c.current_process_family c.current_uid c.opener_error c.owner_lock_error
unfolding evaluate_safety
evaluate_safety_sound join e c h =
    let (transcript, h1) = transcript_blockers-eq-nil e.transcript _ (length-eq-zero _ h) in
    let (seen, only, h2) = lock_set_blockers-eq-nil e c _ h1 in
    let (owner, h3) = owner_blockers-eq-nil e c e.owner _ h2 in
    let (held, _) = lock_blockers-eq-nil e c [] h3 in
    record {
      lock_held = held;
      owner = owner;
      locks_seen = seen;
      only_lock = only;
      transcript = transcript;
    }
