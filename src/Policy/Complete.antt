-- ===== src/Policy/Complete.antt =====
-- Evidence that authorises an unlock leaves no blocker.
use codex_unlock.Base.{
  pos, integer_eq, ℕ, ◌≡◌, refl, ap, ◌↔◌, String, true, false, not, Option, none, some, List, [],
  ◌∷◌, ◌==◌, nat_eq, string_eq, bool_eq, option_eq, StrictEquality, length,
}
use codex_unlock.Types.{
  Presence, ProcessInfo, TranscriptInspection, InspectionEvidence, PublicFileSnapshot,
}
use codex_unlock.Policy.{
  SafetyContext, lock_blockers, known_owner_blockers, owner_blockers, lock_set_blockers,
  transcript_blockers, evaluate_safety, truthy, links_wrong, is_unknown,
}
use codex_unlock.Policy.Blockers.{block_if-of_false}
use codex_unlock.Policy.Authorised.{
  NoError, HasOneLink, IsLockHeld, IsRecoverableOwner, IsComplete, IsAuthorised,
}
use codex_unlock.Policy.Laws.{evaluate_safety_sound}

not-false_of_eq {ℓ} : {A : Type ℓ} ⦃e : StrictEquality A⦄ (a b : A) → a ≡ b → not (a == b) ≡ false
not-false_of_eq ⦃e⦄ a b h = ap not ((e.equals_iff a b).1 h)

truthy-false : (o : Option String) → NoError o → truthy o ≡ false
truthy-false none h = refl
truthy-false (some s) h = not-false_of_eq s "" h

links_wrong-false : (o : Option PublicFileSnapshot) → HasOneLink o → links_wrong o ≡ false
links_wrong-false none h = refl
links_wrong-false (some s) h = not-false_of_eq s.links 1 h

is_unknown-false : (p : Presence) → (p ≡ Presence.unknown → ⊥) → is_unknown p ≡ false
is_unknown-false Presence.present h = refl
is_unknown-false Presence.absent h = refl
is_unknown-false Presence.unknown h = absurd (h refl)

module _ (e : InspectionEvidence) (c : SafetyContext) where
  lock_blockers-nil : IsLockHeld e c.opener_error → lock_blockers e c [] ≡ []
  unfolding lock_blockers
  lock_blockers-nil h = block_if-of_false _ _ _ (not-false_of_eq _ _ h.same_owner) (
      block_if-of_false _ _ _ (not-false_of_eq (length e.openers) 1 h.one_opener) (
        block_if-of_false _ _ _ (truthy-false _ h.openers_seen) (
          block_if-of_false _ _ _ (rw h.held) (
            block_if-of_false _ _ _ (not-false_of_eq _ _ h.stable) (
              block_if-of_false _ _ _ (links_wrong-false _ h.one_link) (
                block_if-of_false _ _ _ (not-false_of_eq _ _ h.owned) (
                  block_if-of_false _ _ _ (not-false_of_eq _ _ h.no_symlink) (
                    block_if-of_false _ _ _ (not-false_of_eq _ _ h.regular) (
                      block_if-of_false _ _ _ (is_unknown-false _ h.observed) (
                        block_if-of_false _ _ _ (rw h.exists)
                          (block_if-of_false _ _ _ (rw h.live) refl)))))))))))

  known_owner_blockers-nil :
      (o : ProcessInfo)
      → IsRecoverableOwner o c.current_process_family c.current_uid
      → known_owner_blockers o c [] ≡ []
  unfolding known_owner_blockers
  known_owner_blockers-nil o h =
      let (u, cu, ou) = h.user in
      let (f, cf, out) = h.stranger in
      block_if-of_false _ _ _ (rw cf out) (
        block_if-of_false _ _ _ (rw cf) (
          block_if-of_false _ _ _ (rw cu (not-false_of_eq o.uid (some (pos u)) ou)) (
            block_if-of_false _ _ _ h.not_shared (
              block_if-of_false _ _ _ (rw h.codex)
                (block_if-of_false _ _ _ (rw h.complete) refl)))))

  lock_set_blockers-nil :
      (b : List String)
      → b ≡ []
      → NoError c.owner_lock_error
      → e.owner_lock_files ≡ some (e.lock.path ∷ [])
      → lock_set_blockers e c b ≡ []
  unfolding lock_set_blockers
  lock_set_blockers-nil b none_yet seen only =
      rw (only, lock_set_blockers)
        (block_if-of_false _ _ _ (not-false_of_eq e.lock.path e.lock.path refl)
          (block_if-of_false _ _ _ (truthy-false _ seen) none_yet))

transcript_blockers-nil :
    (t : TranscriptInspection) (b : List String)
    → b ≡ []
    → IsComplete t
    → transcript_blockers t b ≡ []
unfolding transcript_blockers
transcript_blockers-nil t b none_yet h =
    let (r, last, typed, done) = h.finished in
    block_if-of_false _ _ _
      (rw last (rw (not-false_of_eq r.record_type _ typed) (not-false_of_eq r.event_type _ done)))
      (block_if-of_false _ _ _ (not-false_of_eq _ _ h.stable)
        (block_if-of_false _ _ _ (rw h.found) none_yet))

evaluate_safety_complete :
    (join : List ℕ → String) (e : InspectionEvidence) (c : SafetyContext)
    → IsAuthorised e c.current_process_family c.current_uid c.opener_error c.owner_lock_error
    → (evaluate_safety join e c).safe_to_unlock ≡ true
unfolding evaluate_safety owner_blockers
evaluate_safety_complete join e c h =
    let (o, owned, recoverable) = h.owner in
    let b1 : owner_blockers e.owner c (lock_blockers e c []) ≡ [] =
      rw (lock_blockers-nil e c h.lock_held, owned) (known_owner_blockers-nil e c o recoverable) in
    let b2 = lock_set_blockers-nil e c _ b1 h.locks_seen h.only_lock in
    rw (transcript_blockers-nil e.transcript _ b2 h.transcript)

-- The decision is safe exactly when the evidence authorises a signal: no more is demanded than
-- the conditions of `IsAuthorised`, and no less.
pub evaluate_safety_iff :
    (join : List ℕ → String) (e : InspectionEvidence) (c : SafetyContext)
    → ((evaluate_safety join e c).safe_to_unlock ≡ true)
      ↔ IsAuthorised e c.current_process_family c.current_uid c.opener_error c.owner_lock_error
evaluate_safety_iff join e c = (evaluate_safety_sound join e c, evaluate_safety_complete join e c)
