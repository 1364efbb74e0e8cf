-- ===== src/Tests/Policies.antt =====
-- The policy and the comparison of inspections at concrete evidence.
use codex_unlock.Base.{◌≡◌, ◌↔◌, refl, true, some, []}
use codex_unlock.Policy.{
  evaluate_safety, transcript_blockers, lock_set_blockers, owner_blockers, known_owner_blockers,
  lock_blockers,
}
use codex_unlock.Policy.Blockers.{block_if}
use codex_unlock.Policy.Authorised.{IsAuthorised}
use codex_unlock.Policy.Complete.{evaluate_safety_iff}
use codex_unlock.Util.Snapshots.{same_snapshot}
use codex_unlock.Unlock.Compare.{
  compare_inspections, same_owner_evidence, same_string_array, same_last_record,
}
use codex_unlock.Unlock.Compare.Laws.{SameEvidence, compare_inspections_sound}
use codex_unlock.Tests.World.{evidence_1, context_1, inspection_1, owner_1}

-- The evidence of the small platform authorises the signal.
allowed : (evaluate_safety (λ pids. "0") evidence_1 context_1).safe_to_unlock ≡ true
unfolding evaluate_safety transcript_blockers lock_set_blockers owner_blockers known_owner_blockers
    lock_blockers block_if
allowed = refl

evaluate_safety_iff_example :
    ((evaluate_safety (λ pids. "0") evidence_1 context_1).safe_to_unlock ≡ true)
    ↔ IsAuthorised evidence_1 (some []) (some 501) context_1.opener_error context_1.owner_lock_error
evaluate_safety_iff_example = evaluate_safety_iff (λ pids. "0") evidence_1 context_1

unchanged : compare_inspections inspection_1 owner_1 inspection_1 ≡ []
unfolding compare_inspections same_owner_evidence same_string_array same_last_record same_snapshot
unchanged = refl

compare_inspections_sound_example : SameEvidence inspection_1 owner_1 inspection_1
compare_inspections_sound_example =
    compare_inspections_sound inspection_1 owner_1 inspection_1 unchanged
