-- ===== src/Policy.antt =====
-- src/policy.ts: the decision whether inspection evidence authorises an unlock.
pub mod Blockers
pub mod Authorised
pub mod Laws
pub mod Complete
use codex_unlock.Base.{
  ℤ, pos, integer_eq, ℕ, String, Bool, true, false, not, ◌&&◌, ◌||◌, Option, none, some, List, [],
  ◌∷◌, ◌==◌, nat_eq, string_eq, bool_eq, option_eq, list_eq, includes, any, length, if◌then◌else◌,
}
use codex_unlock.Types.{
  Classification, ProbeStatus, Presence, PublicFileSnapshot, ProcessInfo, TranscriptStatus,
  TranscriptRecord, TranscriptInspection, LockInspection, InspectionEvidence, SafetyDecision,
  is_held, is_found,
}
use codex_unlock.Util.{◌<>◌}
use Blockers.{add_once, block_if}

pub record SafetyContext : Type 0 where
  pub current_process_family : Option (List ℕ)
  pub opener_error : Option String
  pub owner_lock_error : Option String
  pub current_uid : Option ℕ

abbrev pub classification_text : Classification → String
classification_text Classification.absent = "absent"
classification_text Classification.stale_residue = "stale_residue"
classification_text Classification.live_owner = "live_owner"
classification_text Classification.unknown = "unknown"

abbrev pub probe_text : ProbeStatus → String
probe_text ProbeStatus.held = "held"
probe_text ProbeStatus.free = "free"
probe_text ProbeStatus.unknown = "unknown"

abbrev pub transcript_text : TranscriptStatus → String
transcript_text TranscriptStatus.found = "found"
transcript_text TranscriptStatus.missing = "missing"
transcript_text TranscriptStatus.ambiguous = "ambiguous"
transcript_text TranscriptStatus.unreadable = "unreadable"

abbrev pub is_live_owner : Classification → Bool
is_live_owner Classification.live_owner = true
is_live_owner _ = false

abbrev pub is_unknown : Presence → Bool
is_unknown Presence.unknown = true
is_unknown _ = false

-- A nonempty text is true as a condition.
abbrev pub truthy : Option String → Bool
truthy none = false
truthy (some s) = not (s == "")

abbrev pub links_wrong : Option PublicFileSnapshot → Bool
links_wrong none = false
links_wrong (some s) = not (s.links == 1)

-- The blockers of the lock file and its probe, added in the source's order.
unfoldable pub lock_blockers : InspectionEvidence → SafetyContext → List String → List String
lock_blockers e c b0 =
    let l = e.lock in
    let b1 =
      block_if (not (is_live_owner e.classification))
        ("classification_" <> classification_text e.classification) b0 in
    let b2 = block_if (not l.exists) "lock_file_absent" b1 in
    let b3 = block_if (is_unknown l.observation) "lock_file_observation_failed" b2 in
    let b4 = block_if (not (l.regular_file == some true)) "lock_file_not_regular" b3 in
    let b5 = block_if (not (l.symlink == some false)) "lock_file_symlink_or_unknown" b4 in
    let b6 = block_if (not (l.owned_by_current_user == some true)) "lock_file_wrong_owner" b5 in
    let b7 = block_if (links_wrong l.snapshot) "lock_file_has_multiple_links" b6 in
    let b8 = block_if (not (l.stable == some true)) "lock_file_not_stable" b7 in
    let b9 =
      block_if (not (is_held l.probe.status)) ("lock_probe_" <> probe_text l.probe.status) b8 in
    let b10 = block_if (truthy c.opener_error) "lock_opener_lookup_failed" b9 in
    let b11 = block_if (not (length e.openers == 1)) "lock_owner_not_unique" b10 in
    block_if (not (e.owner_identity_stable == some true)) "lock_owner_identity_not_stable" b11

-- `currentUid === undefined || owner.uid !== currentUid`
abbrev pub wrong_user : Option ℕ → Option ℤ → Bool
wrong_user none owner_uid = true
wrong_user (some u) owner_uid = not (owner_uid == some (pos u))

abbrev pub in_family : Option (List ℕ) → ℕ → Bool
in_family none pid = false
in_family (some family) pid = includes family pid

abbrev pub is_none {ℓ} : {A : Type ℓ} → Option A → Bool
is_none none = true
is_none (some a) = false

unfoldable pub known_owner_blockers : ProcessInfo → SafetyContext → List String → List String
known_owner_blockers o c b0 =
    let b1 = block_if (not o.identity_complete) "lock_owner_identity_incomplete" b0 in
    let b2 = block_if (not o.is_codex) "lock_owner_is_not_codex" b1 in
    let b3 = block_if o.is_shared_service "lock_owner_is_shared_service" b2 in
    let b4 = block_if (wrong_user c.current_uid o.uid) "lock_owner_wrong_user" b3 in
    let b5 = block_if (is_none c.current_process_family) "current_process_family_unavailable" b4 in
    block_if (in_family c.current_process_family o.pid) "lock_owner_is_current_process_family" b5

unfoldable pub owner_blockers : Option ProcessInfo → SafetyContext → List String → List String
unfolding known_owner_blockers
owner_blockers none c b = add_once b "lock_owner_unavailable"
owner_blockers (some o) c b = known_owner_blockers o c b

-- `length !== 1 || files[0] !== lock.path`
abbrev pub not_only : List String → String → Bool
not_only [] p = true
not_only (f ∷ []) p = not (f == p)
not_only (f ∷ g ∷ r) p = true

unfoldable pub lock_set_blockers : InspectionEvidence → SafetyContext → List String → List String
lock_set_blockers e c b0 =
    let b1 = block_if (truthy c.owner_lock_error) "owner_lock_file_lookup_failed" b0 in
    elim e.owner_lock_files [
      | none ↦ add_once b1 "owner_lock_files_unavailable"
      | some fs ↦ block_if (not_only fs e.lock.path) "owner_holds_other_thread_locks" b1
    ]

-- `lastRecord?.recordType !== "event_msg" || lastRecord.eventType !== "task_complete"`
abbrev pub not_complete : Option TranscriptRecord → Bool
not_complete none = true
not_complete (some r) =
    not (r.record_type == some "event_msg") || not (r.event_type == some "task_complete")

unfoldable pub transcript_blockers : TranscriptInspection → List String → List String
transcript_blockers t b0 =
    let b1 = block_if (not (is_found t.status)) ("transcript_" <> transcript_text t.status) b0 in
    let b2 = block_if (not (t.stable == some true)) "transcript_not_stable" b1 in
    block_if (not_complete t.last_record) "transcript_last_event_not_task_complete" b2

no_tty : Option ProcessInfo → Bool
no_tty none = false
no_tty (some o) = is_none o.tty

descendant_warning : Option (List ℕ) → (List ℕ → String) → List String → List String
descendant_warning none join w = add_once w "owner_descendants_unavailable"
descendant_warning (some []) join w = w
descendant_warning (some (p ∷ ps)) join w = add_once w ("owner_has_descendants:" <> join (p ∷ ps))

-- `join` renders process ids for the warning: `pids.join(",")`.
unfoldable pub evaluate_safety :
    (List ℕ → String) → InspectionEvidence → SafetyContext → SafetyDecision
unfolding no_tty descendant_warning
evaluate_safety join e c =
    let blockers =
      transcript_blockers e.transcript
        (lock_set_blockers e c (owner_blockers e.owner c (lock_blockers e c []))) in
    record {
      safe_to_unlock = length blockers == 0;
      blockers = blockers;
      warnings =
          descendant_warning e.descendant_pids join
            (block_if (no_tty e.owner) "lock_owner_has_no_tty" []);
    }
