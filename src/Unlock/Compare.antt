-- ===== src/Unlock/Compare.antt =====
-- The comparisons of src/unlock.ts between the first inspection and the reinspection.
pub mod Laws
use codex_unlock.Base.{
  ℤ, pos, integer_eq, ℕ, String, Bool, true, false, not, ◌&&◌, ◌||◌, Option, none, some, List, [],
  ◌∷◌, ◌++◌, map, ◌==◌, nat_eq, string_eq, bool_eq, option_eq, list_eq, if◌then◌else◌,
}
use codex_unlock.Types.{
  ProcessInfo, Presence, TranscriptRecord, InspectionResult, is_held, is_present,
}
use codex_unlock.Util.{◌<>◌}
use codex_unlock.Util.Snapshots.{same_snapshot}

abbrev pub is_some {ℓ} : {A : Type ℓ} → Option A → Bool
is_some none = false
is_some (some a) = true

unfoldable pub same_owner_evidence : ProcessInfo → ProcessInfo → Bool
same_owner_evidence before after =
    before.pid == after.pid
    && before.ppid == after.ppid
    && before.uid == after.uid
    && is_some before.start_time
    && before.start_time == after.start_time
    && before.command == after.command
    && before.arguments == after.arguments
    && before.identity_complete == after.identity_complete
    && before.is_codex == after.is_codex
    && before.is_shared_service == after.is_shared_service

-- `JSON.stringify` of two arrays of texts is equal exactly for equal arrays.
unfoldable pub same_string_array : Option (List String) → Option (List String) → Bool
same_string_array (some b) (some a) = b == a
same_string_array _ _ = false

-- `sameLastRecord` of src/transcript.ts: the serialised records are equal for equal fields.
unfoldable pub same_last_record : Option TranscriptRecord → Option TranscriptRecord → Bool
same_last_record none none = true
same_last_record (some l) (some r) =
    l.record_type == r.record_type
    && l.event_type == r.event_type
    && l.timestamp == r.timestamp
    && l.ordinal == r.ordinal
same_last_record _ _ = false

abbrev pub reason_if : Bool → String → List String
reason_if test reason = if test then reason ∷ [] else []

abbrev pub same_owner : ProcessInfo → Option ProcessInfo → Bool
same_owner o none = false
same_owner o (some f) = same_owner_evidence o f

abbrev pub prefixed : List String → List String
prefixed [] = []
prefixed (b ∷ bs) = ("revalidation_" <> b) ∷ prefixed bs

-- The reasons that the reinspection gives against the first inspection.
unfoldable pub compare_inspections : InspectionResult → ProcessInfo → InspectionResult → List String
compare_inspections i owner f =
    (if f.safe_to_unlock then [] else prefixed f.blockers)
    ++ reason_if (not (same_owner owner f.owner)) "owner_identity_changed"
    ++ reason_if (not (same_snapshot i.lock.snapshot f.lock.snapshot)) "lock_file_changed"
    ++ reason_if (not (is_held f.lock.probe.status) || not (is_present f.lock.observation))
        "lock_no_longer_held"
    ++ reason_if (not (same_string_array i.owner_lock_files f.owner_lock_files))
        "owner_lock_set_changed"
    ++ reason_if
        (not (i.transcript.path == f.transcript.path)
          || not (same_snapshot i.transcript.snapshot f.transcript.snapshot)
          || not (same_last_record i.transcript.last_record f.transcript.last_record))
        "transcript_changed_after_inspection"
