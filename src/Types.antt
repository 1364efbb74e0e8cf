-- ===== src/Types.antt =====
-- src/types.ts: the data that the components exchange, and the results that are printed.
-- Optional fields and `null` are `Option`. Process ids, sizes and link counts are
-- numbers that the program has checked to be non-negative integers; the parent and the user that ps
-- prints are integers. Devices and inodes, which the
-- source keeps as decimal strings of big integers, are the integers. `modified_ms` is the code
-- (the bit pattern) of the double: the source only compares it with `===`. Fields with one fixed
-- value (schemaVersion, command, method) are left out, and so are the times of day of a result.
use codex_unlock.Base.{ℕ, ℤ, String, Bool, true, false, Option, none, some, List}

pub data CommandName : Type 0 where
  list inspect unlock check_update : CommandName

pub data Classification : Type 0 where
  absent stale_residue live_owner unknown : Classification

pub data ProbeStatus : Type 0 where
  held free unknown : ProbeStatus

-- "present", "absent" or "unknown", of a process or of a lock file.
pub data Presence : Type 0 where
  present absent unknown : Presence

pub record PublicFileSnapshot : Type 0 where
  pub device : ℕ
  pub inode : ℕ
  pub mode : ℕ
  pub uid : ℕ
  pub links : ℕ
  pub size : ℕ
  pub modified_at : String
  pub modified_ms : ℕ

pub data GuardStatus : Type 0 where
  acquired busy absent unsafe changed : GuardStatus

pub record NativeGuardEvidence : Type 0 where
  pub status : GuardStatus
  pub attempts : Option ℕ

pub record LockProbe : Type 0 where
  pub status : ProbeStatus
  pub error : Option String
  pub guard : Option NativeGuardEvidence

pub record ProcessStartObservation : Type 0 where
  pub status : Presence
  pub start_time : Option String
  pub zombie : Bool
  pub error : Option String

pub record ProcessInfo : Type 0 where
  pub pid : ℕ
  pub ppid : Option ℤ
  pub uid : Option ℤ
  pub start_time : Option String
  pub tty : Option String
  pub command : Option String
  pub arguments : Option String
  pub cwd : Option String
  pub lsof_command : Option String
  pub identity_complete : Bool
  pub is_codex : Bool
  pub is_shared_service : Bool
  pub errors : List String

pub record TranscriptRecord : Type 0 where
  pub record_type : Option String
  pub event_type : Option String
  pub timestamp : Option String
  pub ordinal : Option ℕ

pub data TranscriptStatus : Type 0 where
  found missing ambiguous unreadable : TranscriptStatus

pub record TranscriptInspection : Type 0 where
  pub status : TranscriptStatus
  pub path : Option String
  pub candidates : List String
  pub snapshot : Option PublicFileSnapshot
  pub last_record : Option TranscriptRecord
  pub stable : Option Bool
  pub error : Option String

pub record LockInspection : Type 0 where
  pub path : String
  pub observation : Presence
  pub exists : Bool
  pub regular_file : Option Bool
  pub symlink : Option Bool
  pub owned_by_current_user : Option Bool
  pub snapshot : Option PublicFileSnapshot
  pub stable : Option Bool
  pub probe : LockProbe
  pub observation_error : Option String

-- InspectionEvidence of src/policy.ts: an inspection before the safety decision.
pub record InspectionEvidence : Type 0 where
  pub codex_home : String
  pub thread_id : String
  pub classification : Classification
  pub lock : LockInspection
  pub owner : Option ProcessInfo
  pub openers : List ProcessInfo
  pub owner_identity_stable : Option Bool
  pub owner_lock_files : Option (List String)
  pub descendant_pids : Option (List ℕ)
  pub transcript : TranscriptInspection

-- SafetyDecision of src/policy.ts.
pub record SafetyDecision : Type 0 where
  pub safe_to_unlock : Bool
  pub blockers : List String
  pub warnings : List String

pub record InspectionResult : Type 0 where
  pub evidence : InspectionEvidence
  pub open evidence use *
  pub decision : SafetyDecision
  pub open decision use *

pub data UnlockOutcome : Type 0 where
  unlocked not_locked refused termination_failed verification_failed : UnlockOutcome

pub record LockHolder : Type 0 where
  pub pid : ℕ
  pub start_time : Option String

-- `signal_sent` is true for "SIGTERM" and false for null. `lockFileRemovedByTool` is always false.
pub record UnlockResult : Type 0 where
  pub thread_id : String
  pub outcome : UnlockOutcome
  pub changed : Bool
  pub pid : Option ℕ
  pub signal_sent : Bool
  pub process_exited : Option Bool
  pub process_observation : Option ProcessStartObservation
  pub lock_released : Bool
  pub transcript_unchanged : Option Bool
  pub lock_reacquired_by : Option (List LockHolder)
  pub reasons : List String
  pub inspection : InspectionResult

pub record DoctorOptions : Type 0 where
  pub codex_home : String
  pub stability_ms : ℕ
  pub termination_timeout_ms : ℕ

-- `===` on the enumerations.
abbrev pub is_held : ProbeStatus → Bool
is_held held = true
is_held _ = false

abbrev pub is_free : ProbeStatus → Bool
is_free free = true
is_free _ = false

abbrev pub is_present : Presence → Bool
is_present present = true
is_present _ = false

abbrev pub is_found : TranscriptStatus → Bool
is_found found = true
is_found _ = false

abbrev pub is_busy_status : GuardStatus → Bool
is_busy_status busy = true
is_busy_status _ = false

abbrev pub is_busy : Option NativeGuardEvidence → Bool
is_busy none = false
is_busy (some g) = is_busy_status g.status
