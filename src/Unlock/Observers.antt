-- ===== src/Unlock/Observers.antt =====
-- The observations that src/unlock.ts uses from src/inspection.ts, src/process.ts and
-- src/transcript.ts, with the law that its client needs: they send no signal and leave no
-- descriptor open and no lock held.
use codex_unlock.Base.{ℕ, String, Option, List}
use codex_unlock.Types.{InspectionResult, ProcessInfo, ProcessStartObservation, PublicFileSnapshot}
use codex_unlock.Io.{M}
use codex_unlock.Io.Calm.{IsCalm}

-- `{ paths, error? }`
pub record LockFiles : Type 0 where
  pub paths : List String
  pub error : Option String

-- `{ processes, error? }`
pub record Openers : Type 0 where
  pub processes : List ProcessInfo
  pub error : Option String

-- `{ hash, snapshot }`
pub record FileHash : Type 0 where
  pub hash : String
  pub snapshot : PublicFileSnapshot

pub record Services : Type 0 where
  pub inspect_thread : String → M InspectionResult
  pub stable_file_hash : String → M FileHash
  pub lock_files_opened_by_process : ℕ → String → M LockFiles
  pub process_start_time : ℕ → M ProcessStartObservation
  pub process_exit_observation : ℕ → M ProcessStartObservation
  pub inspect_lock_openers : String → M Openers
  pub transcript_snapshot : String → M PublicFileSnapshot

pub record AreCalm (v : Services) : Type 0 where
  pub inspect_thread : (id : String) → IsCalm (v.inspect_thread id)
  pub stable_file_hash : (p : String) → IsCalm (v.stable_file_hash p)
  pub lock_files_opened_by_process :
      (pid : ℕ) (p : String) → IsCalm (v.lock_files_opened_by_process pid p)
  pub process_start_time : (pid : ℕ) → IsCalm (v.process_start_time pid)
  pub process_exit_observation : (pid : ℕ) → IsCalm (v.process_exit_observation pid)
  pub inspect_lock_openers : (p : String) → IsCalm (v.inspect_lock_openers p)
  pub transcript_snapshot : (p : String) → IsCalm (v.transcript_snapshot p)
