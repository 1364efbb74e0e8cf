-- ===== src/Tests/World.antt =====
-- A small platform: every file is a regular file of the same user, and another process has every
-- lock. Its clocks count the calls.
use codex_unlock.Base.{pos, integer_eq, true, false, none, some, [], ◌∷◌, length}
use codex_unlock.Types.{
  Classification, ProbeStatus, Presence, PublicFileSnapshot, ProcessInfo, TranscriptStatus,
  TranscriptInspection, InspectionEvidence, InspectionResult, ProcessStartObservation,
  DoctorOptions, LockProbe,
}
use codex_unlock.Util.{Error, plain, CommandResult}
use codex_unlock.Io.{Env, Stats, regular, ok, throw, pure}
use codex_unlock.Io.Calm.{calm-pure}
use codex_unlock.Policy.{SafetyContext}
use codex_unlock.Coordination.{UnlockLease}
use codex_unlock.Lock.{LockFileObservation}
use codex_unlock.Unlock.Observers.{Services, AreCalm}
use codex_unlock.Unlock.Signal.{RevalidatedUnlockEvidence}
use codex_unlock.Inspection.{Evidence}
use codex_unlock.Inspection.Laws.{AreQuiet}

abbrev pub file : Stats
file = record {
  kind = regular;
  dev = 1;
  ino = 2;
  mode = 384;
  uid = 501;
  nlink = 1;
  size = 10;
  modified_at = some "2026-01-01T00:00:00.000Z";
  modified_ms = some 1000;
}

abbrev pub busy_error : Error
busy_error = record { code = "EAGAIN"; message = "busy"; class = plain }

abbrev no_output : CommandResult
no_output = record { status = some 0; stdout = ""; stderr = ""; error = none; failure = none }

abbrev pub world : Env
world = record {
  lstat = λ s path. ok file;
  stat = λ s path. ok file;
  fstat = λ s fd. ok file;
  open_file = λ s path mode. ok 3;
  close_file = λ s fd. ok tt;
  flock_exclusive = λ s fd. throw busy_error;
  flock_release = λ s fd. ok tt;
  real_path = λ s path. ok path;
  make_directory = λ s path. ok tt;
  change_mode = λ s path. ok tt;
  terminate = λ s pid. ok tt;
  signal_zero = λ s pid. ok tt;
  command = λ s executable args. no_output;
  date_now = length;
  performance_now = length;
  sha256_file = λ s path. ok "hash";
  sha256_text = λ texts. "text";
  uid = some 501;
  dirname = λ path. "/home";
  basename = λ path. "file";
  join = λ a b. "/home/file";
  show_number = λ n. "0";
  join_numbers = λ ns. "0";
}

abbrev pub snapshot_1 : PublicFileSnapshot
snapshot_1 = record {
  device = 1;
  inode = 2;
  mode = 384;
  uid = 501;
  links = 1;
  size = 10;
  modified_at = "2026-01-01T00:00:00.000Z";
  modified_ms = 1000;
}

abbrev pub owner_1 : ProcessInfo
owner_1 = record {
  pid = 42;
  ppid = some (pos 1);
  uid = some (pos 501);
  start_time = some "Mon";
  tty = some "ttys001";
  command = some "codex";
  arguments = some "codex";
  cwd = some "/home";
  lsof_command = some "codex";
  identity_complete = true;
  is_codex = true;
  is_shared_service = false;
  errors = [];
}

abbrev pub transcript_1 : TranscriptInspection
transcript_1 = record {
  status = TranscriptStatus.found;
  path = some "/home/rollout";
  candidates = "/home/rollout" ∷ [];
  snapshot = some snapshot_1;
  last_record = some (record {
    record_type = some "event_msg";
    event_type = some "task_complete";
    timestamp = none;
    ordinal = none;
  });
  stable = some true;
  error = none;
}

abbrev pub held_probe : LockProbe
held_probe = record { status = ProbeStatus.held; error = none; guard = none }

abbrev pub evidence_1 : InspectionEvidence
evidence_1 = record {
  codex_home = "/home";
  thread_id = "t";
  classification = Classification.live_owner;
  lock = record {
    path = "/home/file";
    observation = Presence.present;
    exists = true;
    regular_file = some true;
    symlink = some false;
    owned_by_current_user = some true;
    snapshot = some snapshot_1;
    stable = some true;
    probe = held_probe;
    observation_error = none;
  };
  owner = some owner_1;
  openers = owner_1 ∷ [];
  owner_identity_stable = some true;
  owner_lock_files = some ("/home/file" ∷ []);
  descendant_pids = some [];
  transcript = transcript_1;
}

abbrev pub context_1 : SafetyContext
context_1 = record {
  current_process_family = some [];
  opener_error = none;
  owner_lock_error = none;
  current_uid = some 501;
}

abbrev pub inspection_1 : InspectionResult
inspection_1 = record {
  evidence = evidence_1;
  decision = record { safe_to_unlock = true; blockers = []; warnings = [] };
}

abbrev pub options_1 : DoctorOptions
options_1 = record { codex_home = "/home"; stability_ms = 1; termination_timeout_ms = 1 }

abbrev started : ProcessStartObservation
started = record {
  status = Presence.present;
  start_time = some "Mon";
  zombie = false;
  error = none;
}

abbrev gone : ProcessStartObservation
gone = record { status = Presence.absent; start_time = none; zombie = false; error = none }

abbrev pub services_1 : Services
services_1 = record {
  inspect_thread = λ id. pure inspection_1;
  stable_file_hash = λ path. pure (record { hash = "hash"; snapshot = snapshot_1 });
  lock_files_opened_by_process =
      λ pid path. pure (record { paths = "/home/file" ∷ []; error = none });
  process_start_time = λ pid. pure started;
  process_exit_observation = λ pid. pure gone;
  inspect_lock_openers = λ path. pure (record { processes = owner_1 ∷ []; error = none });
  transcript_snapshot = λ path. pure snapshot_1;
}

pub services_1-AreCalm : AreCalm services_1
services_1-AreCalm = record {
  inspect_thread = λ id. calm-pure _;
  stable_file_hash = λ path. calm-pure _;
  lock_files_opened_by_process = λ pid path. calm-pure _;
  process_start_time = λ pid. calm-pure _;
  process_exit_observation = λ pid. calm-pure _;
  inspect_lock_openers = λ path. calm-pure _;
  transcript_snapshot = λ path. calm-pure _;
}

abbrev pub revalidated_1 : RevalidatedUnlockEvidence
revalidated_1 = record {
  inspection = inspection_1;
  owner = owner_1;
  transcript_path = "/home/rollout";
  transcript_hash = some "hash";
}

abbrev pub seen_1 : LockFileObservation
seen_1 = record {
  status = Presence.present;
  exists = true;
  regular_file = some true;
  symlink = some false;
  owned_by_current_user = some true;
  snapshot = some snapshot_1;
  error = none;
}

abbrev pub lease_1 : UnlockLease
lease_1 = record { descriptor = 3; is_released = false }

abbrev pub observers_1 : Evidence
observers_1 = record {
  find_transcript_candidates = λ home id. pure ("/home/rollout" ∷ []);
  inspect_transcript_candidates = λ c. pure transcript_1;
  inspect_lock_openers = λ path. pure (record { processes = owner_1 ∷ []; error = none });
  lock_files_opened_by_process =
      λ pid path. pure (record { paths = "/home/file" ∷ []; error = none });
  descendant_pids = λ pid. pure (some []);
  current_process_family = pure (some []);
}

pub observers_1-AreQuiet : AreQuiet observers_1
observers_1-AreQuiet = record {
  find_transcript_candidates = λ home id. calm-pure _;
  inspect_transcript_candidates = λ c. calm-pure _;
  inspect_lock_openers = λ path. calm-pure _;
  lock_files_opened_by_process = λ pid path. calm-pure _;
  descendant_pids = λ pid. calm-pure _;
  current_process_family = calm-pure _;
}
