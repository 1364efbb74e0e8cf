-- ===== src/Unlock/Program.antt =====
-- The unlock put together with the observations of src/inspection.ts, src/process.ts and
-- src/transcript.ts, as src/unlock.ts imports them, and its own `transcriptSnapshot`.
pub mod Laws
use codex_unlock.Base.{
  ℕ, String, Bool, true, false, not, ◌&&◌, ◌||◌, Option, none, some, List, if◌then◌else◌,
}
use codex_unlock.Types.{PublicFileSnapshot, DoctorOptions, UnlockResult}
use codex_unlock.Util.{CommandResult}
use codex_unlock.Util.PublicSnapshot.{snapshot}
use codex_unlock.Util.Snapshots.{same_snapshot}
use codex_unlock.Io.{
  Env, M, ◌>>=◌, ◌>>◌, pure, throw_error, new_error, Log, Res, ok, throw, Stats, is_file,
  is_symbolic_link, lstat, fstat, open_file, close_file, read_only,
}
use codex_unlock.Inspection.{Evidence, inspect_thread}
use codex_unlock.Transcript.Walk.{Directories, find_transcript_candidates}
use codex_unlock.Transcript.Reading.{LineReading, read_last_record}
use codex_unlock.Transcript.{inspect_transcript_candidates, stable_file_hash}
use codex_unlock.Process.Diagnostics.{ps, lsof, run_diagnostic}
use codex_unlock.Process.Observation.{Texts, process_start_time, process_exit_observation}
use codex_unlock.Process.LockFiles.{lock_files_opened_by_process}
use codex_unlock.Process.Inspect.{KernelFiles, inspect_lock_openers}
use codex_unlock.Process.Family.{descendant_pids, current_process_family}
use codex_unlock.Unlock.{unlock_thread}
use codex_unlock.Unlock.Observers.{Services}

module _ (env : Env) where
  -- `finally { closeSync(fd) }`
  abbrev pub close_after : ℕ → Res PublicFileSnapshot × Log → Res PublicFileSnapshot × Log
  close_after fd (ok r, s) = (close_file env fd >> pure r) s
  close_after fd (throw e, s) = (close_file env fd >> throw_error e) s

  sampled : Bool → Stats → Stats → Stats → M PublicFileSnapshot
  sampled false before opened after = throw_error (new_error "transcript changed while sampling")
  sampled true before opened after = do
    b ← snapshot before
    o ← snapshot opened
    a ← snapshot after
    (if same_snapshot (some b) (some o) && same_snapshot (some o) (some a)
        then pure a
        else throw_error (new_error "transcript changed while sampling"))

  sample_open : String → Stats → ℕ → M PublicFileSnapshot
  sample_open path before fd = do
    opened ← fstat env fd
    after ← lstat env path
    sampled (is_file opened && is_file after && not (is_symbolic_link after)) before opened after

  open_sample : String → Stats → M PublicFileSnapshot
  open_sample path before =
      if not (is_file before) || is_symbolic_link before
      then throw_error (new_error "transcript is a symlink or non-regular file")
      else open_file env path read_only >>= (λ fd s. close_after fd (sample_open path before fd s))

  pub transcript_snapshot : String → M PublicFileSnapshot
  transcript_snapshot path = lstat env path >>= open_sample path

-- What the parts take from outside the program, beside `Env`.
pub record Surroundings : Type 0 where
  pub access : Log → String → Res (Unit {0})
  pub texts : Texts
  pub lower : String → String
  pub kernel : KernelFiles
  pub directories : Directories
  pub reading : LineReading
  pub self : ℕ

module _ (env : Env) (around : Surroundings) where
  abbrev pub run_ps : List String → M CommandResult
  run_ps = run_diagnostic env around.access none ps

  abbrev pub run_lsof : List String → M CommandResult
  run_lsof = run_diagnostic env around.access none lsof

  pub evidence : Evidence
  evidence = record {
    find_transcript_candidates = find_transcript_candidates env around.directories;
    inspect_transcript_candidates =
        inspect_transcript_candidates env (read_last_record env around.reading);
    inspect_lock_openers =
        inspect_lock_openers env around.lower around.texts around.kernel run_ps run_lsof;
    lock_files_opened_by_process =
        lock_files_opened_by_process env around.texts.show_status run_lsof;
    descendant_pids = descendant_pids env run_ps;
    current_process_family = current_process_family env run_ps around.self;
  }

  pub services : DoctorOptions → Services
  services options = record {
    inspect_thread = λ thread_id. inspect_thread env evidence thread_id options;
    stable_file_hash = stable_file_hash env;
    lock_files_opened_by_process =
        lock_files_opened_by_process env around.texts.show_status run_lsof;
    process_start_time = process_start_time around.texts env run_ps;
    process_exit_observation = process_exit_observation around.texts env run_ps;
    inspect_lock_openers =
        inspect_lock_openers env around.lower around.texts around.kernel run_ps run_lsof;
    transcript_snapshot = transcript_snapshot env;
  }

  pub unlock : String → DoctorOptions → M UnlockResult
  unlock thread_id options = unlock_thread env (services options) thread_id options
