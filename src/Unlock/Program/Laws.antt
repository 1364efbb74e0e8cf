-- ===== src/Unlock/Program/Laws.antt =====
-- The whole unlock sends at most one signal and leaves nothing open.
use codex_unlock.Base.{ℕ, String, Bool, true, false, not, ◌&&◌, ◌||◌, none, some, List, ◌∷◌, arith}
use codex_unlock.Types.{PublicFileSnapshot, DoctorOptions}
use codex_unlock.Util.PublicSnapshot.{snapshot}
use codex_unlock.Util.Snapshots.{same_snapshot}
use codex_unlock.Io.{
  Env, M, ◌>>=◌, throw_error, new_error, Log, Res, ok, throw, then_run, Stats, is_file,
  is_symbolic_link, lstat, fstat, open_file, read_only, opening, closed, opened,
}
use codex_unlock.Io.Calm.{
  Holds, IsCalm, start-Holds, chain-Holds, calm-bind, calm-pure, calm-if, calm-observe, Outcome,
}
use codex_unlock.Inspection.Laws.{AreQuiet, inspect_thread-Calm}
use codex_unlock.Transcript.Walk.{find_transcript_candidates-Calm}
use codex_unlock.Transcript.Reading.{read_last_record, read_last_record-Calm}
use codex_unlock.Transcript.Laws.{
  inspect_transcript_candidates-Calm, stable_file_hash-Calm, calm-snapshot,
}
use codex_unlock.Process.Diagnostics.{ps, lsof}
use codex_unlock.Process.Diagnostics.Laws.{run_diagnostic-Calm}
use codex_unlock.Process.Observation.Laws.{process_start_time-Calm, process_exit_observation-Calm}
use codex_unlock.Process.LockFiles.Quiet.{lock_files_opened_by_process-Calm}
use codex_unlock.Process.Inspect.Laws.{inspect_lock_openers-Calm}
use codex_unlock.Process.Family.{process_table, descendant_pids, current_process_family}
use codex_unlock.Unlock.Observers.{AreCalm}
use codex_unlock.Unlock.Leased.{Accounts, Aborts, unlock_thread-Accounts}
use codex_unlock.Unlock.Program.{
  close_after, sampled, sample_open, open_sample, transcript_snapshot, Surroundings, run_ps,
  run_lsof, evidence, services, unlock,
}

calm-throw {ℓ} : {A : Type ℓ} (m : String) → IsCalm (throw_error {A = A} (new_error m))
calm-throw m = record { at = start-Holds }

module _ (env : Env) where
  sampled-Calm : (b : Bool) (x y z : Stats) → IsCalm (sampled env b x y z)
  unfolding sampled
  sampled-Calm false x y z = calm-throw _
  sampled-Calm true x y z = calm-bind (snapshot x) _ (calm-snapshot x) λ b.
      calm-bind (snapshot y) _ (calm-snapshot y) λ o.
        calm-bind (snapshot z) _ (calm-snapshot z) λ a.
          calm-if (same_snapshot (some b) (some o) && same_snapshot (some o) (some a)) _ _
            (calm-pure a) (calm-throw _)

  sample_open-Calm : (path : String) (x : Stats) (fd : ℕ) → IsCalm (sample_open env path x fd)
  unfolding sample_open
  sample_open-Calm path x fd = calm-bind (fstat env fd) _ (calm-observe _) λ y.
      calm-bind (lstat env path) _ (calm-observe _)
        λ z. sampled-Calm (is_file y && is_file z && not (is_symbolic_link z)) x y z

  closed_then :
      (r : Res (Unit {0})) (s t : Log) (f : Unit {0} → M PublicFileSnapshot)
      → Holds 0 0 s t
      → ((u : Unit {0}) → IsCalm (f u))
      → Holds 0 0 s (then_run (r, t) f).1
  closed_then (ok u) s t f h g = chain-Holds h ((g u).at t)
  closed_then (throw e) s t f h g = h

  close_after-Calm :
      (fd : ℕ) (s : Log) (p : Res PublicFileSnapshot × Log)
      → Holds 0 0 (opened fd ∷ s) p.1
      → Holds 0 0 s (close_after env fd p).1
  close_after-Calm fd s (ok r, t) h =
      closed_then (env.close_file t fd) s (closed fd ∷ t) _ (omega arith) λ u. calm-pure r
  close_after-Calm fd s (throw e, t) h =
      closed_then (env.close_file t fd) s (closed fd ∷ t) _ (omega arith)
        λ u. record { at = start-Holds }

  with_file-Calm :
      (path : String) (x : Stats)
      → IsCalm (
          open_file env path read_only
          >>= (λ fd s. close_after env fd (sample_open env path x fd s)))
  with_file-Calm path x = record { at = λ s. by_result s (env.open_file s path read_only) }
    where
      by_result :
          (s : Log) (r : Res ℕ)
          → Holds 0 0 s
              (then_run
                (r, opening r s)
                (λ fd t. close_after env fd (sample_open env path x fd t))).1
      by_result s (ok fd) =
          close_after-Calm fd s (sample_open env path x fd (opened fd ∷ s))
            ((sample_open-Calm path x fd).at (opened fd ∷ s))
      by_result s (throw e) = omega arith

  transcript_snapshot-Calm : (path : String) → IsCalm (transcript_snapshot env path)
  unfolding transcript_snapshot open_sample
  transcript_snapshot-Calm path = calm-bind (lstat env path) _ (calm-observe _) λ x.
      calm-if (not (is_file x) || is_symbolic_link x) _ _ (calm-throw _) (with_file-Calm path x)

module _ (env : Env) (around : Surroundings) where
  lsof-Calm : (args : List String) → IsCalm (run_lsof env around args)
  lsof-Calm args = run_diagnostic-Calm env around.access none lsof args

  ps-Calm : (args : List String) → IsCalm (run_ps env around args)
  ps-Calm args = run_diagnostic-Calm env around.access none ps args

  evidence-AreQuiet : AreQuiet (evidence env around)
  unfolding evidence descendant_pids current_process_family process_table
  evidence-AreQuiet = record {
    find_transcript_candidates = find_transcript_candidates-Calm env around.directories;
    inspect_transcript_candidates =
        inspect_transcript_candidates-Calm env (read_last_record env around.reading)
          (read_last_record-Calm env around.reading);
    inspect_lock_openers =
        inspect_lock_openers-Calm env around.lower around.texts around.kernel (run_ps env around)
          (run_lsof env around) ps-Calm lsof-Calm;
    lock_files_opened_by_process = λ pid path.
        lock_files_opened_by_process-Calm env around.texts.show_status (run_lsof env around) pid
          path lsof-Calm;
    descendant_pids =
        λ pid. calm-bind _ _ (calm-bind _ _ (ps-Calm _) λ r. calm-pure _) λ table. calm-pure _;
    current_process_family =
        calm-bind _ _ (calm-bind _ _ (ps-Calm _) λ r. calm-pure _) λ table. calm-pure _;
  }

  pub services-AreCalm : (options : DoctorOptions) → AreCalm (services env around options)
  unfolding services
  services-AreCalm options = record {
    inspect_thread = inspect_thread-Calm env (evidence env around) evidence-AreQuiet options;
    stable_file_hash = stable_file_hash-Calm env;
    lock_files_opened_by_process = λ pid path.
        lock_files_opened_by_process-Calm env around.texts.show_status (run_lsof env around) pid
          path lsof-Calm;
    process_start_time = process_start_time-Calm around.texts env (run_ps env around) ps-Calm;
    process_exit_observation =
        process_exit_observation-Calm around.texts env (run_ps env around) ps-Calm;
    inspect_lock_openers =
        inspect_lock_openers-Calm env around.lower around.texts around.kernel (run_ps env around)
          (run_lsof env around) ps-Calm lsof-Calm;
    transcript_snapshot = transcript_snapshot-Calm env;
  }

  pub unlock-Accounts :
      (thread_id : String) (options : DoctorOptions) (s : Log)
      → Outcome (λ r t. Accounts s r t) (λ t. Aborts s t) (unlock env around thread_id options s)
  unfolding unlock
  unlock-Accounts thread_id options s =
      unlock_thread-Accounts env (services env around options) (services-AreCalm options) thread_id
        options s
