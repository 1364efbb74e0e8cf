-- ===== src/Transcript.antt =====
-- src/transcript.ts: the inspection of a thread's rollout file, and its hash. Walk finds
-- the candidates, Reading opens the file for its last record, and LastLine is the search for the
-- line that the record stands on.
pub mod Laws
pub mod LastLine
pub mod Reading
pub mod Walk
use codex_unlock.Base.{
  String, Bool, true, false, not, ◌&&◌, ◌||◌, Option, none, some, List, [], ◌∷◌, if◌then◌else◌,
  length, ℕ,
}
use codex_unlock.Types.{
  TranscriptStatus, TranscriptRecord, TranscriptInspection, PublicFileSnapshot,
}
use codex_unlock.Util.{Error, error_text, ◌<>◌}
use codex_unlock.Util.PublicSnapshot.{snapshot}
use codex_unlock.Util.Snapshots.{same_snapshot}
use codex_unlock.Io.{
  Stats, is_file, is_symbolic_link, Env, M, ◌>>=◌, ◌>>◌, pure, try_catch, throw_error, new_error,
  lstat, sha256_file,
}
use codex_unlock.Unlock.Observers.{FileHash}

-- `parseLastRecord(await readLastNonEmptyLine(path, size))`
abbrev pub RecordReader : Type 0
RecordReader = String → ℕ → M (Option TranscriptRecord)

abbrev pub without_record :
    TranscriptStatus
    → Option String
    → List String
    → Option PublicFileSnapshot
    → Option String
    → TranscriptInspection
without_record status path candidates snapshot error = record {
  status = status;
  path = path;
  candidates = candidates;
  snapshot = snapshot;
  last_record = none;
  stable = none;
  error = error;
}

module _ (env : Env) where
  -- The part after the checks of the file's kind.
  pub read_transcript :
      RecordReader → String → List String → PublicFileSnapshot → M TranscriptInspection
  read_transcript read path candidates before = do
    last_record ← read path before.size
    value ← lstat env path
    after ← snapshot value
    pure (record {
      status = TranscriptStatus.found;
      path = some path;
      candidates = candidates;
      snapshot = some after;
      last_record = last_record;
      stable = some (same_snapshot (some before) (some after));
      error = none;
    })

  pub inspect_regular :
      RecordReader → String → List String → Stats → PublicFileSnapshot → M TranscriptInspection
  inspect_regular read path candidates value before =
      if not (is_file value) || is_symbolic_link value
      then pure (
          without_record TranscriptStatus.unreadable (some path) candidates (some before)
            (some "transcript is a symlink or non-regular file"))
      else read_transcript read path candidates before

  pub inspect_transcript_path : RecordReader → String → List String → M TranscriptInspection
  inspect_transcript_path read path candidates =
      try_catch
        (do
          value ← lstat env path
          before ← snapshot value
          inspect_regular read path candidates value before)
        (λ e. pure (
          without_record TranscriptStatus.unreadable (some path) candidates none
            (some (error_text e))))

  pub inspect_transcript_candidates : RecordReader → List String → M TranscriptInspection
  inspect_transcript_candidates read [] =
      pure (without_record TranscriptStatus.missing none [] none none)
  inspect_transcript_candidates read (path ∷ []) = inspect_transcript_path read path (path ∷ [])
  inspect_transcript_candidates read (path ∷ other ∷ rest) =
      let candidates = path ∷ other ∷ rest in
      pure (
        without_record TranscriptStatus.ambiguous none candidates none (
          some (
            "found "
            <> env.show_number (length candidates)
            <> " rollout files ending in "
            <> env.basename path)))

  pub stable_file_hash : String → M FileHash
  stable_file_hash path = do
    value ← lstat env path
    before ← snapshot value
    hash ← sha256_file env path
    value' ← lstat env path
    after ← snapshot value'
    (if same_snapshot (some before) (some after)
        then pure (record { hash = hash; snapshot = after })
        else throw_error (new_error "transcript changed while hashing"))
