-- ===== src/Transcript/Reading.antt =====
-- src/transcript.ts: opening a rollout file for its last record. The bytes are decoded and parsed by
-- a parameter, which has no effect.
use codex_unlock.Base.{
  ℕ, zero, suc, ◌-◌, String, ◌&&◌, Option, none, some, List, [], ◌∷◌, ◌++◌, ◌==◌, nat_eq, ltb, min,
  length, arith, if◌then◌else◌,
}
use codex_unlock.Types.{TranscriptRecord}
use codex_unlock.Io.{
  Env, Log, M, Res, ok, throw, ◌>>=◌, ◌>>◌, pure, throw_error, observe, then_run, open_file,
  close_file, opening, opened, closed, follow_read,
}
use codex_unlock.Io.Calm.{
  Holds, IsCalm, start-Holds, chain-Holds, calm-bind, calm-pure, calm-if, calm-observe,
}
use codex_unlock.Transcript.LastLine.{
  read_chunk_bytes, max_last_record_bytes, incomplete, found_or, line_of, read_back,
  read_last_non_empty_line,
}

-- A handle's read, by the descriptor, the position and the count, and the parsing of a line.
pub record LineReading : Type 0 where
  pub read_chunk : Log → ℕ → ℕ → ℕ → Res (List ℕ)
  pub parse : List ℕ → Res TranscriptRecord

module _ (env : Env) (reading : LineReading) where
  -- `finally { await handle.close() }`
  abbrev pub close_line : ℕ → Res (Option (List ℕ)) × Log → Res (Option (List ℕ)) × Log
  close_line fd (ok line, s) = (close_file env fd >> pure line) s
  close_line fd (throw e, s) = (close_file env fd >> throw_error e) s

  abbrev chunk_of : ℕ → ℕ → ℕ → M (List ℕ)
  chunk_of fd position count = observe (λ s. reading.read_chunk s fd position count)

  pub open_last_line : String → ℕ → M (Option (List ℕ))
  open_last_line path size =
      if size == 0
      then pure none
      else open_file env path follow_read
        >>= (λ fd s. close_line fd (read_last_non_empty_line (chunk_of fd) size s))

  parse_last_record : Option (List ℕ) → M (Option TranscriptRecord)
  parse_last_record none = pure none
  parse_last_record (some line) = λ s. then_run (reading.parse line, s) (λ r. pure (some r))

  pub read_last_record : String → ℕ → M (Option TranscriptRecord)
  read_last_record path size = open_last_line path size >>= parse_last_record

  read_back-Calm :
      (fd fuel position : ℕ) (buffer : List ℕ)
      → IsCalm (read_back (chunk_of fd) fuel position buffer)
  unfolding read_back incomplete
  read_back-Calm fd zero position buffer = record { at = start-Holds }
  read_back-Calm fd (suc fuel) position buffer =
      let count = min read_chunk_bytes position in
      calm-if (ltb 0 position && ltb (length buffer) max_last_record_bytes) _ _
        (calm-bind (chunk_of fd (position - count) count) _ (calm-observe _) λ chunk.
          by_line (line_of (position - count) (chunk ++ buffer))
            (read_back-Calm fd fuel (position - count) (chunk ++ buffer)))
        (record { at = start-Holds })
    where
      by_line :
          {go_on : M (List ℕ)} (o : Option (List ℕ))
          → IsCalm go_on
          → IsCalm (found_or (chunk_of fd) go_on o)
      by_line (some line) h = calm-pure line
      by_line none h = h

  line-Calm : (fd size : ℕ) → IsCalm (read_last_non_empty_line (chunk_of fd) size)
  unfolding read_last_non_empty_line
  line-Calm fd size = calm-if (size == 0) _ _ (calm-pure none) (
      calm-bind (read_back (chunk_of fd) (suc size) size []) _
        (read_back-Calm fd (suc size) size []) λ line. calm-pure (some line))

  closed_line :
      (r : Res (Unit {0})) (s t : Log) (f : Unit {0} → M (Option (List ℕ)))
      → Holds 0 0 s t
      → ((u : Unit {0}) → IsCalm (f u))
      → Holds 0 0 s (then_run (r, t) f).1
  closed_line (ok u) s t f h g = chain-Holds h ((g u).at t)
  closed_line (throw e) s t f h g = h

  close_line-Holds :
      (fd : ℕ) (s : Log) (p : Res (Option (List ℕ)) × Log)
      → Holds 0 0 (opened fd ∷ s) p.1
      → Holds 0 0 s (close_line fd p).1
  close_line-Holds fd s (ok line, t) h =
      closed_line (env.close_file t fd) s (closed fd ∷ t) _ (omega arith) λ u. calm-pure line
  close_line-Holds fd s (throw e, t) h =
      closed_line (env.close_file t fd) s (closed fd ∷ t) _ (omega arith)
        λ u. record { at = start-Holds }

  after_open :
      (size : ℕ) (s : Log) (r : Res ℕ)
      → Holds 0 0 s
          (then_run
            (r, opening r s)
            (λ fd t. close_line fd (read_last_non_empty_line (chunk_of fd) size t))).1
  after_open size s (throw e) = omega arith
  after_open size s (ok fd) =
      close_line-Holds fd s (read_last_non_empty_line (chunk_of fd) size (opened fd ∷ s))
        ((line-Calm fd size).at (opened fd ∷ s))

  parse_last_record-Calm : (o : Option (List ℕ)) → IsCalm (parse_last_record o)
  unfolding parse_last_record
  parse_last_record-Calm none = calm-pure none
  parse_last_record-Calm (some line) = record { at = λ s. by_result s (reading.parse line) }
    where
      by_result :
          (s : Log) (r : Res TranscriptRecord)
          → Holds 0 0 s (then_run (r, s) (λ a. pure (some a))).1
      by_result s (ok a) = start-Holds s
      by_result s (throw e) = start-Holds s

  pub read_last_record-Calm : (path : String) (size : ℕ) → IsCalm (read_last_record path size)
  unfolding read_last_record open_last_line
  read_last_record-Calm path size =
      calm-bind _ _
        (calm-if (size == 0) _ _ (calm-pure none)
          (record { at = λ s. after_open size s (env.open_file s path follow_read) }))
        parse_last_record-Calm
