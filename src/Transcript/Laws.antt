-- ===== src/Transcript/Laws.antt =====
-- What a hash and an inspection of a rollout file show.
use codex_unlock.Base.{ℕ, ◌≡◌, refl, String, Bool, true, false, ◌∷◌, some, List, [], if◌then◌else◌}
use codex_unlock.Types.{PublicFileSnapshot}
use codex_unlock.Util.PublicSnapshot.{public_snapshot, snapshot}
use codex_unlock.Util.Snapshots.{same_snapshot, SameSnapshot, same_snapshot_sound}
use codex_unlock.Io.{
  Env, lstat, sha256_file, Stats, Log, ok, pure, observed, throw_error, new_error,
}
use codex_unlock.Io.Calm.{
  Outcome, IsCalm, start-Holds, then_step, calm-bind, calm-if, calm-catch, calm-observe, calm-pure,
}
use codex_unlock.Unlock.Observers.{FileHash}
use codex_unlock.Transcript.{
  RecordReader, stable_file_hash, read_transcript, inspect_regular, inspect_transcript_path,
  inspect_transcript_candidates,
}

module _ (env : Env) (path : String) where
  -- The file at `path` had these snapshots before and after it was hashed.
  pub record IsStableHash (s : Log) (h : FileHash) : Type 0 where
    pub first : Stats
    pub first_seen : env.lstat s path ≡ ok first
    pub before : PublicFileSnapshot
    pub first_snapshot : public_snapshot first ≡ ok before
    pub hashed : env.sha256_file (observed ∷ s) path ≡ ok h.hash
    pub last : Stats
    pub last_seen : env.lstat (observed ∷ observed ∷ s) path ≡ ok last
    pub last_snapshot : public_snapshot last ≡ ok h.snapshot
    pub same : SameSnapshot (some before) (some h.snapshot)

  compared :
      (s : Log) (first : Stats) (before : PublicFileSnapshot) (hash : String) (last : Stats)
      (after : PublicFileSnapshot)
      → env.lstat s path ≡ ok first
      → public_snapshot first ≡ ok before
      → env.sha256_file (observed ∷ s) path ≡ ok hash
      → env.lstat (observed ∷ observed ∷ s) path ≡ ok last
      → public_snapshot last ≡ ok after
      → (v : Log) (b : Bool) → same_snapshot (some before) (some after) ≡ b
      → Outcome
          (λ h t. IsStableHash s h)
          (λ t. Unit {0})
          ((if b
              then pure (record { hash = hash; snapshot = after })
              else throw_error (new_error "transcript changed while hashing"))
            v)
  compared s first before hash last after e1 e2 e3 e4 e5 v false q = tt
  compared s first before hash last after e1 e2 e3 e4 e5 v true q = record {
    first = first;
    first_seen = e1;
    before = before;
    first_snapshot = e2;
    hashed = e3;
    last = last;
    last_seen = e4;
    last_snapshot = e5;
    same = same_snapshot_sound _ _ q;
  }

  -- A hash is returned only where the file had the same identity, size and time of modification
  -- before and after it was read, and it comes with the later snapshot.
  pub stable_file_hash-IsStableHash :
      (s : Log) → Outcome (λ h t. IsStableHash s h) (λ t. Unit {0}) (stable_file_hash env path s)
  unfolding stable_file_hash
  stable_file_hash-IsStableHash s =
      let t : Log = observed ∷ s in
      let u : Log = observed ∷ t in
      let v : Log = observed ∷ u in
      let P : FileHash → Log → Type 0 = λ h t. IsStableHash s h in
      then_step P (env.lstat s path) t _ λ first e1.
        then_step P (public_snapshot first) t _ λ before e2.
          then_step P (env.sha256_file t path) u _ λ hash e3.
            then_step P (env.lstat u path) v _ λ last e4.
              then_step P (public_snapshot last) v _ λ after e5.
                compared s first before hash last after e1 e2 e3 e4 e5 v
                  (same_snapshot (some before) (some after)) refl

pub calm-snapshot : (value : Stats) → IsCalm (snapshot value)
calm-snapshot value = record { at = start-Holds }

pub stable_file_hash-Calm : (env : Env) (path : String) → IsCalm (stable_file_hash env path)
unfolding stable_file_hash
stable_file_hash-Calm env path = calm-bind (lstat env path) _ (calm-observe _) λ value.
    calm-bind (snapshot value) _ (calm-snapshot _) λ before.
      calm-bind (sha256_file env path) _ (calm-observe _) λ hash.
        calm-bind (lstat env path) _ (calm-observe _) λ value'.
          calm-bind (snapshot value') _ (calm-snapshot _) λ after.
            calm-if (same_snapshot (some before) (some after))
              (pure (record { hash = hash; snapshot = after }))
              (throw_error (new_error "transcript changed while hashing")) (calm-pure _)
              (record { at = start-Holds })

module _ (env : Env) (read : RecordReader)
    (calm : (path : String) (size : ℕ) → IsCalm (read path size)) where
  inspect_regular-Calm :
      (path : String) (candidates : List String) (value : Stats) (before : PublicFileSnapshot)
      → IsCalm (inspect_regular env read path candidates value before)
  unfolding inspect_regular read_transcript
  inspect_regular-Calm path candidates value before = calm-if _ _ _ (calm-pure _) (
      calm-bind (read path before.size) _ (calm path before.size) λ last_record.
        calm-bind (lstat env path) _ (calm-observe _)
          λ value'. calm-bind (snapshot value') _ (calm-snapshot _) λ after. calm-pure _)

  pub inspect_transcript_path-Calm :
      (path : String) (candidates : List String)
      → IsCalm (inspect_transcript_path env read path candidates)
  unfolding inspect_transcript_path
  inspect_transcript_path-Calm path candidates =
      calm-catch _ _
        (calm-bind (lstat env path) _ (calm-observe _) λ value.
          calm-bind (snapshot value) _ (calm-snapshot _)
            λ before. inspect_regular-Calm path candidates value before)
        (λ e. calm-pure _)

  pub inspect_transcript_candidates-Calm :
      (candidates : List String) → IsCalm (inspect_transcript_candidates env read candidates)
  unfolding inspect_transcript_candidates
  inspect_transcript_candidates-Calm [] = calm-pure _
  inspect_transcript_candidates-Calm (path ∷ []) = inspect_transcript_path-Calm path _
  inspect_transcript_candidates-Calm (path ∷ other ∷ rest) = calm-pure _
