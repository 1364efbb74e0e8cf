-- ===== src/Unlock/Revalidate/Hashes.antt =====
-- What the two hashes of the transcript have established when they give no reason.
use codex_unlock.Base.{
  eq_of_test, ◌≡◌, refl, sym, subst, Option, none, String, not, ◌||◌, some, [], ◌∷◌, eq-true_of_not,
  or-eq-false, ◌==◌, nat_eq, string_eq, option_eq,
}
use codex_unlock.Types.{PublicFileSnapshot, InspectionResult}
use codex_unlock.Util.{error_text, ◌<>◌}
use codex_unlock.Util.Snapshots.{same_snapshot, SameSnapshot, same_snapshot_sound}
use codex_unlock.Io.{Env, Log, Res, ok, throw, attempt_run, pure}
use codex_unlock.Io.Answers.{Ran, Answers, Yields, Yields-pure, Yields-if}
use codex_unlock.Policy.{truthy}
use codex_unlock.Unlock.Observers.{Services, FileHash}
use codex_unlock.Unlock.Compare.{reason_if}
use codex_unlock.Unlock.Compare.Laws.{reason_if-nil}
use codex_unlock.Unlock.Revalidate.{Hashed, Rehashed, hash_before, rehash, rehash_path}

module _ (env : Env) (services : Services) (i : InspectionResult) (path : String) where
  -- The transcript of the later inspection was hashed again: the same hash, and the snapshot `x`
  -- of that hash is the one that the inspection had.
  pub record Rehashing (f : InspectionResult) (first : FileHash) (x : PublicFileSnapshot)
      : Type 0 where
    pub place : String
    pub at_place : f.transcript.path ≡ some place
    pub again : FileHash
    pub hashed_again : Ran (services.stable_file_hash place) again
    pub same_hash : again.hash ≡ first.hash
    pub hash_snapshot : again.snapshot ≡ x
    pub same_transcript : SameSnapshot (some x) f.transcript.snapshot

  abbrev pub HashSays : Hashed → Type 0
  HashSays h =
      h.reasons ≡ []
      → (g : FileHash) × Ran (services.stable_file_hash path) g
        × (h.hash ≡ some g.hash)
        × SameSnapshot (some g.snapshot) i.transcript.snapshot

  attempted_hash :
      (s : Log) (p : Res FileHash × Log)
      → services.stable_file_hash path s ≡ p
      → Answers HashSays (
          attempt_run p
            (λ h. pure (record {
              hash = some h.hash;
              reasons =
                  reason_if
                    (not (same_snapshot (some h.snapshot) i.transcript.snapshot))
                    "transcript_changed_after_inspection";
            }))
            (λ e.
              pure (record {
                hash = none;
                reasons = ("transcript_hash_failed:" <> error_text e) ∷ [];
              })))
  attempted_hash s (ok h, t) e =
      λ q. (h, (s, t, e), refl, same_snapshot_sound _ _ (eq-true_of_not _ (reason_if-nil _ _ q)))
  attempted_hash s (throw x, t) e = λ q. cc q

  pub hash_before-Says : Yields HashSays (hash_before env services i path)
  unfolding hash_before
  hash_before-Says = record { at = λ s. attempted_hash s (services.stable_file_hash path s) refl }

  abbrev pub RehashSays : InspectionResult → FileHash → Rehashed → Type 0
  RehashSays f g r =
      r.reasons ≡ [] → (y : PublicFileSnapshot) → r.snapshot ≡ some y → Rehashing f g y

  attempted_rehash :
      (f : InspectionResult) (g : FileHash) (place : String) (s : Log) (p : Res FileHash × Log)
      → f.transcript.path ≡ some place
      → services.stable_file_hash place s ≡ p
      → Answers (RehashSays f g) (
          attempt_run p
            (λ h. pure (record {
              snapshot = some h.snapshot;
              reasons =
                  reason_if
                    (not (h.hash == g.hash)
                      || not (same_snapshot (some h.snapshot) f.transcript.snapshot))
                    "transcript_changed_during_revalidation";
            }))
            (λ e. pure (record {
              snapshot = none;
              reasons = ("transcript_revalidation_hash_failed:" <> error_text e) ∷ [];
            })))
  attempted_rehash f g place s (throw x, t) k e = λ q. cc q
  attempted_rehash f g place s (ok h, t) k e = λ q y same.
      let here : h.snapshot ≡ y = cc same in
      let (a, b) = or-eq-false _ _ (reason_if-nil _ _ q) in
      record {
        place = place;
        at_place = k;
        again = h;
        hashed_again = (s, t, e);
        same_hash = eq_of_test h.hash g.hash (eq-true_of_not _ a);
        hash_snapshot = here;
        same_transcript =
            subst (λ z. SameSnapshot (some z) f.transcript.snapshot) {x = h.snapshot} {y = y} here
              (same_snapshot_sound _ _ (eq-true_of_not _ b));
      }

  pub rehash-Says :
      (f : InspectionResult) (g : FileHash) (place : Option String) (before : Option String)
      → f.transcript.path ≡ place
      → before ≡ some g.hash
      → Yields (RehashSays f g) (rehash env services f place before)
  unfolding rehash rehash_path
  rehash-Says f g none before k e = Yields-pure (RehashSays f g) _ (λ q y same. cc same)
  rehash-Says f g (some place) none k e = Yields-pure (RehashSays f g) _ (λ q y same. cc same)
  rehash-Says f g (some place) (some before) k e =
      let same : before ≡ g.hash = cc e in
      subst (λ h. Yields (RehashSays f g) (rehash env services f (some place) (some h)))
        {x = g.hash} {y = before} (sym same)
        (Yields-if (RehashSays f g) (truthy (some place)) _ _
          (λ t. record {
            at = λ s. attempted_rehash f g place s (services.stable_file_hash place s) k refl;
          })
          λ t. Yields-pure (RehashSays f g) _ (λ q y same. cc same))
