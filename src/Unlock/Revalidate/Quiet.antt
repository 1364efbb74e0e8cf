-- ===== src/Unlock/Revalidate/Quiet.antt =====
-- The revalidation sends no signal and leaves nothing behind.
use codex_unlock.Base.{String, Option, none, some, List, [], ◌∷◌}
use codex_unlock.Types.{ProcessInfo, InspectionResult}
use codex_unlock.Io.{Env, M}
use codex_unlock.Io.Calm.{IsCalm, calm-bind, calm-attempt, calm-pure, calm-if}
use codex_unlock.Native.Retry.{observe_lock_file-Calm, guarded_probe_once-Calm}
use codex_unlock.Policy.{truthy}
use codex_unlock.Unlock.Observers.{Services, AreCalm}
use codex_unlock.Unlock.Revalidate.{
  Revalidation, hash_before, rehash_path, rehash, reinspect, check_lock_set, check_start,
  check_transcript, check_probe, if_none, if_clean, last_checks, revalidate,
}

module _ (env : Env) (services : Services) (calm : AreCalm services) where
  rehash-Calm :
      (f : InspectionResult) (path before : Option String)
      → IsCalm (rehash env services f path before)
  unfolding rehash rehash_path
  rehash-Calm f none before = calm-pure _
  rehash-Calm f (some path) none = calm-pure _
  rehash-Calm f (some path) (some before) =
      calm-if (truthy (some path)) _ _
        (calm-attempt _ _ _ (calm.stable_file_hash path) (λ h. calm-pure _) (λ e. calm-pure _))
        (calm-pure _)

  reinspect-Calm :
      (i : InspectionResult) (o : ProcessInfo) (path : String)
      → IsCalm (reinspect env services i o path)
  unfolding reinspect hash_before
  reinspect-Calm i o path =
      calm-bind (hash_before env services i path) _
        (calm-attempt _ _ _ (calm.stable_file_hash path) (λ h. calm-pure _) (λ e. calm-pure _))
        λ h.
          calm-bind (services.inspect_thread i.thread_id) _ (calm.inspect_thread i.thread_id) λ f.
            calm-bind (rehash env services f f.transcript.path h.hash) _
              (rehash-Calm f f.transcript.path h.hash) λ r. calm-pure _

  check_lock_set-Calm :
      (i : InspectionResult) (o : ProcessInfo) (r : Revalidation)
      → IsCalm (check_lock_set env services i o r)
  unfolding check_lock_set
  check_lock_set-Calm i o r =
      calm-attempt _ _ _ (calm.lock_files_opened_by_process o.pid i.lock.path) (λ h. calm-pure _)
        (λ e. calm-pure _)

  last_checks-Calm :
      (i : InspectionResult) (o : ProcessInfo) (path : String) (r : Revalidation)
      → IsCalm (last_checks env services i o path r)
  unfolding last_checks check_start check_transcript check_probe
  last_checks-Calm i o path r =
      calm-bind (check_start env services o r) _
        (calm-attempt _ _ _ (calm.process_start_time o.pid) (λ h. calm-pure _) (λ e. calm-pure _))
        λ r1.
          calm-bind (check_transcript env services path r1) _
            (calm-attempt _ _ _ (calm.transcript_snapshot path) (λ h. calm-pure _)
              (λ e. calm-pure _))
            λ r2.
              calm-bind _ _ (observe_lock_file-Calm env i.lock.path)
                λ ob. calm-bind _ _ (guarded_probe_once-Calm env i.lock.path ob) λ p. calm-pure _

  if_clean-Calm :
      (next : Revalidation → M Revalidation) (rs : List String) (r : Revalidation)
      → ((q : Revalidation) → IsCalm (next q))
      → IsCalm (if_none rs next r)
  if_clean-Calm next [] r h = h r
  if_clean-Calm next (x ∷ xs) r h = calm-pure r

  pub revalidate-Calm :
      (i : InspectionResult) (o : ProcessInfo) (path : String)
      → IsCalm (revalidate env services i o path)
  unfolding revalidate
  revalidate-Calm i o path =
      calm-bind (reinspect env services i o path) _ (reinspect-Calm i o path) λ r.
        calm-bind (if_clean env services (check_lock_set env services i o) r) _
          (if_clean-Calm _ r.reasons r (check_lock_set-Calm i o))
          λ r1. if_clean-Calm _ r1.reasons r1 (last_checks-Calm i o path)
