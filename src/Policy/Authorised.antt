-- ===== src/Policy/Authorised.antt =====
-- What an authorised unlock means, stated without the list of blockers.
use codex_unlock.Base.{
  pos, integer_eq, ℕ, ◌≡◌, ◌≢◌, String, true, false, Option, none, some, List, [], ◌∷◌, length,
  nat_eq, includes,
}
use codex_unlock.Types.{
  Classification, ProbeStatus, Presence, PublicFileSnapshot, ProcessInfo, TranscriptStatus,
  TranscriptRecord, TranscriptInspection, InspectionEvidence,
}

-- The snapshot, where there is one, has one link.
abbrev pub HasOneLink : Option PublicFileSnapshot → Type 0
HasOneLink none = Unit {0}
HasOneLink (some s) = s.links ≡ 1

-- No error text, or an empty one, which the source's condition ignores.
abbrev pub NoError : Option String → Type 0
NoError none = Unit {0}
NoError (some s) = s ≡ ""

pub record IsLockHeld (e : InspectionEvidence) (opener_error : Option String) : Type 0 where
  pub live : e.classification ≡ Classification.live_owner
  pub exists : e.lock.exists ≡ true
  pub observed : e.lock.observation ≢ Presence.unknown
  pub regular : e.lock.regular_file ≡ some true
  pub no_symlink : e.lock.symlink ≡ some false
  pub owned : e.lock.owned_by_current_user ≡ some true
  pub one_link : HasOneLink e.lock.snapshot
  pub stable : e.lock.stable ≡ some true
  pub held : e.lock.probe.status ≡ ProbeStatus.held
  pub openers_seen : NoError opener_error
  pub one_opener : length e.openers ≡ 1
  pub same_owner : e.owner_identity_stable ≡ some true

pub record IsRecoverableOwner (o : ProcessInfo) (family : Option (List ℕ)) (uid : Option ℕ)
    : Type 0 where
  pub complete : o.identity_complete ≡ true
  pub codex : o.is_codex ≡ true
  pub not_shared : o.is_shared_service ≡ false
  pub user : (u : ℕ) × (uid ≡ some u) × (o.uid ≡ some (pos u))
  pub stranger : (f : List ℕ) × (family ≡ some f) × (includes f o.pid ≡ false)

pub record IsComplete (t : TranscriptInspection) : Type 0 where
  pub found : t.status ≡ TranscriptStatus.found
  pub stable : t.stable ≡ some true
  pub finished :
      (r : TranscriptRecord) × (t.last_record ≡ some r)
      × (r.record_type ≡ some "event_msg")
      × (r.event_type ≡ some "task_complete")

-- The evidence that authorises a signal to the owner of the lock.
pub record IsAuthorised (e : InspectionEvidence) (family : Option (List ℕ)) (uid : Option ℕ)
    (opener_error owner_lock_error : Option String) : Type 0 where
  pub lock_held : IsLockHeld e opener_error
  pub owner : (o : ProcessInfo) × (e.owner ≡ some o) × IsRecoverableOwner o family uid
  pub locks_seen : NoError owner_lock_error
  pub only_lock : e.owner_lock_files ≡ some (e.lock.path ∷ [])
  pub transcript : IsComplete e.transcript
