-- ===== src/Unlock/Compare/Laws.antt =====
-- What the reinspection has in common with the first inspection when it gives no reason against it.
use codex_unlock.Base.{
  eq_of_test, integer_eq, ◌≡◌, refl, sym, ap, ◌∙◌, String, Bool, true, false, Option, none, some,
  List, [], ◌∷◌, nat_eq, string_eq, bool_eq, option_eq, list_eq, arith, append-eq-nil,
  eq-true_of_not, or-eq-false, and-eq-true, ◌⊎◌, if◌then◌else◌, inl, inr,
}
use codex_unlock.Types.{
  ProcessInfo, Presence, ProbeStatus, TranscriptRecord, InspectionResult, is_held, is_present,
}
use codex_unlock.Util.Snapshots.{SameSnapshot, same_snapshot_sound}
use codex_unlock.Unlock.Compare.{
  is_some, same_owner_evidence, same_string_array, same_last_record, reason_if, same_owner,
  prefixed, compare_inspections,
}

-- The same process, started at the same known time, with the same identity and role.
pub record SameOwner (o f : ProcessInfo) : Type 0 where
  pub pid : f.pid ≡ o.pid
  pub parent : f.ppid ≡ o.ppid
  pub user : f.uid ≡ o.uid
  pub start : (t : String) × (o.start_time ≡ some t) × (f.start_time ≡ some t)
  pub command : f.command ≡ o.command
  pub arguments : f.arguments ≡ o.arguments
  pub complete : f.identity_complete ≡ o.identity_complete
  pub codex : f.is_codex ≡ o.is_codex
  pub shared : f.is_shared_service ≡ o.is_shared_service

is_some_of : (o : Option String) → is_some o ≡ true → (t : String) × (o ≡ some t)
is_some_of none h = cc
is_some_of (some t) h = (t, refl)

pub same_owner_evidence_sound : (o f : ProcessInfo) → same_owner_evidence o f ≡ true → SameOwner o f
unfolding same_owner_evidence
same_owner_evidence_sound o f h =
    let (h8, shared) = and-eq-true _ _ h in
    let (h7, codex) = and-eq-true _ _ h8 in
    let (h6, complete) = and-eq-true _ _ h7 in
    let (h5, arguments) = and-eq-true _ _ h6 in
    let (h4, command) = and-eq-true _ _ h5 in
    let (h3, start) = and-eq-true _ _ h4 in
    let (h2, known) = and-eq-true _ _ h3 in
    let (h1, user) = and-eq-true _ _ h2 in
    let (pid, parent) = and-eq-true _ _ h1 in
    let (t, q) = is_some_of o.start_time known in
    record {
      pid = sym (eq_of_test o.pid f.pid pid);
      parent = sym (eq_of_test o.ppid f.ppid parent);
      user = sym (eq_of_test o.uid f.uid user);
      start = (t, q, sym (eq_of_test o.start_time f.start_time start) ∙ q);
      command = sym (eq_of_test o.command f.command command);
      arguments = sym (eq_of_test o.arguments f.arguments arguments);
      complete = sym (eq_of_test o.identity_complete f.identity_complete complete);
      codex = sym (eq_of_test o.is_codex f.is_codex codex);
      shared = sym (eq_of_test o.is_shared_service f.is_shared_service shared);
    }

pub same_string_array_sound :
    (a b : Option (List String))
    → same_string_array a b ≡ true
    → (l : List String) × (a ≡ some l) × (b ≡ some l)
unfolding same_string_array
same_string_array_sound (some a) (some b) h = (a, refl, ap some (sym (eq_of_test a b h)))
same_string_array_sound (some a) none h = cc
same_string_array_sound none (some b) h = cc
same_string_array_sound none none h = cc

-- `sameLastRecord` holds of equal records only.
pub same_last_record_sound : (a b : Option TranscriptRecord) → same_last_record a b ≡ true → a ≡ b
unfolding same_last_record
same_last_record_sound none none h = refl
same_last_record_sound none (some b) h = cc
same_last_record_sound (some a) none h = cc
same_last_record_sound (some a) (some b) h =
    let (h2, o) = and-eq-true _ _ h in
    let (h1, s) = and-eq-true _ _ h2 in
    let (t, e) = and-eq-true _ _ h1 in
    let pt = eq_of_test a.record_type b.record_type t in
    let pe = eq_of_test a.event_type b.event_type e in
    let ps = eq_of_test a.timestamp b.timestamp s in
    let po = eq_of_test a.ordinal b.ordinal o in
    λ i. some (record { record_type = pt i; event_type = pe i; timestamp = ps i; ordinal = po i })

pub reason_if-nil : (b : Bool) (s : String) → reason_if b s ≡ [] → b ≡ false
reason_if-nil true s h = cc
reason_if-nil false s h = refl

-- What the two inspections agree on.
pub record SameEvidence (i : InspectionResult) (o : ProcessInfo) (f : InspectionResult)
    : Type 0 where
  pub unblocked : (f.safe_to_unlock ≡ true) ⊎ (f.blockers ≡ [])
  pub owner : (p : ProcessInfo) × (f.owner ≡ some p) × SameOwner o p
  pub lock : SameSnapshot i.lock.snapshot f.lock.snapshot
  pub held : f.lock.probe.status ≡ ProbeStatus.held
  pub present : f.lock.observation ≡ Presence.present
  pub locks : (l : List String) × (i.owner_lock_files ≡ some l) × (f.owner_lock_files ≡ some l)
  pub transcript : i.transcript.path ≡ f.transcript.path
  pub content : SameSnapshot i.transcript.snapshot f.transcript.snapshot
  pub last : i.transcript.last_record ≡ f.transcript.last_record

unblocked_of :
    (safe : Bool) (bs : List String)
    → (if safe then [] else prefixed bs) ≡ []
    → (safe ≡ true) ⊎ (bs ≡ [])
unblocked_of true bs h = inl refl
unblocked_of false [] h = inr refl
unblocked_of false (b ∷ bs) h = cc

owner_of :
    (o : ProcessInfo) (f : Option ProcessInfo)
    → same_owner o f ≡ true
    → (p : ProcessInfo) × (f ≡ some p) × SameOwner o p
owner_of o none h = cc
owner_of o (some p) h = (p, refl, same_owner_evidence_sound o p h)

pub held_of : (s : ProbeStatus) → is_held s ≡ true → s ≡ ProbeStatus.held
held_of s h = ground arith

pub present_of : (s : Presence) → is_present s ≡ true → s ≡ Presence.present
present_of s h = ground arith

-- A reinspection against which nothing is said agrees with the first inspection on the owner's
-- identity, the lock file, the owner's locks and the transcript, and still sees the lock held.
pub compare_inspections_sound :
    (i : InspectionResult) (o : ProcessInfo) (f : InspectionResult)
    → compare_inspections i o f ≡ []
    → SameEvidence i o f
unfolding compare_inspections
compare_inspections_sound i o f h =
    let (h4, c6) = append-eq-nil _ _ h in
    let (h3, c5) = append-eq-nil _ _ h4 in
    let (h2, c4) = append-eq-nil _ _ h3 in
    let (h1, c3) = append-eq-nil _ _ h2 in
    let (c1, c2) = append-eq-nil _ _ h1 in
    let (nheld, npresent) = or-eq-false _ _ (reason_if-nil _ _ c4) in
    let (h7, nlast) = or-eq-false _ _ (reason_if-nil _ _ c6) in
    let (npath, ncontent) = or-eq-false _ _ h7 in
    record {
      unblocked = unblocked_of f.safe_to_unlock f.blockers c1;
      owner = owner_of o f.owner (eq-true_of_not _ (reason_if-nil _ _ c2));
      lock = same_snapshot_sound _ _ (eq-true_of_not _ (reason_if-nil _ _ c3));
      held = held_of _ (eq-true_of_not _ nheld);
      present = present_of _ (eq-true_of_not _ npresent);
      locks = same_string_array_sound _ _ (eq-true_of_not _ (reason_if-nil _ _ c5));
      transcript = eq_of_test i.transcript.path f.transcript.path (eq-true_of_not _ npath);
      content = same_snapshot_sound _ _ (eq-true_of_not _ ncontent);
      last = same_last_record_sound _ _ (eq-true_of_not _ nlast);
    }
