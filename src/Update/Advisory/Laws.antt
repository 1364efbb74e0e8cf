-- ===== src/Update/Advisory/Laws.antt =====
-- When the advisory speaks.
use codex_unlock.Base.{true, false, none, ◌≡◌, ◌≢◌, ◌⊎◌, arith}
use codex_unlock.Policy.{truthy}
use codex_unlock.Update.{UpdateAutomationContext, update_automation_policy}
use codex_unlock.Update.Advisory.{
  UpdateCacheRecord, fresh, PreparedUpdateAdvisory, UpdateGuidanceContext, UpdateSources,
  prepare_update_advisory,
}

-- The cache has a fresh record of a newer version, the user is known, and the cache's boundary
-- has no error.
pub record HasNewer (s : UpdateSources) : Type 0 where
  pub cached : UpdateCacheRecord
  pub found : s.cache ≡ fresh cached
  pub older : s.is_older_than cached.latest ≡ true
  pub user : s.has_user ≡ true
  pub no_error : truthy s.boundary_error ≡ false

pub record IsJustified (c : UpdateAutomationContext) (s : UpdateSources)
    (a : PreparedUpdateAdvisory) : Type 0 where
  pub attached : a.client_update ≢ none → HasNewer s × (c.json ≡ true)
  pub noticed :
      a.human_notice ≢ none
      → HasNewer s × (c.json ≡ false) × (c.ci_variable ≡ false) × (c.stderr_is_tty ≡ true)
  pub opted_out :
      (c.no_update_notice ≡ true) ⊎ (c.no_notice_variable ≡ true)
      → (a.client_update ≡ none) × (a.human_notice ≡ none) × (a.schedule_refresh ≡ false)

attached_newer :
    (c : UpdateAutomationContext) (g : UpdateGuidanceContext) (s : UpdateSources)
    → (prepare_update_advisory c g s).client_update ≢ none
    → HasNewer s × (c.json ≡ true)
unfolding prepare_update_advisory update_automation_policy
attached_newer c g s h = ground arith

noticed_newer :
    (c : UpdateAutomationContext) (g : UpdateGuidanceContext) (s : UpdateSources)
    → (prepare_update_advisory c g s).human_notice ≢ none
    → HasNewer s × (c.json ≡ false) × (c.ci_variable ≡ false) × (c.stderr_is_tty ≡ true)
unfolding prepare_update_advisory update_automation_policy
noticed_newer c g s h = ground arith

opted_out :
    (c : UpdateAutomationContext) (g : UpdateGuidanceContext) (s : UpdateSources)
    → (c.no_update_notice ≡ true) ⊎ (c.no_notice_variable ≡ true)
    → ((prepare_update_advisory c g s).client_update ≡ none)
      × ((prepare_update_advisory c g s).human_notice ≡ none)
      × ((prepare_update_advisory c g s).schedule_refresh ≡ false)
unfolding prepare_update_advisory update_automation_policy
opted_out c g s h = ground arith

pub prepare_update_advisory-IsJustified :
    (c : UpdateAutomationContext) (g : UpdateGuidanceContext) (s : UpdateSources)
    → IsJustified c s (prepare_update_advisory c g s)
prepare_update_advisory-IsJustified c g s = record {
  attached = attached_newer c g s;
  noticed = noticed_newer c g s;
  opted_out = opted_out c g s;
}
