-- ===== src/Update.antt =====
-- src/update.ts: which parts of the update notice a run of the command allows.
pub mod Advisory
pub mod Versions
use codex_unlock.Base.{Bool, true, false, not, ◌&&◌, ◌||◌, if◌then◌else◌, ◌≡◌, arith, ◌↔◌, ◌⊎◌}

-- The context of a run. `no_notice_variable` and `ci_variable` are `environmentFlag` of the two
-- environment variables.
pub record UpdateAutomationContext : Type 0 where
  pub json : Bool
  pub no_update_notice : Bool
  pub stdout_is_tty : Bool
  pub stderr_is_tty : Bool
  pub no_notice_variable : Bool
  pub ci_variable : Bool

pub record UpdateAutomationPolicy : Type 0 where
  pub disabled : Bool
  pub read_cache : Bool
  pub attach_json : Bool
  pub show_human_notice : Bool
  pub schedule_refresh : Bool

unfoldable pub update_automation_policy : UpdateAutomationContext → UpdateAutomationPolicy
update_automation_policy c =
    if c.no_update_notice || c.no_notice_variable
    then (record {
      disabled = true;
      read_cache = false;
      attach_json = false;
      show_human_notice = false;
      schedule_refresh = false;
    })
    else (record {
      disabled = false;
      read_cache = c.json || (not c.ci_variable && c.stderr_is_tty);
      attach_json = c.json;
      show_human_notice = not c.json && not c.ci_variable && c.stderr_is_tty;
      schedule_refresh = not c.ci_variable && (c.stdout_is_tty && c.stderr_is_tty);
    })

-- What a policy may do in its context.
pub record IsRestrained (c : UpdateAutomationContext) (p : UpdateAutomationPolicy) : Type 0 where
  -- The option and the variable each disable it, and nothing else does.
  pub opted_out :
      ((c.no_update_notice ≡ true) ⊎ (c.no_notice_variable ≡ true)) ↔ (p.disabled ≡ true)
  -- A notice or an attachment needs the cache, and the cache is read for nothing else.
  pub reads : (p.read_cache ≡ true) ↔ ((p.attach_json || p.show_human_notice) ≡ true)
  -- A JSON result and a notice for people exclude each other.
  pub one_form : (p.attach_json && p.show_human_notice) ≡ false
  -- In CI nothing is written for people and no refresh is started.
  pub quiet_ci : c.ci_variable ≡ true → (p.show_human_notice || p.schedule_refresh) ≡ false
  -- A refresh is only started where a person sees both outputs.
  pub attended : p.schedule_refresh ≡ true → (c.stdout_is_tty ≡ true) × (c.stderr_is_tty ≡ true)
  -- A disabled policy does nothing.
  pub silent :
      p.disabled ≡ true
      → (p.read_cache ≡ false)
        × (p.schedule_refresh ≡ false)
        × (p.attach_json ≡ false)
        × (p.show_human_notice ≡ false)
  -- A policy that is not disabled attaches the notice to every JSON result.
  pub attaches : p.disabled ≡ false → p.attach_json ≡ c.json

-- For every context, the policy is disabled exactly when the run opts out by the option or by the
-- environment variable, and otherwise attaches to JSON results. The cache is read exactly when its content can be shown, JSON output and the
-- notice exclude each other, CI gets no notice and starts no refresh, a refresh is only scheduled
-- with both outputs on a terminal, and a disabled policy reads, shows, attaches and schedules nothing.
pub update_automation_policy-IsRestrained :
    (c : UpdateAutomationContext) → IsRestrained c (update_automation_policy c)
unfolding update_automation_policy
update_automation_policy-IsRestrained c = ground arith
