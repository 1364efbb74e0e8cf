-- ===== src/Update/Advisory.antt =====
-- src/update.ts: the update command, and the advisory that a run prints or attaches. The cache is
-- read by a parameter, and so is the comparison of the current version with a stable latest one.
pub mod Laws
use codex_unlock.Base.{
  String, Bool, true, false, not, ◌&&◌, ◌||◌, Option, none, some, ◌==◌, string_eq, option_eq,
  if◌then◌else◌, ◌≡◌, arith,
}
use codex_unlock.Util.{◌<>◌}
use codex_unlock.Policy.{truthy}
use codex_unlock.Update.{UpdateAutomationContext, update_automation_policy}

pub record UpdateCacheRecord : Type 0 where
  pub latest : String
  pub checked_at : String

-- `other` is one of "missing", "stale", "invalid" and "unavailable".
pub data UpdateCacheObservation : Type 0 where
  fresh : UpdateCacheRecord → UpdateCacheObservation
  other : String → UpdateCacheObservation

pub record ClientUpdate : Type 0 where
  pub current_version : String
  pub latest_version : String
  pub checked_at : String
  pub update_command : String

pub record PreparedUpdateAdvisory : Type 0 where
  pub client_update : Option ClientUpdate
  pub human_notice : Option String
  pub schedule_refresh : Bool

pub data UpdateInstallation : Type 0 where
  registry npx source : UpdateInstallation

-- `npx_path` is the match of the path of the command with an npx directory.
pub record UpdateGuidanceContext : Type 0 where
  pub npm_command : Option String
  pub npm_lifecycle_event : Option String
  pub npx_path : Bool
  pub source_checkout : Bool

pub update_installation : UpdateGuidanceContext → UpdateInstallation
update_installation c =
    if c.source_checkout
    then source
    else if c.npm_command == some "exec" || c.npm_lifecycle_event == some "npx" || c.npx_path
    then npx
    else registry

command_for : UpdateInstallation → String
command_for source = "git -C <source-checkout> pull --ff-only && npm --prefix <source-checkout> ci"
command_for npx = "npx --yes codex-unlock@latest"
command_for registry = "npm install --global codex-unlock@latest"

pub update_command : UpdateGuidanceContext → String
unfolding command_for
update_command c = command_for (update_installation c)

-- What the run can find: the user, the error of the cache's boundary, the cache, and whether the
-- current version is a stable one that is older than another.
pub record UpdateSources : Type 0 where
  pub has_user : Bool
  pub boundary_error : Option String
  pub cache : UpdateCacheObservation
  pub current_version : String
  pub is_older_than : String → Bool

abbrev pub boundary : Bool → UpdateSources → Option String
boundary read s =
    if read
    then (if s.has_user then s.boundary_error else some "current_user_is_unavailable")
    else none

abbrev pub observed_cache : Bool → Option String → UpdateSources → UpdateCacheObservation
observed_cache read error s =
    if not read
    then other "cache_read_suppressed"
    else (if truthy error then other "boundary" else s.cache)

abbrev pub newer : UpdateCacheObservation → UpdateSources → String → Option ClientUpdate
newer (other reason) s command = none
newer (fresh r) s command =
    if s.is_older_than r.latest
    then some (record {
      current_version = s.current_version;
      latest_version = r.latest;
      checked_at = r.checked_at;
      update_command = command;
    })
    else none

abbrev pub notice : Option ClientUpdate → Option String
notice none = none
notice (some u) = some (
    "Update available: " <> u.current_version <> " → " <> u.latest_version <> ". Run: "
    <> u.update_command)

abbrev pub is_fresh : UpdateCacheObservation → Bool
is_fresh (fresh r) = true
is_fresh (other reason) = false

abbrev pub is_none {ℓ} : {A : Type ℓ} → Option A → Bool
is_none none = true
is_none (some a) = false

pub prepare_update_advisory :
    UpdateAutomationContext → UpdateGuidanceContext → UpdateSources → PreparedUpdateAdvisory
prepare_update_advisory c guidance s =
    let policy = update_automation_policy c in
    let error = boundary policy.read_cache s in
    let observation = observed_cache policy.read_cache error s in
    let update = newer observation s (update_command guidance) in
    if policy.disabled
    then (record { client_update = none; human_notice = none; schedule_refresh = false })
    else (record {
      client_update = if policy.attach_json then update else none;
      human_notice = if policy.show_human_notice then notice update else none;
      schedule_refresh = policy.schedule_refresh && is_none error && not (is_fresh observation);
    })
