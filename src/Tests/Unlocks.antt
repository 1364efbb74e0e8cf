-- ===== src/Tests/Unlocks.antt =====
-- An unlock on the small platform, in which the owner is signalled and goes away.
use codex_unlock.Base.{◌≡◌, true, []}
use codex_unlock.Types.{unlocked}
use codex_unlock.Io.Calm.{Outcome, Returned}
use codex_unlock.Unlock.{unlock_inspected_thread, unlock_thread}
use codex_unlock.Unlock.Laws.{Licensed, unlock_inspected_thread-Licensed}
use codex_unlock.Unlock.Leased.{Accounts, Aborts, unlock_thread-Accounts}
use codex_unlock.Unlock.Revalidate.{revalidate}
use codex_unlock.Unlock.Revalidate.Justified.{Justified, revalidate-Justified}
use codex_unlock.Unlock.Signal.{terminate_revalidated_owner}
use codex_unlock.Unlock.Signal.Verified.{Unlocked, terminate_revalidated_owner-Unlocked}
use codex_unlock.Unlock.Signal.Quiet.{Reports}
use codex_unlock.Unlock.Signal.Reports.{terminate_revalidated_owner-Reports}
use codex_unlock.Tests.World.{
  world, services_1, services_1-AreCalm, inspection_1, options_1, owner_1, revalidated_1,
}

unlock_inspected_thread-Licensed_example :
    Outcome
      (λ r t. r.signal_sent ≡ true → Licensed world services_1 inspection_1 r)
      (λ t. Unit {0})
      (unlock_inspected_thread world services_1 inspection_1 options_1 [])
unlock_inspected_thread-Licensed_example =
    unlock_inspected_thread-Licensed world services_1 inspection_1 options_1 []

unlock_thread-Accounts_example :
    Outcome
      (λ r t. Accounts [] r t)
      (λ t. Aborts [] t)
      (unlock_thread world services_1 "t" options_1 [])
unlock_thread-Accounts_example =
    unlock_thread-Accounts world services_1 services_1-AreCalm "t" options_1 []

revalidate-Justified_example :
    Outcome
      (λ r t. r.reasons ≡ [] → Justified world services_1 inspection_1 owner_1 "/home/rollout" t)
      (λ t. Unit {0})
      (revalidate world services_1 inspection_1 owner_1 "/home/rollout" [])
revalidate-Justified_example =
    revalidate-Justified world services_1 inspection_1 owner_1 "/home/rollout" []

terminate_revalidated_owner-Unlocked_example :
    Outcome
      (λ r t. r.outcome ≡ unlocked → Unlocked world services_1 revalidated_1 r)
      (λ t. Unit {0})
      (terminate_revalidated_owner world services_1 revalidated_1 options_1 [])
terminate_revalidated_owner-Unlocked_example =
    terminate_revalidated_owner-Unlocked world services_1 revalidated_1 options_1 []

terminate_revalidated_owner-Reports_example :
    Returned
      (λ r t. Reports [] r t)
      (terminate_revalidated_owner world services_1 revalidated_1 options_1 [])
terminate_revalidated_owner-Reports_example =
    terminate_revalidated_owner-Reports world services_1 services_1-AreCalm revalidated_1 options_1
      []
