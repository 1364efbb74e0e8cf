-- ===== src/Process/Exit.antt =====
-- `originalProcessExited` of src/process.ts.
use codex_unlock.Base.{
  String, Bool, true, not, ◌||◌, Option, none, some, ◌==◌, string_eq, option_eq,
}
use codex_unlock.Types.{Presence, ProcessStartObservation}

unfoldable pub exited_by : Presence → Option String → ProcessStartObservation → Option Bool
exited_by Presence.unknown start o = none
exited_by Presence.absent start o = some true
exited_by Presence.present start o = some (not (o.start_time == start) || o.zombie)

-- Whether the process that started at `start` is gone: null where the observation failed.
unfoldable pub original_process_exited : Option String → ProcessStartObservation → Option Bool
unfolding exited_by
original_process_exited start o = exited_by o.status start o
