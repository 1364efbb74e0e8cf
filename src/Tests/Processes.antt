-- ===== src/Tests/Processes.antt =====
-- What is observed of processes and files, and the assembled unlock, on the small platform.
use codex_unlock.Base.{
  ℕ, ◌≡◌, refl, ap, String, true, false, some, none, Option, [], ◌∷◌, ◌++◌, List, string_eq, ◌↔◌,
  take, drop,
}
use codex_unlock.Util.{CommandResult}
use codex_unlock.Util.Command.{
  Child, CommandEvent, stdout_data, child_closed, timeout_fired, force_kill_fired,
  default_command_limits, run_command, deliver, started, handle, captured,
}
use codex_unlock.Util.Command.Settled.{IsEscalated, run_command-IsEscalated}
use codex_unlock.Util.Command.Output.{run_command-Reports}
use codex_unlock.Util.Command.Output
use codex_unlock.Io.{regular, Log, ok, M, pure}
use codex_unlock.Io.Calm.{Outcome}
use codex_unlock.Process.Lsof.{parse_lsof_processes}
use codex_unlock.Process.Lsof.Laws.{IsAscending, parse_lsof_processes-IsAscending}
use codex_unlock.Process.Family.{Row, descendants_in, family_in}
use codex_unlock.Process.Family.Descendants.{IsExact, descendants_in-IsExact}
use codex_unlock.Process.Family.Ancestors.{IsLine, family_in-IsLine}
use codex_unlock.Process.LockFiles.{lock_files_opened_by_process}
use codex_unlock.Process.LockFiles.Laws.{IsComplete, lock_files_opened_by_process-IsComplete}
use codex_unlock.Process.Inspect.{KernelFiles, inspect_process}
use codex_unlock.Process.Inspect.Laws.{inspect_process-Complete}
use codex_unlock.Text.{
  trim, has_space, has_word, has_option, before_equals, after_equals, trim_start, trim_end,
}
use codex_unlock.Process.Arguments.{
  present, reconcile_arguments, classify_codex_mode, codex_arguments, read_arguments, read_value,
  read_token, read_first, read_option, read_operand, take_value, is_service,
  flattened_shared_service,
}
use codex_unlock.Process.Arguments.Laws.{IsVerified, reconcile_arguments-IsVerified}
use codex_unlock.Process.Observation.{Texts}
use codex_unlock.Transcript.LastLine.{read_last_non_empty_line}
use codex_unlock.Transcript.LastLine.Laws.{IsSteady, FindsLast, read_last_non_empty_line-FindsLast}
use codex_unlock.Unlock.Leased.{Accounts, Aborts}
use codex_unlock.Unlock.Program.{Surroundings}
use codex_unlock.Unlock.Program
use codex_unlock.Unlock.Program.Laws.{unlock-Accounts}
use codex_unlock.Tests.World.{world, options_1}

abbrev child_1 : Child
child_1 = record {
  has_pid = true;
  has_pipes = true;
  isolated_process_group = true;
  group_signalled = λ n. true;
}

abbrev decode_1 : List ℕ → String
decode_1 bytes = "text"

abbrev show_1 : ℕ → String
show_1 n = "0"

abbrev events_1 : List CommandEvent
events_1 = stdout_data (104 ∷ 105 ∷ []) ∷ []

run_command-IsEscalated_example :
    IsEscalated
      (run_command decode_1 show_1 child_1 default_command_limits
        (timeout_fired ∷ force_kill_fired ∷ [])).sent
    × ((r : CommandResult)
        → (run_command decode_1 show_1 child_1 default_command_limits
            (timeout_fired ∷ force_kill_fired ∷ [])).result
          ≡ some r
        → (run_command decode_1 show_1 child_1 default_command_limits
            ((timeout_fired ∷ force_kill_fired ∷ []) ++ events_1)).result
          ≡ some r)
run_command-IsEscalated_example =
    run_command-IsEscalated decode_1 show_1 child_1 default_command_limits
      (timeout_fired ∷ force_kill_fired ∷ []) events_1

unsettled_1 : (run_command decode_1 show_1 child_1 default_command_limits events_1).result ≡ none
unfolding run_command deliver started handle captured
unsettled_1 = refl

run_command-Reports_example :
    (r : CommandResult) × ((run_command decode_1 show_1 child_1 default_command_limits
        (events_1 ++ child_closed (some 0) ∷ timeout_fired ∷ [])).result
      ≡ some r)
    × Output.Reports decode_1 show_1 child_1 default_command_limits events_1 (some 0) r
run_command-Reports_example =
    run_command-Reports decode_1 show_1 child_1 default_command_limits events_1 (timeout_fired ∷ [])
      (some 0) refl unsettled_1

parse_lsof_processes-IsAscending_example : IsAscending 0 (parse_lsof_processes "p42\ncodex\np7\n")
parse_lsof_processes-IsAscending_example = parse_lsof_processes-IsAscending "p42\ncodex\np7\n"

-- 2 is below 1, and 3 and 4 are each other's parents.
abbrev rows_1 : List Row
rows_1 =
    record { pid = 2; parent = 1 }
    ∷ record { pid = 3; parent = 4 }
    ∷ record { pid = 4; parent = 3 }
    ∷ []

descendants_in-IsExact_example :
    (found : List ℕ) × (descendants_in rows_1 1 ≡ some found) × IsExact rows_1 1 found
descendants_in-IsExact_example = descendants_in-IsExact rows_1 1

family_in-IsLine_example :
    (family : List ℕ) × (family_in rows_1 3 ≡ some family) × IsLine rows_1 3 family
family_in-IsLine_example = family_in-IsLine rows_1 3

abbrev nothing_printed : CommandResult
nothing_printed = record { status = some 0; stdout = ""; stderr = ""; error = none; failure = none }

abbrev run_1 : List String → M CommandResult
run_1 args = pure nothing_printed

abbrev status_1 : Option ℕ → String
status_1 status = "0"

lock_files_opened_by_process-IsComplete_example :
    Outcome
      (λ files t.
        files.error ≡ none
        → (r : CommandResult) × (u : Log) × (run_1
              ("-a" ∷ "-p" ∷ world.show_number 42 ∷ "-F0fDin" ∷ [])
              []
            ≡ (ok r, u))
          × IsComplete world status_1 "/home/file" r files)
      (λ t. Unit {0})
      (lock_files_opened_by_process world status_1 run_1 42 "/home/file" [])
lock_files_opened_by_process-IsComplete_example =
    lock_files_opened_by_process-IsComplete world status_1 "/home/file" run_1 42 []

abbrev texts_2 : Texts
texts_2 = record { is_date = λ text. true; show_status = status_1 }

abbrev kernel_1 : KernelFiles
kernel_1 = record {
  is_linux = true;
  read_link = λ s path. ok "/home";
  read_text = λ s path. ok "codex";
}

inspect_process-Complete_example :
    Outcome
      (λ i t. (i.identity_complete ≡ true) ↔ (i.errors ≡ []))
      (λ t. Unit {0})
      (inspect_process world
        (λ text. text)
        texts_2
        kernel_1
        run_1
        run_1
        (record { pid = 42; command = some "codex"; uid = none })
        [])
inspect_process-Complete_example =
    inspect_process-Complete world (λ text. text) texts_2 kernel_1 run_1 run_1
      (record { pid = 42; command = some "codex"; uid = none }) []

abbrev argv_1 : List String
argv_1 = "codex" ∷ "--model" ∷ "o3" ∷ []

reconciled_1 :
    reconcile_arguments
      (λ path. path)
      (λ text. text)
      (some "codex --model o3")
      (some (present argv_1))
    ≡ record { arguments = some "codex --model o3"; is_shared_service = false; error = none }
unfolding reconcile_arguments classify_codex_mode codex_arguments read_arguments read_value
    read_token read_first read_option read_operand take_value is_service flattened_shared_service
    trim has_space has_word has_option before_equals after_equals trim_start trim_end
reconciled_1 = refl

reconcile_arguments-IsVerified_example :
    IsVerified (λ path. path) (λ text. text) "codex --model o3" argv_1
reconcile_arguments-IsVerified_example =
    reconcile_arguments-IsVerified (λ path. path) (λ text. text) "codex --model o3" argv_1
      (λ h. cc (h, reconciled_1)) (ap (λ e. e.is_shared_service) reconciled_1)

abbrev content_1 : List ℕ
content_1 = 123 ∷ 125 ∷ 10 ∷ 123 ∷ 49 ∷ 125 ∷ 10 ∷ []

abbrev read_1 : ℕ → ℕ → M (List ℕ)
read_1 position count = pure (take count (drop position content_1))

steady_1 : IsSteady content_1 read_1
steady_1 = record { exact = λ position count s. (s, refl) }

read_last_non_empty_line-FindsLast_example :
    FindsLast content_1 read_1 steady_1 (read_last_non_empty_line read_1 7 [])
read_last_non_empty_line-FindsLast_example =
    read_last_non_empty_line-FindsLast content_1 read_1 steady_1 []

abbrev around_1 : Surroundings
around_1 = record {
  access = λ s path. ok tt;
  texts = texts_2;
  lower = λ text. text;
  kernel = kernel_1;
  directories = record {
    open_directory = λ s path. ok tt;
    entries = λ s path. ok (record { name = "rollout-t.jsonl"; kind = regular } ∷ []);
    depth = 8;
  };
  reading = record {
    read_chunk = λ s fd position count. ok (take count (drop position content_1));
    parse = λ line. ok (record {
      record_type = some "event_msg";
      event_type = some "task_complete";
      timestamp = none;
      ordinal = none;
    });
  };
  self = 99;
}

unlock-Accounts_example :
    Outcome
      (λ r t. Accounts [] r t)
      (λ t. Aborts [] t)
      (Program.unlock world around_1 "t" options_1 [])
unlock-Accounts_example = unlock-Accounts world around_1 "t" options_1 []
