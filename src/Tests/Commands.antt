-- ===== src/Tests/Commands.antt =====
-- Command lines, and runs of the command on the small platform.
use codex_unlock.Base.{◌≡◌, refl, String, true, false, some, none, [], ◌∷◌, List, string_eq}
use codex_unlock.Types.{unlock}
use codex_unlock.Io.{ok, pure}
use codex_unlock.Io.Answers.{Answers}
use codex_unlock.Text.{points}
use codex_unlock.Text.Numbers.{parse_digits, digits_after}
use codex_unlock.Options.{is_thread_id, default_options, IsPlainName, is_thread_id-IsPlainName}
use codex_unlock.Update.Advisory.{PreparedUpdateAdvisory}
use codex_unlock.Cli.Arguments.{
  ParsedArguments, command, requested_command, require, integer_option, in_range, read_all,
  with_thread, with_command, parsed_arguments, parse_arguments,
}
use codex_unlock.Cli.Arguments.Laws.{IsUsable, parse_arguments-IsUsable}
use codex_unlock.Cli.Arguments.Requested.{requested_command-parse_arguments}
use codex_unlock.Cli.Run.{Program, checked, main}
use codex_unlock.Cli.Run.Exit.{Exits, main-Exits}
use codex_unlock.Update.Versions.{compare_stable_versions}
use codex_unlock.Update.Versions.Laws.{AreOrdered, compare_stable_versions-AreOrdered}
use codex_unlock.Tests.World.{world, services_1}

abbrev id_1 : String
id_1 = "01234567-89ab-cdef-0123-456789ABCDEF"

is_id_1 : is_thread_id id_1 ≡ true
unfolding is_thread_id
is_id_1 = refl

is_thread_id-IsPlainName_example : IsPlainName (points id_1)
is_thread_id-IsPlainName_example = is_thread_id-IsPlainName id_1 is_id_1

abbrev line_1 : List String
line_1 = "--stability-ms" ∷ "500" ∷ "unlock" ∷ id_1 ∷ "--json" ∷ []

abbrev parsed_1 : ParsedArguments
parsed_1 = record {
  command = unlock;
  thread_id = some id_1;
  json = true;
  no_update_notice = false;
  options = record {
    codex_home = "/home/.codex";
    stability_ms = 500;
    termination_timeout_ms = 5000;
  };
}

parsed_line_1 :
    parse_arguments
      (λ n. "0")
      (λ path. path)
      (default_options (λ path. path) (some "") "/home/.codex")
      line_1
    ≡ ok (command parsed_1)
unfolding parse_arguments default_options read_all integer_option in_range parse_digits digits_after
    parsed_arguments with_command with_thread require is_thread_id
parsed_line_1 = refl

parse_arguments-IsUsable_example : IsUsable parsed_1
parse_arguments-IsUsable_example =
    parse_arguments-IsUsable (λ n. "0") (λ path. path) (some "") "/home/.codex" line_1 parsed_1
      parsed_line_1

requested_command-parse_arguments_example : requested_command line_1 ≡ some unlock
requested_command-parse_arguments_example =
    requested_command-parse_arguments (λ n. "0") (λ path. path)
      (default_options (λ path. path) (some "") "/home/.codex") line_1 parsed_1 parsed_line_1

abbrev no_advisory : PreparedUpdateAdvisory
no_advisory = record { client_update = none; human_notice = none; schedule_refresh = false }

abbrev program_1 : Program
program_1 = record {
  print = λ o. pure tt;
  package_version = pure "1.0.0";
  prepare_automatic_advisory = λ j n. pure no_advisory;
  finish_automatic_advisory = λ a. pure tt;
  check_for_update =
      pure
        (checked (record { latest = "1.0.0"; checked_at = "2026-01-01T00:00:00.000Z" }) true none);
  is_older = λ current latest. false;
  update_command = pure "npm";
  list_threads = λ o. pure (record { codex_home = o.codex_home; sessions = [] });
  services = λ o. services_1;
  defaults = record { codex_home = "/home"; stability_ms = 1000; termination_timeout_ms = 5000 };
  resolve = λ path. path;
  lower = λ text. text;
}

main-Exits_example :
    Answers
      (Exits world program_1
        (parse_arguments world.show_number program_1.resolve program_1.defaults line_1))
      (main world program_1 line_1 [])
main-Exits_example = main-Exits world program_1 line_1 []

compare_stable_versions-AreOrdered_example :
    AreOrdered compare_stable_versions "1.2.3" "1.10.0" "2.0.0"
compare_stable_versions-AreOrdered_example =
    compare_stable_versions-AreOrdered "1.2.3" "1.10.0" "2.0.0"
