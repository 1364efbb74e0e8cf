-- ===== src/Process/Arguments/Grammar.antt =====
-- The words of the Codex command line that src/process.ts knows.
use codex_unlock.Base.{ℕ, String, List, [], ◌∷◌}
use codex_unlock.Text.{points}

-- "resume" and "fork" are kept apart as in the source; they have one grammar.
pub data Mode : Type 0 where
  interactive exec resume fork : Mode

abbrev pub root_value_options : List String
root_value_options =
    "--config" ∷ "-c" ∷ "--enable" ∷ "--disable" ∷ "--model" ∷ "-m" ∷ "--profile" ∷ "-p"
    ∷ "--sandbox" ∷ "-s" ∷ "--ask-for-approval" ∷ "-a" ∷ "--cd" ∷ "-C" ∷ "--add-dir"
    ∷ "--local-provider" ∷ []

abbrev pub root_flags : List String
root_flags =
    "--strict-config" ∷ "--oss" ∷ "--approve-for-me" ∷ "--not-so-yolo"
    ∷ "--dangerously-bypass-approvals-and-sandbox" ∷ "--yolo" ∷ "--dangerously-bypass-hook-trust"
    ∷ "--worktree" ∷ "--search" ∷ "--no-alt-screen" ∷ "--no-daemon" ∷ []

abbrev pub shared_modes : List String
shared_modes = "app-server" ∷ "remote-control" ∷ "daemon" ∷ "exec-server" ∷ []

abbrev pub other_modes : List String
other_modes =
    "agents" ∷ "review" ∷ "login" ∷ "logout" ∷ "mcp" ∷ "plugin" ∷ "app" ∷ "completion" ∷ "update"
    ∷ "doctor" ∷ "sandbox" ∷ "debug" ∷ "apply" ∷ "a" ∷ "queue" ∷ "archive" ∷ "delete"
    ∷ "migrate-rollouts" ∷ "unarchive" ∷ "cloud" ∷ "features" ∷ "help" ∷ []

abbrev pub cyber_option : String
cyber_option = "--cyber-access-program"

abbrev pub cyber_values : List String
cyber_values = "standard" ∷ "daybreak_blue" ∷ "daybreak_red" ∷ []

abbrev pub exec_value_options : List String
exec_value_options =
    "--thread-source" ∷ "--output-schema" ∷ "--color" ∷ "--output-last-message" ∷ "-o"
    ∷ cyber_option ∷ []

abbrev pub exec_flags : List String
exec_flags =
    "--skip-git-repo-check" ∷ "--ephemeral" ∷ "--ignore-user-config" ∷ "--ignore-rules" ∷ "--json"
    ∷ "--experimental-json" ∷ []

abbrev pub resume_flags : List String
resume_flags = "--last" ∷ "--all" ∷ "--include-non-interactive" ∷ []

abbrev pub service_words : List (List ℕ)
service_words =
    points "app-server" ∷ points "remote-control" ∷ points "daemon" ∷ points "exec-server" ∷ []

abbrev pub remote_options : List (List ℕ)
remote_options = points "--remote" ∷ points "--remote-auth-token-env" ∷ []
