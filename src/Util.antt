-- ===== src/Util.antt =====
-- src/util.ts: results of diagnostic commands, error text, file snapshots and small list helpers.
-- `runCommand`, the handlers of a child process, is in Util/Command.
pub mod Snapshots
pub mod PublicSnapshot
pub mod Lists
pub mod Command
use codex_unlock.Base.{ℕ, String, Option, none, some, ◌==◌, string_eq, if◌then◌else◌}
use Prim.Native.String

-- Concatenation of texts.
infixr 66 ◌<>◌
abbrev pub ◌<>◌ : String → String → String
a <> b = String.◌++◌ a b

pub data FailureKind : Type 0 where
  spawn_error timeout stdout_limit stderr_limit : FailureKind

abbrev pub kind_text : FailureKind → String
kind_text spawn_error = "spawn_error"
kind_text timeout = "timeout"
kind_text stdout_limit = "stdout_limit"
kind_text stderr_limit = "stderr_limit"

pub record CommandFailure : Type 0 where
  pub kind : FailureKind
  pub message : String

-- A thrown value. `code` is "" where the source finds it undefined; `own` marks an instance of the
-- module's own error class (CoordinationError), and `syntax` a SyntaxError.
pub data ErrorClass : Type 0 where
  plain own syntax : ErrorClass

pub record Error : Type 0 where
  pub code : String
  pub message : String
  pub class : ErrorClass

pub record CommandResult : Type 0 where
  pub status : Option ℕ
  pub stdout : String
  pub stderr : String
  pub error : Option Error
  pub failure : Option CommandFailure

unfoldable pub error_text : Error → String
error_text e = if e.code == "" then e.message else e.code <> ": " <> e.message

unfoldable pub command_failure_text : CommandResult → Option String
command_failure_text r = elim r.failure [
  | some f ↦ some (kind_text f.kind <> ": " <> f.message)
  | none ↦ elim r.error [ some e ↦ some (error_text e) | none ↦ none ]
]
