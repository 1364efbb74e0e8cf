-- ===== src/Util/Command.antt =====
-- `runCommand` of src/util.ts: the events of a child process, what they collect, and the one
-- result that settles its promise. A child, its signals and its timers are the platform's: an
-- event is handed to `handle` in the order in which the platform delivers it.
pub mod Output
pub mod Settled
use codex_unlock.Base.{
  ℕ, ◌+◌, ◌-◌, min, String, Bool, true, false, not, ◌&&◌, ◌||◌, Option, none, some, List, [], ◌∷◌,
  ◌++◌, take, concat, length, ltb, if◌then◌else◌,
}
use codex_unlock.Util.{
  Error, CommandFailure, FailureKind, CommandResult, error_text, spawn_error, timeout, stdout_limit,
  stderr_limit, ◌<>◌,
}

pub record CommandLimits : Type 0 where
  pub timeout_ms : ℕ
  pub max_stdout_bytes : ℕ
  pub max_stderr_bytes : ℕ
  pub kill_grace_ms : ℕ

abbrev pub default_command_limits : CommandLimits
default_command_limits = record {
  timeout_ms = 5_000;
  max_stdout_bytes = 1_048_576;
  max_stderr_bytes = 262_144;
  kill_grace_ms = 250;
}

-- What the spawn returned. `group_signalled` is whether a signal to the process group arrives, by how
-- many signals were sent before it.
pub record Child : Type 0 where
  pub has_pid : Bool
  pub has_pipes : Bool
  pub isolated_process_group : Bool
  pub group_signalled : ℕ → Bool

pub data Signal : Type 0 where
  group_term group_kill child_term child_kill : Signal

pub record Capture : Type 0 where
  pub chunks : List (List ℕ)
  pub bytes : ℕ

pub record CommandState : Type 0 where
  pub stdout : Capture
  pub stderr : Capture
  pub failure : Option CommandFailure
  pub spawn_failure : Option Error
  pub result : Option CommandResult
  pub force_kill_timer : Bool
  pub sent : List Signal

pub data CommandEvent : Type 0 where
  stdout_data stderr_data : List ℕ → CommandEvent
  child_error : Error → CommandEvent
  timeout_fired force_kill_fired without_pipes : CommandEvent
  child_closed : Option ℕ → CommandEvent

abbrev pub is_some {ℓ} : {A : Type ℓ} → Option A → Bool
is_some none = false
is_some (some a) = true

-- `left ?? right`
abbrev pub or_else {ℓ} : {A : Type ℓ} → Option A → A → Option A
or_else (some a) b = some a
or_else none b = some b

abbrev pub empty : Capture
empty = record { chunks = []; bytes = 0 }

abbrev pub initial : CommandState
initial = record {
  stdout = empty;
  stderr = empty;
  failure = none;
  spawn_failure = none;
  result = none;
  force_kill_timer = false;
  sent = [];
}

-- A thrown value of the spawn itself.
abbrev pub spawn_failed : Error → CommandResult
spawn_failed e = record {
  status = none;
  stdout = "";
  stderr = "";
  error = some e;
  failure = some (record { kind = spawn_error; message = error_text e });
}

-- `value.subarray(0, remaining)` is pushed where something remains.
unfoldable pub captured : Capture → List ℕ → ℕ → Capture
captured c value maximum =
    let remaining = maximum - c.bytes in
    record {
      chunks = if ltb 0 remaining then c.chunks ++ take remaining value ∷ [] else c.chunks;
      bytes = min (c.bytes + length value) maximum;
    }

abbrev pub exceeds : Capture → List ℕ → ℕ → Bool
exceeds c value maximum = ltb maximum (c.bytes + length value)

-- `decode` is Buffer.toString("utf8") and `show_number` a number's text.
module _ (decode : List ℕ → String) (show_number : ℕ → String) (child : Child)
    (limits : CommandLimits) where
  pub settle : Option ℕ → CommandState → CommandState
  settle status s = if is_some s.result then s else record s {
    result = some (record {
      status = status;
      stdout = decode (concat s.stdout.chunks);
      stderr = decode (concat s.stderr.chunks);
      error = s.spawn_failure;
      failure = s.failure;
    });
  }

  abbrev through_group : CommandState → Bool
  through_group s =
      child.isolated_process_group && child.has_pid && child.group_signalled (length s.sent)

  pub signal_term : CommandState → CommandState
  signal_term s = record s { sent = (if through_group s then group_term else child_term) ∷ s.sent }

  pub signal_kill : CommandState → CommandState
  signal_kill s = record s { sent = (if through_group s then group_kill else child_kill) ∷ s.sent }

  -- SIGTERM now, and the timer of SIGKILL.
  pub terminate : CommandState → CommandState
  unfolding signal_term
  terminate s = record (signal_term s) { force_kill_timer = true }

  pub fail : CommandFailure → CommandState → CommandState
  fail next s = if is_some s.failure then s else terminate (record s { failure = some next })

  abbrev limit_failure : FailureKind → String → ℕ → CommandFailure
  limit_failure kind name maximum = record {
    kind = kind;
    message = name <> " exceeded " <> show_number maximum <> " bytes";
  }

  abbrev on_stdout : List ℕ → CommandState → CommandState
  on_stdout chunk s =
      let t = record s { stdout = captured s.stdout chunk limits.max_stdout_bytes } in
      if exceeds s.stdout chunk limits.max_stdout_bytes
      then fail (limit_failure stdout_limit "stdout" limits.max_stdout_bytes) t
      else t

  abbrev on_stderr : List ℕ → CommandState → CommandState
  on_stderr chunk s =
      let t = record s { stderr = captured s.stderr chunk limits.max_stderr_bytes } in
      if exceeds s.stderr chunk limits.max_stderr_bytes
      then fail (limit_failure stderr_limit "stderr" limits.max_stderr_bytes) t
      else t

  -- Without pipes the handlers of data and of "close" are never attached.
  unfoldable pub handle : CommandEvent → CommandState → CommandState
  handle (stdout_data chunk) s = if child.has_pipes then on_stdout chunk s else s
  handle (stderr_data chunk) s = if child.has_pipes then on_stderr chunk s else s
  handle (child_error e) s =
      let t = record s {
        spawn_failure = or_else s.spawn_failure e;
        failure = or_else s.failure (record { kind = spawn_error; message = error_text e });
      } in
      if child.has_pipes then t else settle none t
  handle timeout_fired s =
      if is_some s.result
      then s
      else fail
          (record {
            kind = timeout;
            message = "command exceeded " <> show_number limits.timeout_ms <> " ms";
          })
          s
  handle force_kill_fired s =
      if s.force_kill_timer && not (is_some s.result) then signal_kill s else s
  handle without_pipes s =
      if child.has_pipes
      then s
      else settle none (record s {
        failure = or_else s.failure (record {
          kind = spawn_error;
          message = "diagnostic command has no stdout/stderr pipes";
        });
      })
  handle (child_closed status) s = if child.has_pipes then settle status s else s

  -- A child without pipes is terminated at once, where it has a pid.
  unfoldable pub started : CommandState
  started = if not child.has_pipes && child.has_pid then terminate initial else initial

  unfoldable pub deliver : List CommandEvent → CommandState → CommandState
  deliver [] s = s
  deliver (e ∷ es) s = deliver es (handle e s)

  unfoldable pub run_command : List CommandEvent → CommandState
  run_command events = deliver events started
