-- ===== src/Process/Inspect.antt =====
-- src/process.ts: what is observed of one process. The observations that the source awaits together
-- are made in its order. The files under /proc are read by parameters.
pub mod Laws
use Prim.Native.Char.{code}
use Prim.Native.String
use codex_unlock.Base.{
  ℕ, ℤ, String, Bool, true, false, not, ◌&&◌, ◌||◌, Option, none, some, List, [], ◌∷◌, ◌++◌, ◌==◌,
  nat_eq, string_eq, option_eq, if◌then◌else◌,
}
use codex_unlock.Types.{Presence, ProcessInfo, ProcessStartObservation, is_present}
use codex_unlock.Util.{CommandResult, command_failure_text, error_text, ◌<>◌}
use codex_unlock.Policy.{truthy}
use codex_unlock.Io.{Env, Log, Res, M, ◌>>=◌, pure, attempt, observe}
use codex_unlock.Text.{trim, points, begins, after, is_space, starts_with}
use codex_unlock.Text.Numbers.{safe_integer}
use codex_unlock.Text.Lines.{split_fields, split_at}
use codex_unlock.Unlock.Observers.{Openers}
use codex_unlock.Process.Observation.{Texts, process_start_time}
use codex_unlock.Process.Lsof.{LsofProcess}
use codex_unlock.Process.LockFiles.{LockOpeners, find_lock_openers}
use codex_unlock.Process.Arguments.{
  CommandLineObservation, present, unknown, ArgumentEvidence, reconcile_arguments,
}

pub record ProcessFieldObservation : Type 0 where
  pub status : Presence
  pub value : Option String
  pub error : Option String

-- The files of the kernel: whether this is Linux, `readlink`, and a file read as UTF-8.
pub record KernelFiles : Type 0 where
  pub is_linux : Bool
  pub read_link : Log → String → Res String
  pub read_text : Log → String → Res String

abbrev field_unknown : String → ProcessFieldObservation
field_unknown error = record { status = Presence.unknown; value = none; error = some error }

abbrev pub status_error : (Option ℕ → String) → CommandResult → String → String
status_error show_status r command =
    if truthy (command_failure_text r)
    then failure_of (command_failure_text r)
    else (if trim r.stderr == ""
        then command <> " exited with status " <> show_status r.status
        else trim r.stderr)
  where
    failure_of : Option String → String
    failure_of none = ""
    failure_of (some failure) = failure

pub field_of : (Option ℕ → String) → String → CommandResult → ProcessFieldObservation
field_of show_status field r =
    let value = trim r.stdout in
    if truthy (command_failure_text r)
    then field_unknown (status_error show_status r "ps")
    else if r.status == some 0
    then if value == ""
      then field_unknown ("ps returned empty " <> field <> " output")
      else (record { status = Presence.present; value = some value; error = none })
    else (if r.status == some 1 && value == ""
        then (record { status = Presence.absent; value = none; error = none })
        else field_unknown (status_error show_status r "ps"))

pub parse_integer : Option String → Option ℤ
parse_integer none = none
parse_integer (some value) = safe_integer value

-- `while (argv.at(-1) === "") argv.pop()`
drop_empty_last : List String → List String
drop_empty_last [] = []
drop_empty_last (s ∷ rest) = kept s (drop_empty_last rest)
  where
    kept : String → List String → List String
    kept s [] = if s == "" then [] else s ∷ []
    kept s (t ∷ ts) = s ∷ t ∷ ts

pub parse_proc_command_line : String → List String
unfolding drop_empty_last
parse_proc_command_line text = drop_empty_last (split_at (λ c. c == 0) text)

-- The first name that `lsof -Fn` prints.
pub first_name : List String → Option String
first_name [] = none
first_name (String.[] ∷ tokens) = first_name tokens
first_name (String.◌∷◌ c s ∷ tokens) = if code c == 110 then some s else first_name tokens

abbrev cwd_of : CommandResult → Option String
cwd_of r =
    if truthy (command_failure_text r) || not (r.status == some 0)
    then none
    else first_name (split_fields r.stdout)

-- `/(^|\/)codex(?:\s|$)/i`: the first argument says whether the text begins here or "/" comes before.
pub names_codex : Bool → List ℕ → Bool
names_codex free [] = false
names_codex free (c ∷ cs) =
    (free && begins codex (c ∷ cs) && ends_word (after codex (c ∷ cs))) || names_codex (c == 47) cs
  where
    codex : List ℕ
    codex = 99 ∷ 111 ∷ 100 ∷ 101 ∷ 120 ∷ []

    ends_word : List ℕ → Bool
    ends_word [] = true
    ends_word (d ∷ ds) = is_space d

abbrev text_of : Option String → String
text_of none = ""
text_of (some s) = s

abbrev has_value {ℓ} : {A : Type ℓ} → Option A → Bool
has_value none = false
has_value (some a) = true

abbrev presence_text : Presence → String
presence_text Presence.present = "present"
presence_text Presence.absent = "absent"
presence_text Presence.unknown = "unknown"

abbrev with_error : Option String → String
with_error none = ""
with_error (some error) = if error == "" then "" else ":" <> error

-- `if (test) errors.push(text)`
abbrev pub push_if : Bool → String → List String
push_if true text = text ∷ []
push_if false text = []

abbrev named_tty : Option String → Option String
named_tty none = none
named_tty (some tty) = if tty == "?" || tty == "??" || tty == "-" then none else some tty

-- What was observed of a process.
pub record ProcessEvidence : Type 0 where
  pub ppid : ProcessFieldObservation
  pub uid : ProcessFieldObservation
  pub start : ProcessStartObservation
  pub tty : ProcessFieldObservation
  pub comm : ProcessFieldObservation
  pub args : ProcessFieldObservation
  pub cwd : Option String
  pub line : Option CommandLineObservation

abbrev problem : String → ProcessFieldObservation → String
problem name f = name <> "_" <> presence_text f.status <> with_error f.error

abbrev pub argument_errors : ArgumentEvidence → ProcessFieldObservation → List String
argument_errors e args =
    if truthy e.error
    then text_of e.error ∷ []
    else push_if (not (has_value e.arguments)) (problem "arguments" args)

module _ (env : Env) (lower : String → String) where
  abbrev base_of : Option String → String
  base_of none = ""
  base_of (some path) = if path == "" then "" else lower (env.basename path)

  abbrev is_codex_process : LsofProcess → Option String → Option String → Bool
  is_codex_process candidate comm args =
      lower (text_of candidate.command) == "codex"
      || base_of comm == "codex"
      || starts_with "codex-" (base_of comm)
      || names_codex true (points (text_of args))

  abbrev evidence_errors : ProcessEvidence → ArgumentEvidence → List String
  evidence_errors o e =
      push_if (not (has_value (parse_integer o.ppid.value))) (problem "ppid" o.ppid)
      ++ push_if (not (has_value (parse_integer o.uid.value))) (problem "uid" o.uid)
      ++ push_if (not (is_present o.start.status))
          ("start_time_" <> presence_text o.start.status <> with_error o.start.error)
      ++ push_if (not (has_value o.comm.value)) (problem "command" o.comm)
      ++ argument_errors e o.args

  pub process_info : LsofProcess → ProcessEvidence → ArgumentEvidence → ProcessInfo
  process_info candidate o e = record {
    pid = candidate.pid;
    ppid = parse_integer o.ppid.value;
    uid = parse_integer o.uid.value;
    start_time = o.start.start_time;
    tty = named_tty o.tty.value;
    command = o.comm.value;
    arguments = e.arguments;
    cwd = o.cwd;
    lsof_command = candidate.command;
    identity_complete =
        has_value (parse_integer o.ppid.value)
        && has_value (parse_integer o.uid.value)
        && is_present o.start.status
        && has_value o.comm.value
        && has_value e.arguments;
    is_codex = is_codex_process candidate o.comm.value e.arguments;
    is_shared_service = e.is_shared_service;
    errors = evidence_errors o e;
  }

  module _ (texts : Texts) (files : KernelFiles)
      (run_ps run_lsof : List String → M CommandResult) where
    ps_field : ℕ → String → M ProcessFieldObservation
    ps_field pid field = do
      r ← run_ps ("-ww" ∷ "-p" ∷ env.show_number pid ∷ "-o" ∷ (field <> "=") ∷ [])
      pure (field_of texts.show_status field r)

    abbrev proc_path : ℕ → String → String
    proc_path pid name = "/proc/" <> env.show_number pid <> "/" <> name

    lsof_cwd : ℕ → M (Option String)
    lsof_cwd pid = do
      r ← run_lsof ("-a" ∷ "-p" ∷ env.show_number pid ∷ "-d" ∷ "cwd" ∷ "-Fn" ∷ [])
      pure (cwd_of r)

    process_cwd : ℕ → M (Option String)
    process_cwd pid =
        if files.is_linux
        then attempt (observe (λ s. files.read_link s (proc_path pid "cwd")))
            (λ path. pure (some path)) (λ e. lsof_cwd pid)
        else lsof_cwd pid

    linux_command_line : ℕ → M (Option CommandLineObservation)
    linux_command_line pid =
        if files.is_linux
        then attempt (observe (λ s. files.read_text s (proc_path pid "cmdline")))
            (λ text. pure (some (present (parse_proc_command_line text))))
            (λ e. pure (some (unknown (error_text e))))
        else pure none

    process_evidence : ℕ → M ProcessEvidence
    process_evidence pid = do
      ppid ← ps_field pid "ppid"
      uid ← ps_field pid "uid"
      start ← process_start_time texts env run_ps pid
      tty ← ps_field pid "tty"
      comm ← ps_field pid "comm"
      args ← ps_field pid "args"
      cwd ← process_cwd pid
      line ← linux_command_line pid
      pure (record {
        ppid = ppid;
        uid = uid;
        start = start;
        tty = tty;
        comm = comm;
        args = args;
        cwd = cwd;
        line = line;
      })

    pub inspect_process : LsofProcess → M ProcessInfo
    inspect_process candidate = do
      o ← process_evidence candidate.pid
      pure (process_info candidate o (reconcile_arguments env.basename lower o.args.value o.line))

    inspect_processes : List LsofProcess → M (List ProcessInfo)
    inspect_processes [] = pure []
    inspect_processes (p ∷ processes) = do
      info ← inspect_process p
      infos ← inspect_processes processes
      pure (info ∷ infos)

    pub inspect_lock_openers : String → M Openers
    inspect_lock_openers path = do
      openers ← find_lock_openers texts.show_status run_lsof path
      infos ← inspect_processes openers.processes
      pure (record { processes = infos; error = openers.error })
