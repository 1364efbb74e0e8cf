-- ===== src/Process/Lsof.antt =====
-- src/process.ts: what lsof prints.
pub mod Laws
use Prim.Native.Char.{code}
use Prim.Native.String
use codex_unlock.Base.{
  ℕ, ℤ, pos, negsuc, String, Bool, true, false, not, ◌&&◌, ◌||◌, Option, none, some, List, [], ◌∷◌,
  ◌++◌, ◌==◌, nat_eq, string_eq, ltb, if◌then◌else◌,
}
use codex_unlock.Text.{trim}
use codex_unlock.Text.Numbers.{safe_integer, parse_digits, parse_hex}
use codex_unlock.Text.Lines.{split_fields, sort_by}

pub record LsofProcess : Type 0 where
  pub pid : ℕ
  pub command : Option String
  pub uid : Option ℤ

-- A token of one field: its letter and the rest. Tokens without a value count as the source counts
-- them: the first parser skips them, the second does not.
abbrev letter : String → ℕ
letter String.[] = 0
letter (String.◌∷◌ c s) = code c

abbrev value_of : String → String
value_of String.[] = String.[]
value_of (String.◌∷◌ c s) = s

abbrev is_short : String → Bool
is_short String.[] = true
is_short (String.◌∷◌ c String.[]) = true
is_short (String.◌∷◌ c (String.◌∷◌ d s)) = false

-- `Number.isSafeInteger(pid) && pid > 0`
abbrev valid_pid : Option ℤ → Option ℕ
valid_pid none = none
valid_pid (some (pos n)) = if n == 0 then none else some n
valid_pid (some (negsuc n)) = none

-- The map by pid, in the order of insertion.
abbrev pub find_pid : ℕ → List LsofProcess → Option LsofProcess
find_pid pid [] = none
find_pid pid (p ∷ ps) = if p.pid == pid then some p else find_pid pid ps

abbrev update_pid : ℕ → (LsofProcess → LsofProcess) → List LsofProcess → List LsofProcess
update_pid pid f [] = []
update_pid pid f (p ∷ ps) = if p.pid == pid then f p ∷ ps else p ∷ update_pid pid f ps

-- `current` is the process that the following fields describe; it is an entry of the map.
pub record LsofState : Type 0 where
  pub by_pid : List LsofProcess
  pub current : Option ℕ

abbrev add_pid : ℕ → List LsofProcess → Option LsofProcess → List LsofProcess
add_pid pid ps (some p) = ps
add_pid pid ps none = ps ++ record { pid = pid; command = none; uid = none } ∷ []

pub start_process : Option ℕ → LsofState → LsofState
start_process none s = record s { current = none }
start_process (some pid) s = record {
  by_pid = add_pid pid s.by_pid (find_pid pid s.by_pid);
  current = some pid;
}

abbrev describe : Option ℕ → (LsofProcess → LsofProcess) → LsofState → LsofState
describe none f s = s
describe (some pid) f s = record s { by_pid = update_pid pid f s.by_pid }

abbrev or_null : String → Option String
or_null s = if s == "" then none else some s

pub read_process_token : String → LsofState → LsofState
read_process_token token s =
    let value = trim (value_of token) in
    if is_short token
    then s
    else if letter token == 112
    then start_process (valid_pid (safe_integer value)) s
    else if letter token == 99
    then describe s.current (λ p. record p { command = or_null value }) s
    else (if letter token == 117
        then describe s.current (λ p. record p { uid = safe_integer value }) s
        else s)

pub read_process_tokens : List String → LsofState → LsofState
read_process_tokens [] s = s
read_process_tokens (token ∷ tokens) s = read_process_tokens tokens (read_process_token token s)

abbrev pub earlier_pid : LsofProcess → LsofProcess → Bool
earlier_pid left right = ltb left.pid right.pid

pub parse_lsof_processes : String → List LsofProcess
parse_lsof_processes output =
    sort_by earlier_pid
      (read_process_tokens (split_fields output) (record { by_pid = []; current = none })).by_pid

pub record LsofFile : Type 0 where
  pub name : String
  pub device : Option ℕ
  pub inode : Option ℕ

-- `current` is the set of fields that is being read, `files` the finished ones, newest last.
pub record FileState : Type 0 where
  pub files : List LsofFile
  pub current : Option LsofFile

abbrev pub blank_file : LsofFile
blank_file = record { name = ""; device = none; inode = none }

-- A set without a name is dropped.
abbrev finished : Option LsofFile → List LsofFile
finished none = []
finished (some f) = if f.name == "" then [] else f ∷ []

pub flush : FileState → FileState
flush s = record { files = s.files ++ finished s.current; current = none }

pub begin : FileState → FileState
unfolding flush
begin s = record (flush s) { current = some blank_file }

abbrev is_some {ℓ} : {A : Type ℓ} → Option A → Bool
is_some none = false
is_some (some a) = true

-- The state in which a field is stored: a new set where the field or a later one was read already.
abbrev with_set : (LsofFile → Bool) → Option LsofFile → FileState → FileState
with_set full none s = begin s
with_set full (some f) s = if full f then begin s else s

abbrev store : (LsofFile → LsofFile) → FileState → FileState
store f s = elim s.current [ none ↦ s | some file ↦ record s { current = some (f file) } ]

abbrev named : LsofFile → Bool
named f = not (f.name == "")

pub read_file_token : String → FileState → FileState
unfolding begin flush
read_file_token token s =
    let value = value_of token in
    if letter token == 112
    then flush s
    else if letter token == 102
    then begin s
    else if letter token == 68
    then store (λ f. record f { device = parse_hex value })
        (with_set (λ f. named f || is_some f.device || is_some f.inode) s.current s)
    else if letter token == 105
    then store (λ f. record f { inode = parse_digits value })
        (with_set (λ f. named f || is_some f.inode) s.current s)
    else (if letter token == 110
        then store (λ f. record f { name = value }) (with_set named s.current s)
        else s)

pub read_file_tokens : List String → FileState → FileState
read_file_tokens [] s = flush s
read_file_tokens (token ∷ tokens) s = read_file_tokens tokens (read_file_token token s)

pub parse_lsof_files : String → List LsofFile
parse_lsof_files output =
    (read_file_tokens (split_fields output) (record { files = []; current = none })).files
