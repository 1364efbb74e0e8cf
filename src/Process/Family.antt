-- ===== src/Process/Family.antt =====
-- src/process.ts: the table of processes that ps prints, the descendants of a process and the
-- ancestors of the current one.
mod Unfound
pub mod Descendants
pub mod Ancestors
use Prim.Native.Char.{code}
use Prim.Native.String
use codex_unlock.Base.{
  ℕ, zero, suc, String, Bool, true, false, not, ◌&&◌, Option, none, some, List, [], ◌∷◌, ◌++◌, ◌==◌,
  nat_eq, includes, length, ltb, if◌then◌else◌, option_eq,
}
use codex_unlock.Util.{CommandResult, command_failure_text}
use codex_unlock.Io.{Env, M, ◌>>=◌, pure}
use codex_unlock.Text.{trim, is_space, trim_start}
use codex_unlock.Text.Numbers.{parse_digits}
use codex_unlock.Text.Lines.{split_lines, sort_by}
use codex_unlock.Policy.{truthy}

pub record Row : Type 0 where
  pub pid : ℕ
  pub parent : ℕ

-- `Map.set` keeps the place of a key that it has.
pub set_row : ℕ → ℕ → List Row → List Row
set_row pid parent [] = record { pid = pid; parent = parent } ∷ []
set_row pid parent (r ∷ rows) =
    let rest = set_row pid parent rows in
    if r.pid == pid then record r { parent = parent } ∷ rows else r ∷ rest

abbrev pub parent_of : ℕ → List Row → Option ℕ
parent_of pid [] = none
parent_of pid (r ∷ rows) = if r.pid == pid then some r.parent else parent_of pid rows

-- The text before the first space, and what comes after the spaces.
first_word : String → String
first_word String.[] = String.[]
first_word (String.◌∷◌ c s) = if is_space (code c) then String.[] else String.◌∷◌ c (first_word s)

other_words : String → String
other_words String.[] = String.[]
other_words (String.◌∷◌ c s) = if is_space (code c) then trim_start s else other_words s

abbrev both_numbers : Option ℕ → Option ℕ → Option Row
both_numbers (some pid) (some parent) = some (record { pid = pid; parent = parent })
both_numbers _ _ = none

-- `line.trim().match(/^(\d+)\s+(\d+)$/)`
pub row_of : String → Option Row
unfolding first_word other_words
row_of line =
    let text = trim line in
    both_numbers (parse_digits (first_word text)) (parse_digits (other_words text))

abbrev add_row : Option Row → List Row → List Row
add_row none rows = rows
add_row (some r) rows = set_row r.pid r.parent rows

pub read_rows : List String → List Row → List Row
read_rows [] rows = rows
read_rows (line ∷ lines) rows = read_rows lines (add_row (row_of line) rows)

pub table_of : CommandResult → Option (List Row)
table_of r =
    if truthy (command_failure_text r)
    then none
    else (if r.status == some 0 then some (read_rows (split_lines r.stdout) []) else none)

-- The search through the children of `queue`. `none` is the end of the fuel.
pub record SearchState : Type 0 where
  pub found : List ℕ
  pub queue : List ℕ

abbrev pub push : ℕ → SearchState → SearchState
push pid s = record { found = s.found ++ pid ∷ []; queue = s.queue ++ pid ∷ [] }

unfoldable pub visit : ℕ → List Row → SearchState → SearchState
visit parent [] s = s
visit parent (r ∷ rows) s =
    visit parent rows
      (if r.parent == parent && not (includes s.found r.pid) then push r.pid s else s)

unfoldable pub search_children : ℕ → List Row → SearchState → Option (List ℕ)
search_children zero rows s = none
search_children (suc fuel) rows s = elim s.queue [
  | [] ↦ some s.found
  | parent ∷ rest ↦ search_children fuel rows (visit parent rows (record s { queue = rest }))
]

abbrev pub search_fuel : List Row → ℕ
search_fuel rows = suc (suc (length rows))

unfoldable pub descendants_in : List Row → ℕ → Option (List ℕ)
descendants_in rows pid =
    search_children (search_fuel rows) rows (record { found = []; queue = pid ∷ [] })

abbrev sorted_pids : Option (List ℕ) → Option (List ℕ)
sorted_pids none = none
sorted_pids (some pids) = some (sort_by ltb pids)

-- A table that is empty counts as none.
abbrev pub descendants_of : Option (List Row) → ℕ → Option (List ℕ)
descendants_of none pid = none
descendants_of (some []) pid = none
descendants_of (some (r ∷ rows)) pid = sorted_pids (descendants_in (r ∷ rows) pid)

-- The chain of parents, as a Set in the order of insertion.
abbrev or_zero : Option ℕ → ℕ
or_zero none = 0
or_zero (some n) = n

abbrev pub next_of : List Row → ℕ → ℕ
next_of rows current = or_zero (parent_of current rows)

unfoldable pub climb : ℕ → List Row → ℕ → List ℕ → Option (List ℕ)
climb zero rows current family = none
climb (suc fuel) rows current family =
    let more = climb fuel rows (next_of rows current) (family ++ current ∷ []) in
    if ltb 0 current && not (includes family current) then more else some family

unfoldable pub family_in : List Row → ℕ → Option (List ℕ)
family_in rows pid = climb (search_fuel rows) rows pid []

abbrev pub family_of : Option (List Row) → ℕ → Option (List ℕ)
family_of none pid = none
family_of (some []) pid = none
family_of (some (r ∷ rows)) pid = family_in (r ∷ rows) pid

module _ (env : Env) (run_ps : List String → M CommandResult) where
  unfoldable pub process_table : M (Option (List Row))
  process_table = do r ← run_ps ("-ww" ∷ "-axo" ∷ "pid=,ppid=" ∷ []); pure (table_of r)

  unfoldable pub descendant_pids : ℕ → M (Option (List ℕ))
  descendant_pids pid = do table ← process_table; pure (descendants_of table pid)

  -- `self` is `process.pid`.
  unfoldable pub current_process_family : ℕ → M (Option (List ℕ))
  current_process_family self = do table ← process_table; pure (family_of table self)
