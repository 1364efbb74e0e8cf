-- ===== src/Process/Lsof/Laws.antt =====
-- The processes that were parsed have different ids, in ascending order.
use codex_unlock.Base.{
  ℕ, ℤ, pos, negsuc, ◌<◌, ◌≡◌, refl, ◌∙◌, String, Bool, true, false, ◌||◌, Option, none, some, List,
  [], ◌∷◌, ◌++◌, ◌==◌, nat_eq, string_eq, ltb, arith, inl, inr, Bool-cases, or-eq-false,
  if◌then◌else◌,
}
use codex_unlock.Text.{trim}
use codex_unlock.Text.Numbers.{safe_integer}
use codex_unlock.Text.Lines.{split_fields, sort_by, insert_sorted}
use codex_unlock.Process.Lsof.{
  LsofProcess, LsofState, find_pid, update_pid, add_pid, start_process, describe,
  read_process_token, read_process_tokens, parse_lsof_processes, earlier_pid, valid_pid, letter,
  value_of, is_short, or_null,
}

abbrev has_pid : List LsofProcess → ℕ → Bool
has_pid [] pid = false
has_pid (p ∷ ps) pid = p.pid == pid || has_pid ps pid

-- Every id is positive and stands once.
abbrev Distinct : List LsofProcess → Type 0
Distinct [] = Unit {0}
Distinct (p ∷ ps) = (0 < p.pid) × (has_pid ps p.pid ≡ false) × Distinct ps

-- Every id is larger than the ones before, the first than `low`.
abbrev pub IsAscending : ℕ → List LsofProcess → Type 0
IsAscending low [] = Unit {0}
IsAscending low (p ∷ ps) = (low < p.pid) × IsAscending p.pid ps

has_pid-insert_sorted :
    (p : LsofProcess) (ps : List LsofProcess) (pid : ℕ)
    → has_pid (insert_sorted earlier_pid p ps) pid ≡ (p.pid == pid || has_pid ps pid)
unfolding insert_sorted
has_pid-insert_sorted p [] pid = refl
has_pid-insert_sorted p (q ∷ ps) pid = ground (arith, has_pid-insert_sorted p ps pid)

has_pid-sort_by :
    (ps : List LsofProcess) (pid : ℕ) → has_pid (sort_by earlier_pid ps) pid ≡ has_pid ps pid
unfolding sort_by
has_pid-sort_by [] pid = refl
has_pid-sort_by (p ∷ ps) pid =
    ground (arith, has_pid-insert_sorted p (sort_by earlier_pid ps) pid, has_pid-sort_by ps pid)

insert_sorted-IsAscending :
    (low : ℕ) (p : LsofProcess) (ps : List LsofProcess)
    → low < p.pid
    → has_pid ps p.pid ≡ false
    → IsAscending low ps
    → IsAscending low (insert_sorted earlier_pid p ps)
unfolding insert_sorted
insert_sorted-IsAscending low p [] l h a = (l, tt)
insert_sorted-IsAscending low p (q ∷ ps) l h a = by_order (ltb q.pid p.pid) refl (λ less.
    insert_sorted-IsAscending q.pid p ps less (or-eq-false (q.pid == p.pid) (has_pid ps p.pid) h).1
      a.1)
  where
    by_order :
        (b : Bool)
        → ltb q.pid p.pid ≡ b
        → (q.pid < p.pid → IsAscending q.pid (insert_sorted earlier_pid p ps))
        → IsAscending low (if b then q ∷ insert_sorted earlier_pid p ps else p ∷ q ∷ ps)
    by_order true e f = (a.0, f (ground (arith, e)))
    by_order false e f =
        (l, (ground (arith, e, (or-eq-false (q.pid == p.pid) (has_pid ps p.pid) h).0), a.1))

sort_by-IsAscending : (ps : List LsofProcess) → Distinct ps → IsAscending 0 (sort_by earlier_pid ps)
unfolding sort_by
sort_by-IsAscending [] h = tt
sort_by-IsAscending (p ∷ ps) (positive, fresh, rest) =
    insert_sorted-IsAscending 0 p (sort_by earlier_pid ps) positive
      (has_pid-sort_by ps p.pid ∙ fresh) (sort_by-IsAscending ps rest)

has_pid-update_pid :
    (pid : ℕ) (f : LsofProcess → LsofProcess) (ps : List LsofProcess) (v : ℕ)
    → ((p : LsofProcess) → (f p).pid ≡ p.pid)
    → has_pid (update_pid pid f ps) v ≡ has_pid ps v
has_pid-update_pid pid f [] v h = refl
has_pid-update_pid pid f (p ∷ ps) v h =
    elim (p.pid == pid)
      as (λ b.
        has_pid (if b then f p ∷ ps else p ∷ update_pid pid f ps) v
        ≡ (p.pid == v || has_pid ps v)) [
          | true ↦ rw (h p) refl
          | false ↦ rw (has_pid-update_pid pid f ps v h) refl
        ]

update_pid-Distinct :
    (pid : ℕ) (f : LsofProcess → LsofProcess) (ps : List LsofProcess)
    → ((p : LsofProcess) → (f p).pid ≡ p.pid)
    → Distinct ps
    → Distinct (update_pid pid f ps)
update_pid-Distinct pid f [] h d = tt
update_pid-Distinct pid f (p ∷ ps) h (positive, fresh, rest) =
    elim (p.pid == pid) as (λ b. Distinct (if b then f p ∷ ps else p ∷ update_pid pid f ps)) [
      | true ↦ rw (h p) (positive, fresh, rest)
      | false ↦ (
        positive,
        has_pid-update_pid pid f ps p.pid h ∙ fresh,
        update_pid-Distinct pid f ps h rest,
      )
    ]

find_pid-fresh : (pid : ℕ) (ps : List LsofProcess) → find_pid pid ps ≡ none → has_pid ps pid ≡ false
find_pid-fresh pid [] h = refl
find_pid-fresh pid (p ∷ ps) h = elim (Bool-cases (p.pid == pid)) [
  | inl e ↦ cc (rw e at h)
  | inr e ↦ rw e (find_pid-fresh pid ps (rw e at h))
]

has_pid-append :
    (ps : List LsofProcess) (new : LsofProcess) (v : ℕ)
    → has_pid (ps ++ new ∷ []) v ≡ (has_pid ps v || (new.pid == v))
has_pid-append [] new v = ground arith
has_pid-append (p ∷ ps) new v = ground (arith, has_pid-append ps new v)

append-Distinct :
    (ps : List LsofProcess) (new : LsofProcess)
    → 0 < new.pid
    → has_pid ps new.pid ≡ false
    → Distinct ps
    → Distinct (ps ++ new ∷ [])
append-Distinct [] new p h d = (p, refl, tt)
append-Distinct (x ∷ ps) new p h (positive, fresh, rest) =
    let apart = or-eq-false (x.pid == new.pid) (has_pid ps new.pid) h in
    (
      positive,
      has_pid-append ps new x.pid ∙ ground (arith, fresh, apart.0),
      append-Distinct ps new p apart.1 rest,
    )

add_pid-Distinct :
    (pid : ℕ) (ps : List LsofProcess) (found : Option LsofProcess)
    → 0 < pid
    → find_pid pid ps ≡ found
    → Distinct ps
    → Distinct (add_pid pid ps found)
add_pid-Distinct pid ps (some p) q h d = d
add_pid-Distinct pid ps none q h d = append-Distinct ps _ q (find_pid-fresh pid ps h) d

start_process-Distinct :
    (pid : Option ℕ) (s : LsofState)
    → ((n : ℕ) → pid ≡ some n → 0 < n)
    → Distinct s.by_pid
    → Distinct (start_process pid s).by_pid
unfolding start_process
start_process-Distinct none s h d = d
start_process-Distinct (some pid) s h d =
    add_pid-Distinct pid s.by_pid (find_pid pid s.by_pid) (h pid refl) refl d

valid_pid-positive : (o : Option ℤ) (n : ℕ) → valid_pid o ≡ some n → 0 < n
valid_pid-positive none n h = cc
valid_pid-positive (some (pos m)) n h = ground (arith, h)
valid_pid-positive (some (negsuc m)) n h = cc

describe-Distinct :
    (o : Option ℕ) (f : LsofProcess → LsofProcess) (s : LsofState)
    → ((p : LsofProcess) → (f p).pid ≡ p.pid)
    → Distinct s.by_pid
    → Distinct (describe o f s).by_pid
describe-Distinct none f s h d = d
describe-Distinct (some pid) f s h d = update_pid-Distinct pid f s.by_pid h d

read_process_token-Distinct :
    (token : String) (s : LsofState)
    → Distinct s.by_pid
    → Distinct (read_process_token token s).by_pid
unfolding read_process_token
read_process_token-Distinct token s d =
    by_letter (is_short token) (letter token == 112) (letter token == 99) (letter token == 117)
  where
    value : String
    value = trim (value_of token)

    by_letter :
        (a b c e : Bool)
        → Distinct
            (if a
              then s
              else if b
              then start_process (valid_pid (safe_integer value)) s
              else if c
              then describe s.current (λ p. record p { command = or_null value }) s
              else (if e
                  then describe s.current (λ p. record p { uid = safe_integer value }) s
                  else s)).by_pid
    by_letter true b c e = d
    by_letter false true c e =
        start_process-Distinct _ s (valid_pid-positive (safe_integer value)) d
    by_letter false false true e = describe-Distinct s.current _ s (λ p. refl) d
    by_letter false false false true = describe-Distinct s.current _ s (λ p. refl) d
    by_letter false false false false = d

read_process_tokens-Distinct :
    (tokens : List String) (s : LsofState)
    → Distinct s.by_pid
    → Distinct (read_process_tokens tokens s).by_pid
unfolding read_process_tokens
read_process_tokens-Distinct [] s d = d
read_process_tokens-Distinct (token ∷ tokens) s d =
    read_process_tokens-Distinct tokens (read_process_token token s)
      (read_process_token-Distinct token s d)

-- Whatever lsof prints, the processes that are read from it have positive ids in strictly ascending
-- order, so that no process is named twice and none stands for a group (0 or a negative id).
pub parse_lsof_processes-IsAscending :
    (output : String) → IsAscending 0 (parse_lsof_processes output)
unfolding parse_lsof_processes
parse_lsof_processes-IsAscending output =
    sort_by-IsAscending _ (read_process_tokens-Distinct (split_fields output) _ tt)
