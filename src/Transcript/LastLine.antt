-- ===== src/Transcript/LastLine.antt =====
-- src/transcript.ts: the last line of a rollout file that is not empty, read backwards in chunks.
-- A file is its bytes. `read` is the handle's read at a position of at most so many bytes.
pub mod Line
pub mod Laws
use codex_unlock.Base.{
  ℕ, zero, suc, ◌+◌, ◌-◌, String, Bool, true, false, not, ◌&&◌, ◌||◌, Option, none, some, List, [],
  ◌∷◌, ◌++◌, ◌==◌, nat_eq, length, ltb, min, if◌then◌else◌,
}
use codex_unlock.Io.{M, ◌>>=◌, pure, throw_error, new_error}

-- MAX_LAST_RECORD_BYTES and READ_CHUNK_BYTES
abbrev pub max_last_record_bytes : ℕ
max_last_record_bytes = 8_388_608

abbrev pub read_chunk_bytes : ℕ
read_chunk_bytes = 65_536

abbrev pub is_nil {ℓ} : {A : Type ℓ} → List A → Bool
is_nil [] = true
is_nil (x ∷ xs) = false

-- The buffer without the line breaks at its end.
unfoldable pub strip_end : List ℕ → List ℕ
strip_end [] = []
strip_end (c ∷ cs) =
    let rest = strip_end cs in if is_nil rest && (c == 10 || c == 13) then [] else c ∷ rest

-- What stands after the last newline, where there is one.
unfoldable pub after_newline : List ℕ → Option (List ℕ)
after_newline [] = none
after_newline (c ∷ cs) = elim (after_newline cs) [
  | some line ↦ some line
  | none ↦ if c == 10 then some cs else none
]

-- The line, as far as the buffer shows it: `position` bytes of the file are not read yet.
abbrev pub whole_line : ℕ → List ℕ → Option (List ℕ) → Option (List ℕ)
whole_line position stripped (some line) = some line
whole_line position stripped none = if position == 0 then some stripped else none

unfoldable pub line_of : ℕ → List ℕ → Option (List ℕ)
line_of position buffer =
    let stripped = strip_end buffer in
    if is_nil stripped then none else whole_line position stripped (after_newline stripped)

module _ (read : ℕ → ℕ → M (List ℕ)) where
  unfoldable pub incomplete : M (List ℕ)
  incomplete = throw_error (new_error "last rollout record exceeds 8388608 bytes or is incomplete")

  abbrev pub found_or : M (List ℕ) → Option (List ℕ) → M (List ℕ)
  found_or go_on (some line) = pure line
  found_or go_on none = go_on

  unfoldable pub read_back : ℕ → ℕ → List ℕ → M (List ℕ)
  read_back zero position buffer = incomplete
  read_back (suc fuel) position buffer =
      let chunk_length = min read_chunk_bytes position in
      let before = position - chunk_length in
      if ltb 0 position && ltb (length buffer) max_last_record_bytes
      then read before chunk_length >>= (λ chunk.
        found_or (read_back fuel before (chunk ++ buffer)) (line_of before (chunk ++ buffer)))
      else incomplete

  abbrev some_line : List ℕ → M (Option (List ℕ))
  some_line line = pure (some line)

  -- Each round reads at least a byte.
  unfoldable pub read_last_non_empty_line : ℕ → M (Option (List ℕ))
  read_last_non_empty_line size =
      if size == 0 then pure none else read_back (suc size) size [] >>= some_line
