-- ===== src/Transcript/Walk.antt =====
-- src/transcript.ts: the walk over the rollout directories for the files of a thread. The two roots,
-- which the source walks at the same time, are walked in its order.
use codex_unlock.Base.{ℕ, zero, suc, String, List, [], ◌∷◌, ◌++◌, string_eq, if◌then◌else◌}
use codex_unlock.Util.{◌<>◌}
use codex_unlock.Io.{
  Env, Log, M, Res, ◌>>=◌, pure, attempt, observe, throw_error, new_error, FileKind, regular,
  directory, symbolic_link, other,
}
use codex_unlock.Io.Calm.{
  IsCalm, calm-bind, calm-pure, calm-if, calm-observe, calm-attempt, start-Holds,
}
use codex_unlock.Text.{ends_with}
use codex_unlock.Text.Lines.{sort_texts}
use codex_unlock.Lock.{is_missing}

-- A Dirent.
pub record Entry : Type 0 where
  pub name : String
  pub kind : FileKind

-- `opendir`, and the entries that its iteration gives. `depth` is more than the directories that are
-- nested below a root.
pub record Directories : Type 0 where
  pub open_directory : Log → String → Res (Unit {0})
  pub entries : Log → String → Res (List Entry)
  pub depth : ℕ

module _ (env : Env) (directories : Directories) where
  -- The paths of an entry; `into` walks a directory.
  pub entry_paths : (String → M (List String)) → String → String → Entry → M (List String)
  entry_paths into path expected e = elim e.kind as (λ _. M (List String)) [
    | directory ↦ into path
    | regular ↦ pure (if ends_with expected e.name then path ∷ [] else [])
    | symbolic_link ↦ pure []
    | other ↦ pure []
  ]

  pub walk_entries : (String → M (List String)) → String → String → List Entry → M (List String)
  walk_entries into root expected [] = pure []
  walk_entries into root expected (e ∷ es) = do
    found ← entry_paths into (env.join root e.name) expected e
    more ← walk_entries into root expected es
    pure (found ++ more)

  pub walk_for_transcript : ℕ → String → String → M (List String)
  walk_for_transcript zero expected root = throw_error (new_error "out of fuel")
  walk_for_transcript (suc depth) expected root =
      attempt (observe (λ s. directories.open_directory s root))
        (λ u.
          observe (λ s. directories.entries s root)
          >>= walk_entries (walk_for_transcript depth expected) root expected)
        (λ e. if is_missing e then pure [] else throw_error e)

  pub find_transcript_candidates : String → String → M (List String)
  find_transcript_candidates home thread_id = do
    let expected = "-" <> thread_id <> ".jsonl"
    live ← walk_for_transcript directories.depth expected (env.join home "sessions")
    old ← walk_for_transcript directories.depth expected (env.join home "archived_sessions")
    pure (sort_texts (live ++ old))

  entry_paths-Calm :
      (into : String → M (List String)) (path expected name : String) (kind : FileKind)
      → ((p : String) → IsCalm (into p))
      → IsCalm (entry_paths into path expected (record { name = name; kind = kind }))
  unfolding entry_paths
  entry_paths-Calm into path expected name directory h = h path
  entry_paths-Calm into path expected name regular h = calm-pure _
  entry_paths-Calm into path expected name symbolic_link h = calm-pure _
  entry_paths-Calm into path expected name other h = calm-pure _

  walk_entries-Calm :
      (into : String → M (List String)) (root expected : String) (es : List Entry)
      → ((p : String) → IsCalm (into p))
      → IsCalm (walk_entries into root expected es)
  unfolding walk_entries
  walk_entries-Calm into root expected [] h = calm-pure _
  walk_entries-Calm into root expected (e ∷ es) h =
      calm-bind (entry_paths into (env.join root e.name) expected e) _
        (entry_paths-Calm into _ expected e.name e.kind h)
        λ found.
          calm-bind (walk_entries into root expected es) _
            (walk_entries-Calm into root expected es h) λ more. calm-pure _

  walk_for_transcript-Calm :
      (depth : ℕ) (expected root : String) → IsCalm (walk_for_transcript depth expected root)
  unfolding walk_for_transcript
  walk_for_transcript-Calm zero expected root = record { at = start-Holds }
  walk_for_transcript-Calm (suc depth) expected root =
      calm-attempt (observe (λ s. directories.open_directory s root)) _ _ (calm-observe _)
        (λ u. calm-bind (observe (λ s. directories.entries s root)) _ (calm-observe _) λ es.
          walk_entries-Calm (walk_for_transcript depth expected) root expected es
            (walk_for_transcript-Calm depth expected))
        λ e. calm-if (is_missing e) _ _ (calm-pure _) (record { at = start-Holds })

  pub find_transcript_candidates-Calm :
      (home id : String) → IsCalm (find_transcript_candidates home id)
  unfolding find_transcript_candidates
  find_transcript_candidates-Calm home id =
      calm-bind (walk_for_transcript directories.depth _ _) _ (walk_for_transcript-Calm _ _ _)
        λ live.
          calm-bind (walk_for_transcript directories.depth _ _) _ (walk_for_transcript-Calm _ _ _)
            λ old. calm-pure _
