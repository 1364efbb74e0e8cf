-- ===== src/Transcript/LastLine/Laws.antt =====
-- Reading backwards in chunks finds the last line of the whole file.
use codex_unlock.Base.{
  ℕ, zero, suc, ◌+◌, ◌-◌, ◌≤◌, ◌<◌, ◌≡◌, refl, sym, ap, subst, ◌∙◌, true, false, ◌&&◌, ◌||◌, Option,
  none, some, List, [], ◌∷◌, ◌++◌, ◌==◌, nat_eq, length, ltb, min, arith, take, drop, if◌then◌else◌,
  inl, inr, Bool-cases, take-drop, drop-drop, length-take, drop_all, length-drop,
}
use codex_unlock.Io.{M, Log, Res, ok, throw, pure, then_run}
use codex_unlock.Transcript.LastLine.Line.{
  IsLastLine, AreBreaks, line_of-IsLastLine, line_of-AreBreaks,
}
use codex_unlock.Transcript.LastLine.{
  max_last_record_bytes, read_chunk_bytes, is_nil, strip_end, after_newline, whole_line, line_of,
  incomplete, found_or, read_back, read_last_non_empty_line,
}

-- The line that the whole file shows: what stands after the last newline before its final line breaks.
unfoldable pub last_line : List ℕ → Option (List ℕ)
last_line content = line_of 0 content

last_line-IsLastLine :
    (content line : List ℕ) → last_line content ≡ some line → IsLastLine content line
unfolding last_line
last_line-IsLastLine content line h = line_of-IsLastLine content line h

last_line-AreBreaks : (content : List ℕ) → last_line content ≡ none → AreBreaks content
unfolding last_line
last_line-AreBreaks content h = line_of-AreBreaks content h

strip_end-append :
    (before buffer : List ℕ)
    → is_nil (strip_end buffer) ≡ false
    → strip_end (before ++ buffer) ≡ before ++ strip_end buffer
unfolding strip_end
strip_end-append [] buffer h = refl
strip_end-append (c ∷ cs) buffer h =
    rw (strip_end-append cs buffer h) (still cs (strip_end buffer) h)
  where
    still :
        (cs rest : List ℕ)
        → is_nil rest ≡ false
        → (if is_nil (cs ++ rest) && (c == 10 || c == 13) then [] else c ∷ (cs ++ rest))
          ≡ (c ∷ (cs ++ rest))
    still [] [] h = cc
    still [] (x ∷ rest) h = refl
    still (d ∷ cs) rest h = refl

after_newline-append :
    (before rest line : List ℕ)
    → after_newline rest ≡ some line
    → after_newline (before ++ rest) ≡ some line
unfolding after_newline
after_newline-append [] rest line h = h
after_newline-append (c ∷ cs) rest line h = rw (after_newline-append cs rest line h) refl

is_nil-append : (xs ys : List ℕ) → is_nil ys ≡ false → is_nil (xs ++ ys) ≡ false
is_nil-append [] ys h = h
is_nil-append (x ∷ xs) ys h = refl

line_of-nil : (position : ℕ) → line_of position [] ≡ none
unfolding line_of strip_end
line_of-nil position = refl

-- A line that the end of the file shows is the line of the file.
line_of-append :
    (before buffer line : List ℕ)
    → line_of (length before) buffer ≡ some line
    → last_line (before ++ buffer) ≡ some line
unfolding line_of last_line
line_of-append before buffer line h = elim (Bool-cases (is_nil (strip_end buffer))) [
  | inl e ↦ cc (rw e at h)
  | inr e ↦ rw (strip_end-append before buffer e) (
      rw (is_nil-append before (strip_end buffer) e)
        (shown before (strip_end buffer) (after_newline (strip_end buffer)) refl (rw e at h)))
]
  where
    shown :
        (before stripped : List ℕ) (o : Option (List ℕ))
        → after_newline stripped ≡ o
        → whole_line (length before) stripped o ≡ some line
        → whole_line 0 (before ++ stripped) (after_newline (before ++ stripped)) ≡ some line
    shown before stripped (some l) q g = rw (after_newline-append before stripped l q) g
    shown [] stripped none q g = rw q g
    shown (c ∷ cs) stripped none q g = absurd (ground (arith, g))

module _ (content : List ℕ) (read : ℕ → ℕ → M (List ℕ)) where
  -- The file is not changed while it is read, and a read gives as many bytes as were asked for.
  pub record IsSteady : Type 0 where
    pub exact :
        (position count : ℕ) (s : Log)
        → (t : Log) × (read position count s ≡ (ok (take count (drop position content)), t))

  -- What was read is the end of the file.
  chunk-drop :
      (position count : ℕ)
      → count ≤ position
      → (take count (drop (position - count) content) ++ drop position content)
        ≡ drop (position - count) content
  chunk-drop position count h =
      let rest = drop-drop count (position - count) content in
      subst
        (λ d. (take count (drop (position - count) content) ++ d) ≡ drop (position - count) content)
        (rest ∙ ap (λ k. drop k content) {x = position - count + count} (omega (arith, h)))
        (take-drop count (drop (position - count) content))

  -- A line that the end of the file shows.
  shown-last_line :
      (position : ℕ) (line : List ℕ)
      → position ≤ length content
      → line_of position (drop position content) ≡ some line
      → last_line content ≡ some line
  shown-last_line position line p h =
      let size : length (take position content) ≡ position =
        omega (arith, length-take position content, p) in
      subst (λ c. last_line c ≡ some line) (take-drop position content)
        (line_of-append (take position content) (drop position content) line
          (subst (λ k. line_of k (drop position content) ≡ some line) (sym size) h))

  module _ (steady : IsSteady) where
    -- What the loop answers is the last line; in a file that is no larger than the bound it answers.
    abbrev Finds : ℕ → Res (List ℕ) × Log → Type 0
    Finds size (ok line, t) = last_line content ≡ some line
    Finds size (throw e, t) = (size ≤ max_last_record_bytes → last_line content ≡ none)

    read_back-stops :
        (fuel position : ℕ) (buffer : List ℕ) (s : Log)
        → (ltb 0 position && ltb (length buffer) max_last_record_bytes) ≡ false
        → read_back read (suc fuel) position buffer s ≡ incomplete read s
    unfolding read_back
    read_back-stops fuel position buffer s h = rw h refl

    read_back-goes :
        (fuel position : ℕ) (buffer chunk : List ℕ) (s t : Log)
        → (ltb 0 position && ltb (length buffer) max_last_record_bytes) ≡ true
        → read (position - min read_chunk_bytes position) (min read_chunk_bytes position) s
          ≡ (ok chunk, t)
        → read_back read (suc fuel) position buffer s
          ≡ found_or read
              (read_back read fuel (position - min read_chunk_bytes position) (chunk ++ buffer))
              (line_of (position - min read_chunk_bytes position) (chunk ++ buffer))
              t
    unfolding read_back
    read_back-goes fuel position buffer chunk s t h q = rw (h, q) refl

    -- Where the loop stops, the whole file was read, or it is larger than the bound.
    stopped :
        (position : ℕ)
        → position ≤ length content
        → line_of position (drop position content) ≡ none
        → (ltb 0 position && ltb (length (drop position content)) max_last_record_bytes) ≡ false
        → length content ≤ max_last_record_bytes
        → last_line content ≡ none
    unfolding last_line
    stopped zero p h e bound = h
    stopped (suc n) p h e bound = absurd (ground (arith, e, length-drop (suc n) content, p, bound))

    found_or-Finds :
        (o : Option (List ℕ)) (go_on : M (List ℕ)) (t : Log)
        → ((line : List ℕ) → o ≡ some line → last_line content ≡ some line)
        → (o ≡ none → Finds (length content) (go_on t))
        → Finds (length content) (found_or read go_on o t)
    found_or-Finds (some line) go_on t h g = h line refl
    found_or-Finds none go_on t h g = g refl

    read_back-Finds :
        (fuel position : ℕ) (s : Log)
        → position < fuel
        → position ≤ length content
        → line_of position (drop position content) ≡ none
        → Finds (length content) (read_back read fuel position (drop position content) s)
    unfolding incomplete
    read_back-Finds zero position s f p h = absurd (omega (arith, f))
    read_back-Finds (suc fuel) position s f p h =
        elim (Bool-cases
          (ltb 0 position && ltb (length (drop position content)) max_last_record_bytes)) [
            | inr e ↦
                subst (Finds (length content))
                  (sym (read_back-stops fuel position (drop position content) s e))
                  (stopped position p h e)
            | inl e ↦
                let count = min read_chunk_bytes position in
                let before = position - count in
                let (t, q) = steady.exact before count s in
                let whole = chunk-drop position count (omega arith) in
                let positive : 0 < position = ground (arith, e) in
                subst (Finds (length content))
                  (sym (read_back-goes fuel position (drop position content) _ s t e q))
                  (subst
                    (λ b.
                      Finds (length content)
                        (found_or read (read_back read fuel before b) (line_of before b) t))
                    (sym whole)
                    (found_or-Finds (line_of before (drop before content)) _ t
                      (λ line g. shown-last_line before line (omega (arith, p)) g)
                      (λ g.
                        read_back-Finds fuel before t (omega (arith, f, positive))
                          (omega (arith, p)) g)))
          ]

    from_end-Finds :
        (s : Log)
        → Finds (length content) (read_back read (suc (length content)) (length content) [] s)
    from_end-Finds s =
        let all = drop_all (length content) content (omega arith) in
        subst
          (λ b. Finds (length content) (read_back read (suc (length content)) (length content) b s))
          all
          (read_back-Finds (suc (length content)) (length content) s (omega arith) (omega arith) (
            subst (λ b. line_of (length content) b ≡ none) (sym all)
              (line_of-nil (length content))))

    abbrev pub FindsLast : Res (Option (List ℕ)) × Log → Type 0
    FindsLast (ok (some line), t) = IsLastLine content line
    FindsLast (ok none, t) = (content ≡ [])
    FindsLast (throw e, t) = (length content ≤ max_last_record_bytes → AreBreaks content)

    -- In a file that does not change while it is read, the line that is found backwards in chunks,
    -- however they cut it, is the last line that is not empty: it stands at the start of the file or
    -- after a newline, has no newline in it, ends in a byte that is no line break, and only line
    -- breaks follow it. No line is only answered of an empty file, and a file of at most 8 MiB is
    -- only refused where it has nothing but line breaks. The rounds that the model allows suffice.
    pub read_last_non_empty_line-FindsLast :
        (s : Log) → FindsLast (read_last_non_empty_line read (length content) s)
    unfolding read_last_non_empty_line
    read_last_non_empty_line-FindsLast s = elim (Bool-cases (length content == 0)) [
      | inl e ↦ rw e (empty content (ground (arith, e)))
      | inr e ↦
          rw e
            (found (read_back read (suc (length content)) (length content) [] s) (from_end-Finds s))
    ]
      where
        found :
            (p : Res (List ℕ) × Log)
            → Finds (length content) p
            → FindsLast (then_run p (λ line. pure (some line)))
        found (ok line, t) h = last_line-IsLastLine content line h
        found (throw e, t) h = λ small. last_line-AreBreaks content (h small)

        empty : (bytes : List ℕ) → length bytes ≡ 0 → bytes ≡ []
        empty [] h = refl
        empty (b ∷ bytes) h = absurd (omega (arith, h))
