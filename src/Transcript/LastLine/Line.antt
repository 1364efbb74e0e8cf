-- ===== src/Transcript/LastLine/Line.antt =====
-- What the last line of a file is that is not empty, apart from how it is read.
use codex_unlock.Base.{
  ℕ, ◌≡◌, ◌≢◌, refl, ap, subst, ◌∙◌, sym, true, false, ◌&&◌, ◌||◌, Option, none, some, List, [],
  ◌∷◌, ◌++◌, ◌==◌, nat_eq, arith, if◌then◌else◌, ◌⊎◌, inl, inr, Bool-cases, append_assoc,
}
use codex_unlock.Transcript.LastLine.{is_nil, strip_end, after_newline, whole_line, line_of}

-- Carriage returns and newlines alone.
abbrev pub AreBreaks : List ℕ → Type 0
AreBreaks [] = Unit {0}
AreBreaks (c ∷ cs) = ((c ≡ 10) ⊎ (c ≡ 13)) × AreBreaks cs

abbrev pub HasNoNewline : List ℕ → Type 0
HasNoNewline [] = Unit {0}
HasNoNewline (c ∷ cs) = (c ≢ 10) × HasNoNewline cs

-- There is a last byte, and it is neither a newline nor a carriage return.
abbrev pub EndsInText : List ℕ → Type 0
EndsInText [] = ⊥
EndsInText (c ∷ []) = (c ≢ 10) × (c ≢ 13)
EndsInText (c ∷ d ∷ cs) = EndsInText (d ∷ cs)

-- The line stands at the start of the file or after a newline, has none in it, ends in a byte that
-- is no line break, and only line breaks follow it.
pub record IsLastLine (content line : List ℕ) : Type 0 where
  pub before : List ℕ
  pub breaks : List ℕ
  pub parts : content ≡ before ++ (line ++ breaks)
  pub starts : (before ≡ []) ⊎ ((b : List ℕ) × (before ≡ b ++ (10 ∷ [])))
  pub one_line : HasNoNewline line
  pub text : EndsInText line
  pub only_breaks : AreBreaks breaks

record IsStripped (buffer stripped : List ℕ) : Type 0 where
  breaks : List ℕ
  parts : buffer ≡ stripped ++ breaks
  only_breaks : AreBreaks breaks
  text : (stripped ≡ []) ⊎ EndsInText stripped

add_byte :
    (c : ℕ) (cs rest : List ℕ)
    → IsStripped cs rest
    → IsStripped (c ∷ cs) (if is_nil rest && (c == 10 || c == 13) then [] else c ∷ rest)
add_byte c cs (d ∷ rest) h = record {
  breaks = h.breaks;
  parts = ap (λ l. c ∷ l) h.parts;
  only_breaks = h.only_breaks;
  text = ground (arith, h.text);
}
add_byte c cs [] h = elim (Bool-cases (c == 10 || c == 13)) [
  | inl e ↦ rw e (record {
    breaks = c ∷ h.breaks;
    parts = ap (λ l. c ∷ l) h.parts;
    only_breaks = (ground (arith, e), h.only_breaks);
    text = inl refl;
  })
  | inr e ↦ rw e (record {
    breaks = h.breaks;
    parts = ap (λ l. c ∷ l) h.parts;
    only_breaks = h.only_breaks;
    text = inr (ground (arith, e));
  })
]

strip_end-IsStripped : (buffer : List ℕ) → IsStripped buffer (strip_end buffer)
unfolding strip_end
strip_end-IsStripped [] = record { breaks = []; parts = refl; only_breaks = tt; text = inl refl }
strip_end-IsStripped (c ∷ cs) = add_byte c cs (strip_end cs) (strip_end-IsStripped cs)

abbrev IsAfter : List ℕ → Option (List ℕ) → Type 0
IsAfter buffer none = HasNoNewline buffer
IsAfter buffer (some line) =
    (before : List ℕ) × (buffer ≡ before ++ (10 ∷ line)) × HasNoNewline line

with_byte-IsAfter :
    (c : ℕ) (cs : List ℕ) (o : Option (List ℕ))
    → IsAfter cs o
    → IsAfter (c ∷ cs) (elim o as (λ _. Option (List ℕ)) [
      | some line ↦ some line
      | none ↦ if c == 10 then some cs else none
    ])
with_byte-IsAfter c cs (some line) (before, parts, h) = (c ∷ before, ap (λ l. c ∷ l) parts, h)
with_byte-IsAfter c cs none h = elim (Bool-cases (c == 10)) [
  | inl e ↦ rw e ([], ap (λ k. k ∷ cs) {x = c} {y = 10} (ground (arith, e)), h)
  | inr e ↦ rw e (ground (arith, e), h)
]

after_newline-IsAfter : (buffer : List ℕ) → IsAfter buffer (after_newline buffer)
unfolding after_newline
after_newline-IsAfter [] = tt
after_newline-IsAfter (c ∷ cs) =
    with_byte-IsAfter c cs (after_newline cs) (after_newline-IsAfter cs)

EndsInText-after : (before line : List ℕ) → EndsInText (before ++ (10 ∷ line)) → EndsInText line
EndsInText-after [] [] h = absurd (h.0 refl)
EndsInText-after [] (c ∷ line) h = h
EndsInText-after (b ∷ []) line h = EndsInText-after [] line h
EndsInText-after (b ∷ c ∷ before) line h = EndsInText-after (c ∷ before) line h

module _ (content stripped : List ℕ) (h : IsStripped content stripped) where
  whole-IsLastLine :
      (o : Option (List ℕ)) (line : List ℕ)
      → EndsInText stripped
      → IsAfter stripped o
      → whole_line 0 stripped o ≡ some line
      → IsLastLine content line
  whole-IsLastLine none line text after e =
      subst (IsLastLine content) {x = stripped} {y = line} (cc e) (record {
        before = [];
        breaks = h.breaks;
        parts = h.parts;
        starts = inl refl;
        one_line = after;
        text = text;
        only_breaks = h.only_breaks;
      })
  whole-IsLastLine (some l) line text (before, parts, one) e =
      subst (IsLastLine content) {x = l} {y = line} (cc e) (record {
        before = before ++ (10 ∷ []);
        breaks = h.breaks;
        parts =
            h.parts
            ∙ ap (λ k. k ++ h.breaks) parts
            ∙ append_assoc before (10 ∷ l) h.breaks
            ∙ sym (append_assoc before (10 ∷ []) (l ++ h.breaks));
        starts = inr (before, refl);
        one_line = one;
        text = EndsInText-after before l (subst EndsInText {x = stripped} parts text);
        only_breaks = h.only_breaks;
      })

  whole-ne-none : (o : Option (List ℕ)) → whole_line 0 stripped o ≡ none → ⊥
  whole-ne-none none e = cc e
  whole-ne-none (some l) e = cc e

nil_of : (xs : List ℕ) → is_nil xs ≡ true → xs ≡ []
nil_of [] h = refl
nil_of (x ∷ xs) h = cc

text_of : (xs : List ℕ) → (xs ≡ []) ⊎ EndsInText xs → is_nil xs ≡ false → EndsInText xs
text_of [] h e = cc
text_of (x ∷ xs) (inl q) e = cc
text_of (x ∷ xs) (inr t) e = t

-- The line that the whole file shows is its last line that is not empty.
pub line_of-IsLastLine :
    (content line : List ℕ) → line_of 0 content ≡ some line → IsLastLine content line
unfolding line_of
line_of-IsLastLine content line h = elim (Bool-cases (is_nil (strip_end content))) [
  | inl e ↦ cc (rw e at h)
  | inr e ↦
      let s = strip_end-IsStripped content in
      whole-IsLastLine content (strip_end content) s (after_newline (strip_end content)) line
        (text_of (strip_end content) s.text e) (after_newline-IsAfter (strip_end content))
        (rw e at h)
]

-- Where the whole file shows no line, it has line breaks alone.
pub line_of-AreBreaks : (content : List ℕ) → line_of 0 content ≡ none → AreBreaks content
unfolding line_of
line_of-AreBreaks content h = elim (Bool-cases (is_nil (strip_end content))) [
  | inl e ↦
      let s = strip_end-IsStripped content in
      subst AreBreaks {x = s.breaks} {y = content}
        (sym (s.parts ∙ ap (λ k. k ++ s.breaks) (nil_of (strip_end content) e))) s.only_breaks
  | inr e ↦
      let s = strip_end-IsStripped content in
      absurd (
        whole-ne-none content (strip_end content) s (after_newline (strip_end content)) (rw e at h))
]
