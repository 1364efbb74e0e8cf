-- ===== src/Process/Arguments/Laws.antt =====
-- A command line whose arguments count as evidence was read to its end by the known grammar.
use codex_unlock.Base.{
  eq_of_test, ◌≡◌, ◌≢◌, ◌∙◌, sym, ap, refl, String, Bool, true, false, not, ◌&&◌, ◌||◌, Option,
  none, some, List, [], ◌∷◌, arith, inl, inr, beq-false, All, includes, ◌==◌, string_eq, nat_eq,
  if◌then◌else◌, ◌⊎◌,
}
use text.Mathlib.Text.{starts_with}
use codex_unlock.Text.{starts_with_dash, has_space, trim, join_spaces}
use codex_unlock.Process.Arguments.{
  Verdict, shared, accepted, refused, ModeState, Step, stop, next, value_of, initial, option_of,
  is_remote, takes_value, is_flag, take_value, read_option, option_value, read_operand, read_first,
  read_token, read_arguments, read_value, attached, is_exec, is_resumed, classify_codex_mode,
  classify_from, codex_arguments, present, ArgumentEvidence, chosen_mode, is_service, program_of,
  unverified, flattened_shared_service, reconcile_arguments, verdict_evidence, read_mode,
}
use codex_unlock.Process.Arguments.Grammar.{
  Mode, root_value_options, root_flags, exec_value_options, exec_flags, resume_flags, shared_modes,
  other_modes,
}

-- An option of the grammar, of any mode.
abbrev pub is_known : String → Bool
is_known option =
    includes root_value_options option
    || includes exec_value_options option
    || includes root_flags option
    || includes exec_flags option
    || includes resume_flags option

-- The arguments that can be options: those before the first "--".
abbrev pub before_literal : List String → List String
before_literal [] = []
before_literal (token ∷ rest) =
    let more = before_literal rest in if token == "--" then [] else token ∷ more

-- What looks like an option is one of the grammar, and not a remote one.
abbrev pub IsUnderstood : String → Type 0
IsUnderstood token =
    (starts_with_dash token && not (token == "-")) ≡ true
    → (is_remote (option_of token) ≡ false) × (is_known (option_of token) ≡ true)

-- Where the loop goes on, in a state with `P`.
abbrev IsFinal : Verdict → Type 0
IsFinal accepted = ⊥
IsFinal shared = Unit {0}
IsFinal (refused error) = Unit {0}

abbrev Leads : (ModeState → Type 0) → Step → Type 0
Leads P (stop verdict) = IsFinal verdict
Leads P (next t) = P t
Leads P (value_of option t) = P t

abbrev KeepsLiteral : ModeState → ModeState → Type 0
KeepsLiteral s t = t.literal_operands ≡ s.literal_operands

takes_value-is_known :
    (mode : Mode) (option : String) → takes_value mode option ≡ true → is_known option ≡ true
takes_value-is_known mode option h =
    widen (is_exec mode) (includes root_value_options option) (includes exec_value_options option) _
      _ _ h
  where
    widen : (e a b c d f : Bool) → (a || (e && b)) ≡ true → (a || b || c || d || f) ≡ true
    widen e a b c d f h = ground arith

is_flag-is_known :
    (mode : Mode) (option : String) → is_flag mode option ≡ true → is_known option ≡ true
is_flag-is_known mode option h =
    widen (is_exec mode) (is_resumed mode) (includes root_value_options option)
      (includes exec_value_options option) _ _ _ h
  where
    widen :
        (e r a b c d f : Bool) → (c || (e && d) || (r && f)) ≡ true → (a || b || c || d || f) ≡ true
    widen e r a b c d f h = ground arith

take_value-Leads :
    (option value : String) (s : ModeState)
    → Leads (λ t. KeepsLiteral s t × (starts_with_dash value ≡ false)) (take_value option value s)
unfolding take_value
take_value-Leads option value s = ground arith

read_operand-Leads :
    (token : String) (s : ModeState) → Leads (KeepsLiteral s) (read_operand token s)
unfolding read_operand
read_operand-Leads token s = ground arith

read_mode-Leads :
    (token : String) (s : ModeState) (mode : Option Mode)
    → Leads (KeepsLiteral s) (read_mode token s mode)
read_mode-Leads token s none = read_operand-Leads token s
read_mode-Leads token s (some mode) = refl

-- Four tests, of which the first three stop.
tested-Leads :
    (P : ModeState → Type 0) (a b c l : Bool) (v w : String) (x y : Step)
    → Leads P x
    → Leads P y
    → Leads P (
        if a
        then stop shared
        else if b
        then stop (refused v)
        else if c
        then stop (refused w)
        else (if l then x else y))
tested-Leads P true b c l v w x y h g = tt
tested-Leads P false true c l v w x y h g = tt
tested-Leads P false false true l v w x y h g = tt
tested-Leads P false false false true v w x y h g = h
tested-Leads P false false false false v w x y h g = g

read_first-Leads : (token : String) (s : ModeState) → Leads (KeepsLiteral s) (read_first token s)
unfolding read_first
read_first-Leads token s =
    let chosen = record s { mode_chosen = true } in
    tested-Leads (KeepsLiteral s) (includes shared_modes token) (includes other_modes token)
      (not (has_space token) && is_service token) s.literal_operands "unsupported execution mode"
      "unverified service-like execution mode" (read_operand token chosen)
      (read_mode token chosen (chosen_mode token)) (read_operand-Leads token chosen)
      (read_mode-Leads token chosen (chosen_mode token))

option_value-Leads :
    (option : String) (value : Option String) (s : ModeState)
    → Leads (KeepsLiteral s) (option_value option value s)
option_value-Leads option none s = refl
option_value-Leads option (some value) s = weaken _ (take_value-Leads option value s)
  where
    weaken :
        (step : Step)
        → Leads (λ t. KeepsLiteral s t × (starts_with_dash value ≡ false)) step
        → Leads (KeepsLiteral s) step
    weaken (stop verdict) h = h
    weaken (next t) h = h.0
    weaken (value_of o t) h = h.0

read_option-Leads :
    (token : String) (s : ModeState)
    → Leads
        (λ t.
          KeepsLiteral s t
          × (is_remote (option_of token) ≡ false)
          × (is_known (option_of token) ≡ true))
        (read_option token s)
unfolding read_option
read_option-Leads token s =
    by_tests (is_remote (option_of token)) (takes_value s.mode (option_of token))
      (token == option_of token) (is_flag s.mode (option_of token))
      (takes_value-is_known s.mode (option_of token)) (is_flag-is_known s.mode (option_of token))
      (option_value (option_of token) (attached token) s)
      (option_value-Leads (option_of token) (attached token) s)
  where
    by_tests :
        (remote value same flag : Bool) {known : Bool}
        → (value ≡ true → known ≡ true)
        → (flag ≡ true → known ≡ true)
        → (x : Step) → Leads (KeepsLiteral s) x
        → Leads
            (λ t. KeepsLiteral s t × (remote ≡ false) × (known ≡ true))
            (if remote
              then stop shared
              else if value
              then x
              else if same && flag
              then next s
              else stop (refused "unsupported option or option form"))
    by_tests true value same flag v f x h = tt
    by_tests false true same flag v f (stop verdict) h = h
    by_tests false true same flag v f (next t) h = (h, refl, v refl)
    by_tests false true same flag v f (value_of o t) h = (h, refl, v refl)
    by_tests false false true true v f x h = (refl, refl, f refl)
    by_tests false false true false v f x h = tt
    by_tests false false false flag v f x h = tt

-- What an argument is when the loop goes on after it.
abbrev WentOn : String → ModeState → Type 0
WentOn token t = (token ≡ "--") ⊎ (IsUnderstood token × (t.literal_operands ≡ false))

Leads-map :
    {P Q : ModeState → Type 0} (step : Step)
    → ((t : ModeState) → P t → Q t)
    → Leads P step
    → Leads Q step
Leads-map (stop verdict) f h = h
Leads-map (next t) f h = f t h
Leads-map (value_of o t) f h = f t h

read_token-WentOn :
    (token : String) (s : ModeState)
    → s.literal_operands ≡ false
    → Leads (WentOn token) (read_token token s)
unfolding read_token
read_token-WentOn token s h =
    by_tests s.literal_operands h (token == "--") (starts_with_dash token) (token == "-")
      s.mode_chosen (eq_of_test token "--") (read_option token s) (read_operand token s)
      (read_first token s) (read_option-Leads token s) (read_operand-Leads token s)
      (read_first-Leads token s)
  where
    by_tests :
        (literal : Bool)
        → literal ≡ false
        → (double dash single chosen : Bool) → (double ≡ true → token ≡ "--")
        → (x y z : Step)
        → Leads
            (λ t.
              (t.literal_operands ≡ literal)
              × (is_remote (option_of token) ≡ false)
              × (is_known (option_of token) ≡ true))
            x
        → Leads (λ t. t.literal_operands ≡ literal) y
        → Leads (λ t. t.literal_operands ≡ literal) z
        → Leads
            (λ t.
              (token ≡ "--")
              ⊎ (((dash && not single) ≡ true
                    → (is_remote (option_of token) ≡ false) × (is_known (option_of token) ≡ true))
                  × (t.literal_operands ≡ false)))
            (if not literal && double
              then next (record s { literal_operands = true })
              else if not literal && dash && not single
              then x
              else (if chosen then y else z))
    by_tests true e double dash single chosen d x y z p q r = cc
    by_tests false e true dash single chosen d x y z p q r = inl (d refl)
    by_tests false e false true false chosen d x y z p q r =
        Leads-map x (λ t k. inr (λ _. (k.1, k.2), k.0)) p
    by_tests false e false true true true d x y z p q r = Leads-map y (λ t k. inr (λ z. cc, k)) q
    by_tests false e false true true false d x y z p q r = Leads-map z (λ t k. inr (λ z. cc, k)) r
    by_tests false e false false single true d x y z p q r = Leads-map y (λ t k. inr (λ z. cc, k)) q
    by_tests false e false false single false d x y z p q r =
        Leads-map z (λ t k. inr (λ z. cc, k)) r

-- The loop was right about the rest, in each of its two states.
abbrev Rest : List String → Type 0
Rest rest =
    ((t : ModeState)
      → t.literal_operands ≡ false
      → read_arguments rest t ≡ accepted
      → All IsUnderstood (before_literal rest))
    × ((option : String) (t : ModeState)
        → t.literal_operands ≡ false
        → read_value rest option t ≡ accepted
        → All IsUnderstood (before_literal rest))

abbrev continued : List String → Step → Verdict
continued rest step = elim step [
  | stop verdict ↦ verdict
  | next t ↦ read_arguments rest t
  | value_of option t ↦ read_value rest option t
]

went_on :
    (token : String) (rest : List String) (double : Bool)
    → (token == "--") ≡ double
    → (t : ModeState) → WentOn token t
    → (t.literal_operands ≡ false → All IsUnderstood (before_literal rest))
    → All IsUnderstood (if double then [] else token ∷ before_literal rest)
went_on token rest true e t h more = tt
went_on token rest false e t (inl same) more = absurd (beq-false token "--" e same)
went_on token rest false e t (inr (understood, literal)) more = (understood, more literal)

token_step :
    (token : String) (rest : List String) (step : Step)
    → Leads (WentOn token) step
    → Rest rest
    → continued rest step ≡ accepted
    → All IsUnderstood (if token == "--" then [] else token ∷ before_literal rest)
token_step token rest (stop shared) h more e = cc
token_step token rest (stop (refused error)) h more e = cc
token_step token rest (stop accepted) h more e = absurd h
token_step token rest (next t) h more e =
    went_on token rest (token == "--") refl t h (λ l. more.0 t l e)
token_step token rest (value_of option t) h more e =
    went_on token rest (token == "--") refl t h (λ l. more.1 option t l e)

value_step :
    (value : String) (rest : List String) (s : ModeState) (step : Step)
    → s.literal_operands ≡ false
    → Leads (λ t. KeepsLiteral s t × (starts_with_dash value ≡ false)) step
    → Rest rest
    → continued rest step ≡ accepted
    → All IsUnderstood (if value == "--" then [] else value ∷ before_literal rest)
value_step value rest s (stop shared) l h more e = cc
value_step value rest s (stop (refused error)) l h more e = cc
value_step value rest s (stop accepted) l h more e = absurd h
value_step value rest s (next t) l h more e =
    went_on value rest (value == "--") refl t (inr (λ d. cc (h.1), h.0 ∙ l)) (λ k. more.0 t k e)
value_step value rest s (value_of option t) l h more e =
    went_on value rest (value == "--") refl t (inr (λ d. cc (h.1), h.0 ∙ l))
      (λ k. more.1 option t k e)

read-Rest : (argv : List String) → Rest argv
unfolding read_arguments
read-Rest [] = (λ t l e. tt, λ option t l e. tt)
read-Rest (token ∷ rest) = (
  λ t l e.
      token_step token rest (read_token token t) (read_token-WentOn token t l) (read-Rest rest) e,
  λ option t l e.
      value_step token rest t (take_value option token t) l (take_value-Leads option token t)
        (read-Rest rest) e,
)

module _ (base_of : String → String) (lower : String → String) where
  -- The arguments behind a supported executable.
  abbrev Understood : Option (List String) → Type 0
  Understood none = ⊥
  Understood (some rest) = All IsUnderstood (before_literal rest)

  classify_from-Understood :
      (argv : List String) (arguments : Option (List String))
      → classify_from base_of lower argv arguments ≡ accepted
      → Understood arguments
  classify_from-Understood argv none h = cc
  classify_from-Understood argv (some rest) h =
      by_service (is_service (base_of (program_of base_of lower argv))) h
    where
      by_service :
          (service : Bool)
          → (if service then shared else read_arguments rest initial) ≡ accepted
          → All IsUnderstood (before_literal rest)
      by_service true k = cc
      by_service false k = (read-Rest rest).0 initial refl k

  -- Evidence that counts: ps printed exactly the kernel's arguments, and these are understood.
  pub record IsVerified (ps : String) (argv : List String) : Type 0 where
    pub agrees : trim (join_spaces argv) ≡ ps
    pub understood : Understood (codex_arguments base_of lower argv)

  verdict-accepted :
      (ps : String) (service : Bool) (v : Verdict)
      → (verdict_evidence base_of lower ps service v).arguments ≢ none
      → (verdict_evidence base_of lower ps service v).is_shared_service ≡ false
      → v ≡ accepted
  verdict-accepted ps service shared h k = cc
  verdict-accepted ps service accepted h k = refl
  verdict-accepted ps service (refused error) h k = absurd (h refl)

  tested-IsVerified :
      (ps : String) (argv : List String) (service shorter same : Bool)
      → (trim (join_spaces argv) == ps) ≡ same
      → (e : ArgumentEvidence)
      → e ≡ (
          if shorter
          then unverified "arguments_truncated:ps output is shorter than the kernel argv" service
          else if not same
          then unverified "arguments_unverified:ps output disagrees with the kernel argv" service
          else verdict_evidence base_of lower ps service (classify_codex_mode base_of lower argv))
      → e.arguments ≢ none
      → e.is_shared_service ≡ false
      → IsVerified ps argv
  unfolding classify_codex_mode
  tested-IsVerified ps argv service true same q e z h k = absurd (h (ap (λ x. x.arguments) z))
  tested-IsVerified ps argv service false false q e z h k = absurd (h (ap (λ x. x.arguments) z))
  tested-IsVerified ps argv service false true q e z h k =
      let read =
        verdict-accepted ps service (classify_codex_mode base_of lower argv)
          (λ n. h (ap (λ x. x.arguments) z ∙ n)) (ap (λ x. x.is_shared_service) (sym z) ∙ k) in
      record {
        agrees = eq_of_test (trim (join_spaces argv)) ps q;
        understood = classify_from-Understood argv (codex_arguments base_of lower argv) read;
      }

  -- Where the kernel's arguments are known, arguments only count as evidence of an owner that is
  -- no shared service when ps printed exactly these arguments, behind a supported executable, and
  -- each of them before a first "--" that looks like an option is one of the known grammar and
  -- none of the remote options.
  pub reconcile_arguments-IsVerified :
      (ps : String) (argv : List String)
      → (reconcile_arguments base_of lower (some ps) (some (present argv))).arguments ≢ none
      → (reconcile_arguments base_of lower (some ps) (some (present argv))).is_shared_service
        ≡ false
      → IsVerified ps argv
  unfolding reconcile_arguments
  reconcile_arguments-IsVerified ps argv h k =
      tested-IsVerified ps argv
        (flattened_shared_service ps || flattened_shared_service (join_spaces argv))
        (starts_with (join_spaces argv) ps && not (join_spaces argv == ps))
        (trim (join_spaces argv) == ps) refl _ refl h k
