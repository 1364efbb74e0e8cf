-- ===== src/Process/Observation/Laws.antt =====
-- What an observed exit rests on.
use codex_unlock.Base.{
  eq_of_test, ℕ, nat_eq, ◌≡◌, ◌≢◌, refl, String, Bool, true, false, not, ◌||◌, Option, none, some,
  List, [], ◌∷◌, ◌⊎◌, inl, inr, Bool-cases, ◌==◌, string_eq, option_eq, option_beq_iff, sym, ap,
  ◌∙◌, ◌&&◌, if◌then◌else◌, arith,
}
use codex_unlock.Types.{Presence, ProcessStartObservation, is_present}
use codex_unlock.Util.{CommandResult, Error, error_text, command_failure_text, ◌<>◌}
use codex_unlock.Text.{trim, starts_with}
use codex_unlock.Io.{Env, M, Log, Res, ok, throw, pure, attempt_run, then_run, observed}
use codex_unlock.Io.Answers.{Ran}
use codex_unlock.Io.Calm.{
  Returned, Holds, start-Holds, Holds-observed, chain-Holds, Returned-map, IsCalm, calm-if,
  calm-pure, calm-attempt, calm-bind, calm-observe,
}
use codex_unlock.Io.Total.{calm_total}
use codex_unlock.Process.Exit.{original_process_exited, exited_by}
use codex_unlock.Process.Diagnostics.{ps, run_diagnostic}
use codex_unlock.Process.Diagnostics.Laws.{run_diagnostic-Calm, run_diagnostic-Total}
use codex_unlock.Process.Observation.{
  Texts, confirm_absence, process_start_time, process_start_time_from_command,
  process_exit_observation, process_exit_observation_from_command, unknown_start, is_absent,
  match_state, start_time_of, exit_of_match, has_failure,
}

module _ (env : Env) (access : Log → String → Res (Unit {0})) (found : Option (Option String))
    (start : String) (pid : ℕ) where
  abbrev pub run : List String → M CommandResult
  run args = run_diagnostic env access found ps args

  -- `ps` ended with success and printed a state and a start time for the id, and the start time is
  -- another one than `start` or the state begins with "Z".
  pub record PrintedGone : Type 0 where
    pub result : CommandResult
    pub printed :
        Ran (run ("-ww" ∷ "-p" ∷ env.show_number pid ∷ "-o" ∷ "stat=,lstart=" ∷ [])) result
    pub succeeded : result.status ≡ some 0
    pub state : String
    pub rest : String
    pub matched : match_state (trim result.stdout) ≡ some (state, rest)
    pub gone : (trim rest ≢ start) ⊎ (starts_with "Z" state ≡ true)

  -- The kernel answered that there is no such process, or `ps` printed that it is another one or a
  -- zombie.
  abbrev pub IsGone : Type 0
  IsGone =
      ((s : Log) × (e : Error) × (env.signal_zero s pid ≡ throw e) × (e.code ≡ "ESRCH"))
      ⊎ PrintedGone

  module _ (texts : Texts) where
    abbrev Confirmed : Log → ProcessStartObservation → Log → Type 0
    Confirmed s x t = Holds 0 0 s t × (original_process_exited (some start) x ≡ some true → IsGone)

    -- What a result of `ps` that says "present" has printed.
    record IsPrinted (r : CommandResult) (o : ProcessStartObservation) : Type 0 where
      success : r.status ≡ some 0
      word : String
      date : String
      split : match_state (trim r.stdout) ≡ some (word, date)
      same_start : o.start_time ≡ some (trim date)
      same_state : o.zombie ≡ starts_with "Z" word

    -- A value of `ps` that says "present" came from a success without a failure of the call.
    abbrev IsSeen : CommandResult → ProcessStartObservation → Type 0
    IsSeen r o =
        (r.status ≡ some 0)
        × (o.start_time ≡ some (trim r.stdout))
        × (o.zombie ≡ false)
        × (has_failure texts (command_failure_text r) ≡ false)
        × ((trim r.stdout == "") ≡ false)

    start_time_of-IsSeen :
        (r : CommandResult)
        → has_failure texts (command_failure_text r) ≡ false
        → (start_time_of texts r (trim r.stdout)).status ≡ Presence.present
        → IsSeen r (start_time_of texts r (trim r.stdout))
    unfolding start_time_of
    start_time_of-IsSeen r e h = ground (arith, e, h)

    from_failure-IsSeen :
        (r : CommandResult) (f : Option String)
        → command_failure_text r ≡ f
        → (o : ProcessStartObservation)
        → o ≡ (elim f as (λ _. ProcessStartObservation) [
          | some failure ↦
              if failure == "" then start_time_of texts r (trim r.stdout) else unknown_start failure
          | none ↦ start_time_of texts r (trim r.stdout)
        ])
        → o.status ≡ Presence.present
        → IsSeen r o
    from_failure-IsSeen r none e o q h = rw q (start_time_of-IsSeen r (rw e refl) (rw q at h))
    from_failure-IsSeen r (some failure) e o q h = elim (Bool-cases (failure == "")) [
      | inl z ↦
          let k : o ≡ start_time_of texts r (trim r.stdout) = rw z at q in
          rw k (start_time_of-IsSeen r (rw (e, z) refl) (rw k at h))
      | inr z ↦ let k : o ≡ unknown_start failure = rw z at q in cc (rw k at h)
    ]

    start_time_from_command-IsSeen :
        (r : CommandResult)
        → (process_start_time_from_command texts r).status ≡ Presence.present
        → IsSeen r (process_start_time_from_command texts r)
    unfolding process_start_time_from_command
    start_time_from_command-IsSeen r h =
        from_failure-IsSeen r (command_failure_text r) refl
          (process_start_time_from_command texts r) refl h

    abbrev marked : ProcessStartObservation → Bool → ProcessStartObservation
    marked o z = if is_present o.status && z then record o { zombie = true } else o

    marked_state :
        (o : ProcessStartObservation) (z : Bool)
        → (marked o z).status ≡ Presence.present
        → (o.status ≡ Presence.present)
          × ((marked o z).start_time ≡ o.start_time)
          × (o.zombie ≡ false → (marked o z).zombie ≡ z)
    marked_state o z h = ground (arith, h)

    matched-IsPrinted :
        (r : CommandResult) (m : Option (String × String))
        → match_state (trim r.stdout) ≡ m
        → (exit_of_match texts r m).status ≡ Presence.present
        → IsPrinted r (exit_of_match texts r m)
    unfolding exit_of_match
    matched-IsPrinted r none e h = cc h
    matched-IsPrinted r (some (word, date)) e h =
        let o = process_start_time_from_command texts (record r { stdout = date }) in
        let (here, start, zombie) = marked_state o (starts_with "Z" word) h in
        let (success, time, alive, _, _) =
          start_time_from_command-IsSeen (record r { stdout = date }) here in
        record {
          success = success;
          word = word;
          date = date;
          split = e;
          same_start = start ∙ time;
          same_state = zombie alive;
        }

    exit_from_command-IsPrinted :
        (r : CommandResult)
        → (process_exit_observation_from_command texts r).status ≡ Presence.present
        → IsPrinted r (process_exit_observation_from_command texts r)
    unfolding process_exit_observation_from_command
    exit_from_command-IsPrinted r h =
        elim (Bool-cases (
          has_failure texts (command_failure_text r)
          || not (r.status == some 0)
          || trim r.stdout == "")) [
            | inr e ↦ rw e (matched-IsPrinted r (match_state (trim r.stdout)) refl (rw e at h))
            | inl e ↦
                let (success, _, _, no_failure, no_value) =
                  start_time_from_command-IsSeen r (rw e at h) in
                absurd (ground (arith, e, success, no_failure, no_value))
          ]

    exited_present :
        (o : ProcessStartObservation)
        → o.status ≡ Presence.present
        → original_process_exited (some start) o ≡ some true
        → (o.start_time ≢ some start) ⊎ (o.zombie ≡ true)
    unfolding original_process_exited exited_by
    exited_present o h k = elim (Bool-cases (o.start_time == some start)) [
      | inl e ↦ inr (cc (rw (h, e) at k))
      | inr e ↦ inl (λ q. cc ((option_beq_iff o.start_time (some start)).1 q, e))
    ]

    printed_gone :
        (r : CommandResult)
        → Ran (run ("-ww" ∷ "-p" ∷ env.show_number pid ∷ "-o" ∷ "stat=,lstart=" ∷ [])) r
        → (process_exit_observation_from_command texts r).status ≡ Presence.present
        → original_process_exited (some start) (process_exit_observation_from_command texts r)
          ≡ some true
        → IsGone
    printed_gone r ran h k =
        let o = process_exit_observation_from_command texts r in
        let p = exit_from_command-IsPrinted r h in
        inr (record {
          result = r;
          printed = ran;
          succeeded = p.success;
          state = p.word;
          rest = p.date;
          matched = p.split;
          gone = elim (exited_present o h k) [
            | inl d ↦ inl (λ e. d (p.same_start ∙ ap some e))
            | inr z ↦ inr (sym p.same_state ∙ z)
          ];
        })

    asked :
        (o : ProcessStartObservation) (s : Log) (r : Res (Unit {0}))
        → env.signal_zero s pid ≡ r
        → Returned (Confirmed s) (
            attempt_run
              (r, observed ∷ s)
              (λ u. pure (unknown_start "ps reported absence while the PID still exists"))
              (λ e. pure (
                if e.code == "ESRCH"
                then o
                else unknown_start ("could not confirm PID absence: " <> error_text e))))
    unfolding original_process_exited exited_by
    asked o s (ok u) q = (Holds-observed (start-Holds s), λ k. cc)
    asked o s (throw e) q = elim (Bool-cases (e.code == "ESRCH")) [
      | inl z ↦
          rw z (Holds-observed (start-Holds s), λ k. inl (s, e, q, eq_of_test e.code "ESRCH" z))
      | inr z ↦ rw z (Holds-observed (start-Holds s), λ k. cc)
    ]

    present_of :
        (o : ProcessStartObservation)
        → is_absent o.status ≡ false
        → original_process_exited (some start) o ≡ some true
        → o.status ≡ Presence.present
    unfolding original_process_exited exited_by
    present_of o h k = ground (arith, h, k)

    confirm_absence-IsGone :
        (o : ProcessStartObservation) (s : Log)
        → (o.status ≡ Presence.present
            → original_process_exited (some start) o ≡ some true
            → IsGone)
        → Returned (Confirmed s) (confirm_absence texts env pid o s)
    unfolding confirm_absence
    confirm_absence-IsGone o s g = elim (Bool-cases (is_absent o.status)) [
      | inr h ↦ rw (h, confirm_absence) (start-Holds s, λ k. g (present_of o h k) k)
      | inl h ↦ rw (h, confirm_absence) (asked o s (env.signal_zero s pid) refl)
    ]

    after_ps :
        (s : Log) (p : Res CommandResult × Log)
        → run ("-ww" ∷ "-p" ∷ env.show_number pid ∷ "-o" ∷ "stat=,lstart=" ∷ []) s ≡ p
        → Returned (λ r t. Holds 0 0 s t) p
        → Returned (Confirmed s) (
            then_run p
              (λ r. confirm_absence texts env pid (process_exit_observation_from_command texts r)))
    after_ps s (throw e, t) q h = absurd h
    after_ps s (ok r, t) q h =
        Returned-map (Confirmed t) (Confirmed s) _
          (confirm_absence-IsGone (process_exit_observation_from_command texts r) t
            (printed_gone r (s, t, q)))
          λ x u k. (chain-Holds h k.0, k.1)

    pub process_exit_observation-IsGone :
        (s : Log)
        → Returned
            (λ x t. Holds 0 0 s t × (original_process_exited (some start) x ≡ some true → IsGone))
            (process_exit_observation texts env run pid s)
    unfolding process_exit_observation
    process_exit_observation-IsGone s =
        let args = "-ww" ∷ "-p" ∷ env.show_number pid ∷ "-o" ∷ "stat=,lstart=" ∷ [] in
        after_ps s (run args s) refl (
          calm_total (run args) (run_diagnostic-Total env access found ps args)
            (run_diagnostic-Calm env access found ps args) s)

module _ (texts : Texts) (env : Env) where
  confirm_absence-Calm :
      (pid : ℕ) (o : ProcessStartObservation) → IsCalm (confirm_absence texts env pid o)
  unfolding confirm_absence
  confirm_absence-Calm pid o = calm-if (not (is_absent o.status)) _ _ (calm-pure o) (
      calm-attempt _ _ _ (calm-observe (λ s. env.signal_zero s pid)) (λ u. calm-pure _)
        (λ e. calm-pure _))

  module _ (run_ps : List String → M CommandResult)
      (calm : (args : List String) → IsCalm (run_ps args)) where
    pub process_start_time-Calm : (pid : ℕ) → IsCalm (process_start_time texts env run_ps pid)
    unfolding process_start_time
    process_start_time-Calm pid =
        calm-bind (run_ps ("-ww" ∷ "-p" ∷ env.show_number pid ∷ "-o" ∷ "lstart=" ∷ [])) _ (calm _)
          λ r. confirm_absence-Calm pid (process_start_time_from_command texts r)

    pub process_exit_observation-Calm :
        (pid : ℕ) → IsCalm (process_exit_observation texts env run_ps pid)
    unfolding process_exit_observation
    process_exit_observation-Calm pid =
        calm-bind (run_ps ("-ww" ∷ "-p" ∷ env.show_number pid ∷ "-o" ∷ "stat=,lstart=" ∷ [])) _
          (calm _) λ r. confirm_absence-Calm pid (process_exit_observation_from_command texts r)
