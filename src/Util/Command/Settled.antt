-- ===== src/Util/Command/Settled.antt =====
-- The promise of `runCommand` is settled once, and SIGKILL only follows SIGTERM.
use codex_unlock.Base.{ℕ, ◌≡◌, refl, String, true, some, List, [], ◌∷◌, ◌++◌, arith}
use codex_unlock.Util.{CommandResult}
use codex_unlock.Util.Command.{
  CommandLimits, Child, Signal, group_term, group_kill, child_term, child_kill, CommandState,
  CommandEvent, settle, signal_term, signal_kill, terminate, fail, handle, started, deliver,
  run_command,
}

-- Newest first: SIGTERM was sent, and so before every SIGKILL.
abbrev pub WasTerminated : List Signal → Type 0
WasTerminated [] = ⊥
WasTerminated (group_term ∷ sent) = Unit {0}
WasTerminated (child_term ∷ sent) = Unit {0}
WasTerminated (group_kill ∷ sent) = WasTerminated sent
WasTerminated (child_kill ∷ sent) = WasTerminated sent

abbrev pub IsEscalated : List Signal → Type 0
IsEscalated [] = Unit {0}
IsEscalated (group_term ∷ sent) = IsEscalated sent
IsEscalated (child_term ∷ sent) = IsEscalated sent
IsEscalated (group_kill ∷ sent) = WasTerminated sent × IsEscalated sent
IsEscalated (child_kill ∷ sent) = WasTerminated sent × IsEscalated sent

module _ (decode : List ℕ → String) (show_number : ℕ → String) (child : Child)
    (limits : CommandLimits) where
  pub deliver-append :
      (es more : List CommandEvent) (s : CommandState)
      → deliver decode show_number child limits (es ++ more) s
        ≡ deliver decode show_number child limits more
            (deliver decode show_number child limits es s)
  unfolding deliver
  deliver-append [] more s = refl
  deliver-append (e ∷ es) more s =
      deliver-append es more (handle decode show_number child limits e s)

  handle-result :
      (e : CommandEvent) (s : CommandState) (r : CommandResult)
      → s.result ≡ some r
      → (handle decode show_number child limits e s).result ≡ some r
  unfolding handle settle fail terminate signal_term signal_kill
  handle-result e s r h = ground arith

  pub deliver-result :
      (es : List CommandEvent) (s : CommandState) (r : CommandResult)
      → s.result ≡ some r
      → (deliver decode show_number child limits es s).result ≡ some r
  unfolding deliver
  deliver-result [] s r h = h
  deliver-result (e ∷ es) s r h =
      deliver-result es (handle decode show_number child limits e s) r (handle-result e s r h)

  -- The timer of SIGKILL runs only after SIGTERM.
  record IsOrdered (s : CommandState) : Type 0 where
    escalated : IsEscalated s.sent
    timed : s.force_kill_timer ≡ true → WasTerminated s.sent

  handle-IsOrdered :
      (e : CommandEvent) (s : CommandState)
      → IsOrdered s
      → IsOrdered (handle decode show_number child limits e s)
  unfolding handle settle fail terminate signal_term signal_kill
  handle-IsOrdered e s h = ground arith

  deliver-IsOrdered :
      (es : List CommandEvent) (s : CommandState)
      → IsOrdered s
      → IsOrdered (deliver decode show_number child limits es s)
  unfolding deliver
  deliver-IsOrdered [] s h = h
  deliver-IsOrdered (e ∷ es) s h =
      deliver-IsOrdered es (handle decode show_number child limits e s) (handle-IsOrdered e s h)

  started-IsOrdered : IsOrdered (started decode show_number child limits)
  unfolding started terminate signal_term
  started-IsOrdered = ground arith

  -- After any events, a settled result stays the same whatever else is delivered, and every
  -- SIGKILL was sent after a SIGTERM.
  pub run_command-IsEscalated :
      (es more : List CommandEvent)
      → IsEscalated (run_command decode show_number child limits es).sent
        × ((r : CommandResult)
            → (run_command decode show_number child limits es).result ≡ some r
            → (run_command decode show_number child limits (es ++ more)).result ≡ some r)
  unfolding run_command
  run_command-IsEscalated es more =
      let start = started decode show_number child limits in
      (
        (deliver-IsOrdered es start started-IsOrdered).escalated,
        λ r h.
            rw (deliver-append es more start)
              (deliver-result more (deliver decode show_number child limits es start) r h),
      )
