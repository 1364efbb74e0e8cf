-- ===== src/Util/Command/Output.antt =====
-- What `runCommand` collects of a stream, and what its result says of it.
use codex_unlock.Base.{
  ℕ, ◌+◌, ◌-◌, ◌≤◌, min, ◌≡◌, refl, sym, ap, ◌∙◌, String, true, Option, none, some, List, [], ◌∷◌,
  ◌++◌, arith, take, concat, length, ltb, length-append, take-append, take_all, append_assoc,
  take_nil, append_nil, concat-concat_last, Bool-cases, inl, inr,
}
use codex_unlock.Util.{CommandResult}
use codex_unlock.Util.Command.{
  CommandLimits, Child, Capture, CommandState, CommandEvent, stdout_data, stderr_data, child_error,
  timeout_fired, force_kill_fired, without_pipes, child_closed, captured, settle, signal_term,
  signal_kill, terminate, fail, handle, started, deliver, run_command,
}
use codex_unlock.Util.Command.Settled.{deliver-append, deliver-result}

-- The collected bytes are the first `maximum` of those received, and the counter is their number.
pub record Collects (maximum : ℕ) (received : List ℕ) (c : Capture) : Type 0 where
  pub prefix : concat c.chunks ≡ take maximum received
  pub counted : c.bytes ≡ min (length received) maximum

take_grown :
    (m : ℕ) (received value : List ℕ) (k : ℕ)
    → k ≡ min (length received) m
    → take m (received ++ value) ≡ take m received ++ take (m - k) value
take_grown m received value k h =
    let same : m - length received ≡ m - k = omega (arith, h) in
    take-append m received value ∙ ap (λ n. take m received ++ take n value) same

captured-Collects :
    (m : ℕ) (received : List ℕ) (c : Capture) (value : List ℕ)
    → Collects m received c
    → Collects m (received ++ value) (captured c value m)
unfolding captured
captured-Collects m received c value h =
    let grown = take_grown m received value c.bytes h.counted in
    let count : min (c.bytes + length value) m ≡ min (length (received ++ value)) m =
      omega (arith, h.counted, length-append received value) in
    elim (Bool-cases (ltb 0 (m - c.bytes))) [
      | inl room ↦ rw room (record {
        prefix =
            concat-concat_last c.chunks (take (m - c.bytes) value)
            ∙ ap (λ xs. xs ++ take (m - c.bytes) value) h.prefix
            ∙ sym grown;
        counted = count;
      })
      | inr full ↦
          let none_left : m - c.bytes ≡ 0 = ground (arith, full) in
          rw full (record {
            prefix =
                h.prefix
                ∙ sym (append_nil (take m received))
                ∙ ap (λ n. take m received ++ take n value) (sym none_left)
                ∙ sym grown;
            counted = count;
          })
    ]

abbrev pub stdout_of : List CommandEvent → List ℕ
stdout_of [] = []
stdout_of (stdout_data chunk ∷ es) = chunk ++ stdout_of es
stdout_of (_ ∷ es) = stdout_of es

abbrev pub stderr_of : List CommandEvent → List ℕ
stderr_of [] = []
stderr_of (stderr_data chunk ∷ es) = chunk ++ stderr_of es
stderr_of (_ ∷ es) = stderr_of es

module _ (decode : List ℕ → String) (show_number : ℕ → String) (child : Child)
    (limits : CommandLimits) where
  -- Both streams are collected up to their limits, and a stream that exceeded its limit is a
  -- failure.
  record IsCollected (out err : List ℕ) (s : CommandState) : Type 0 where
    stdout : Collects limits.max_stdout_bytes out s.stdout
    stderr : Collects limits.max_stderr_bytes err s.stderr
    complete :
        s.failure ≡ none
        → (length out ≤ limits.max_stdout_bytes) × (length err ≤ limits.max_stderr_bytes)

  abbrev received_out : CommandEvent → List ℕ → List ℕ
  received_out (stdout_data chunk) out = out ++ chunk
  received_out _ out = out

  abbrev received_err : CommandEvent → List ℕ → List ℕ
  received_err (stderr_data chunk) err = err ++ chunk
  received_err _ err = err

  handle-IsCollected :
      (e : CommandEvent) (out err : List ℕ) (s : CommandState)
      → child.has_pipes ≡ true
      → IsCollected out err s
      → IsCollected
          (received_out e out)
          (received_err e err)
          (handle decode show_number child limits e s)
  unfolding handle settle fail terminate signal_term signal_kill
  handle-IsCollected (stdout_data chunk) out err s p h =
      let grown = captured-Collects limits.max_stdout_bytes out s.stdout chunk h.stdout in
      ground (arith, p, grown, h.stdout.counted, h.stderr, h.complete, length-append out chunk)
  handle-IsCollected (stderr_data chunk) out err s p h =
      let grown = captured-Collects limits.max_stderr_bytes err s.stderr chunk h.stderr in
      ground (arith, p, grown, h.stderr.counted, h.stdout, h.complete, length-append err chunk)
  handle-IsCollected (child_error e) out err s p h = ground (arith, h, h.complete)
  handle-IsCollected timeout_fired out err s p h = ground (arith, h, h.complete)
  handle-IsCollected force_kill_fired out err s p h = ground (arith, h, h.complete)
  handle-IsCollected without_pipes out err s p h = ground (arith, h, h.complete)
  handle-IsCollected (child_closed status) out err s p h = ground (arith, h, h.complete)

  deliver-IsCollected :
      (es : List CommandEvent) (out err : List ℕ) (s : CommandState)
      → child.has_pipes ≡ true
      → IsCollected out err s
      → IsCollected
          (out ++ stdout_of es)
          (err ++ stderr_of es)
          (deliver decode show_number child limits es s)
  unfolding deliver
  deliver-IsCollected [] out err s p h = rw (append_nil out, append_nil err) h
  deliver-IsCollected (e ∷ es) out err s p h =
      let next =
        deliver-IsCollected es (received_out e out) (received_err e err)
          (handle decode show_number child limits e s) p (handle-IsCollected e out err s p h) in
      by_event e next
    where
      by_event :
          (e : CommandEvent)
          → IsCollected (received_out e out ++ stdout_of es) (received_err e err ++ stderr_of es) (
              deliver decode show_number child limits es
                (handle decode show_number child limits e s))
          → IsCollected (out ++ stdout_of (e ∷ es)) (err ++ stderr_of (e ∷ es)) (
              deliver decode show_number child limits es
                (handle decode show_number child limits e s))
      by_event (stdout_data chunk) k = rw⁻¹ (append_assoc out chunk (stdout_of es)) k
      by_event (stderr_data chunk) k = rw⁻¹ (append_assoc err chunk (stderr_of es)) k
      by_event (child_error x) k = k
      by_event timeout_fired k = k
      by_event force_kill_fired k = k
      by_event without_pipes k = k
      by_event (child_closed status) k = k

  -- What a settled result says of the events before its settlement.
  pub record Reports (before : List CommandEvent) (status : Option ℕ) (r : CommandResult)
      : Type 0 where
    pub status_kept : r.status ≡ status
    pub out : r.stdout ≡ decode (take limits.max_stdout_bytes (stdout_of before))
    pub err : r.stderr ≡ decode (take limits.max_stderr_bytes (stderr_of before))
    pub complete :
        r.failure ≡ none
        → (r.stdout ≡ decode (stdout_of before)) × (r.stderr ≡ decode (stderr_of before))

  closed-Reports :
      (before : List CommandEvent) (status : Option ℕ) (s : CommandState)
      → child.has_pipes ≡ true
      → s.result ≡ none
      → IsCollected (stdout_of before) (stderr_of before) s
      → (r : CommandResult) × ((handle decode show_number child limits
            (child_closed status)
            s).result
          ≡ some r)
        × Reports before status r
  unfolding handle settle
  closed-Reports before status s p n h =
      let out = ap decode h.stdout.prefix in
      let err = ap decode h.stderr.prefix in
      (
        record {
          status = status;
          stdout = decode (concat s.stdout.chunks);
          stderr = decode (concat s.stderr.chunks);
          error = s.spawn_failure;
          failure = s.failure;
        },
        rw (p, n) refl,
        record {
          status_kept = refl;
          out = out;
          err = err;
          complete = λ none_failed.
              let (o, e) = h.complete none_failed in
              (
                out ∙ ap decode (take_all limits.max_stdout_bytes (stdout_of before) o),
                err ∙ ap decode (take_all limits.max_stderr_bytes (stderr_of before) e),
              );
        },
      )

  started-IsCollected :
      child.has_pipes ≡ true → IsCollected [] [] (started decode show_number child limits)
  unfolding started
  started-IsCollected p = rw p (record {
    stdout = record { prefix = sym (take_nil limits.max_stdout_bytes); counted = omega arith };
    stderr = record { prefix = sym (take_nil limits.max_stderr_bytes); counted = omega arith };
    complete = λ f. (omega arith, omega arith);
  })

  -- A child with pipes that closes before anything else settled the promise gives one result,
  -- which later events do not change: its texts are those of the bytes received before, cut at the
  -- limits, and where it carries no failure they are the complete output.
  pub run_command-Reports :
      (before after : List CommandEvent) (status : Option ℕ)
      → child.has_pipes ≡ true
      → (run_command decode show_number child limits before).result ≡ none
      → (r : CommandResult) × ((run_command decode show_number child limits
            (before ++ child_closed status ∷ after)).result
          ≡ some r)
        × Reports before status r
  unfolding run_command deliver
  run_command-Reports before after status p n =
      let start = started decode show_number child limits in
      let s = deliver decode show_number child limits before start in
      let (r, settled, reports) =
        closed-Reports before status s p n
          (deliver-IsCollected before [] [] start p (started-IsCollected p)) in
      (
        r,
        rw
            (deliver-append decode show_number child limits before (child_closed status ∷ after)
              start)
            (closed_result after s r settled),
        reports,
      )
    where
      closed_result :
          (after : List CommandEvent) (s : CommandState) (r : CommandResult)
          → (handle decode show_number child limits (child_closed status) s).result ≡ some r
          → (deliver decode show_number child limits (child_closed status ∷ after) s).result
            ≡ some r
      closed_result after s r e =
          deliver-result decode show_number child limits after
            (handle decode show_number child limits (child_closed status) s) r e
