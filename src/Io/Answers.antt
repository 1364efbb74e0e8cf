-- ===== src/Io/Answers.antt =====
-- What holds of the values that a computation returns; an exception is left open.
use codex_unlock.Base.{◌≡◌, refl, Bool, true, false, if◌then◌else◌}
use codex_unlock.Util.{Error}
use codex_unlock.Io.{
  Log, Res, ok, throw, M, ◌>>=◌, pure, try_catch, then_run, or_handle, attempt, attempt_run,
}
use codex_unlock.Io.Calm.{Outcome, Returned}

-- Whatever value is returned satisfies `P`.
abbrev pub Answers {ℓ} : {A : Type ℓ} → (A → Type 0) → Res A × Log → Type 0
Answers P p = Outcome (λ a t. P a) (λ t. Unit {0}) p

pub record Yields {ℓ} {A : Type ℓ} (P : A → Type 0) (m : M A) : Type 0 where
  pub at : (s : Log) → Answers P (m s)

-- A run of `m` that ended in `a`, its logs not named.
abbrev pub Ran {ℓ} : {A : Type ℓ} → M A → A → Type ℓ
Ran m a = (s : Log) × (t : Log) × (m s ≡ (ok a, t))

module _ {ℓ κ} {A : Type ℓ} {B : Type κ} where
  then_run-Answers :
      (P : B → Type 0) (p : Res A × Log) (f : A → M B)
      → ((a : A) → Yields P (f a))
      → Answers P (then_run p f)
  then_run-Answers P (ok a, t) f h = (h a).at t
  then_run-Answers P (throw e, t) f h = tt

  pub Yields-bind :
      (P : B → Type 0) (m : M A) (f : A → M B) → ((a : A) → Yields P (f a)) → Yields P (m >>= f)
  Yields-bind P m f h = record { at = λ s. then_run-Answers P (m s) f h }

module _ {ℓ} {A : Type ℓ} where
  or_handle-Answers :
      (P : A → Type 0) (p : Res A × Log) (f : Error → M A)
      → Answers P p
      → ((e : Error) → Yields P (f e))
      → Answers P (or_handle p f)
  or_handle-Answers P (ok a, t) f h g = h
  or_handle-Answers P (throw e, t) f h g = (g e).at t

  pub Yields-catch :
      (P : A → Type 0) (m : M A) (f : Error → M A)
      → Yields P m
      → ((e : Error) → Yields P (f e))
      → Yields P (try_catch m f)
  Yields-catch P m f h g = record { at = λ s. or_handle-Answers P (m s) f (h.at s) g }

  pub Yields-pure : (P : A → Type 0) (a : A) → P a → Yields P (pure a)
  Yields-pure P a h = record { at = λ s. h }

  pub Yields-if :
      (P : A → Type 0) (b : Bool) (m n : M A)
      → (b ≡ true → Yields P m)
      → (b ≡ false → Yields P n)
      → Yields P (if b then m else n)
  Yields-if P true m n h g = h refl
  Yields-if P false m n h g = g refl

module _ {ℓ κ} {A : Type ℓ} {B : Type κ} where
  attempt_run-Answers :
      (P : B → Type 0) (p : Res A × Log) (f : A → M B) (h : Error → M B)
      → ((a : A) → Yields P (f a))
      → ((e : Error) → Yields P (h e))
      → Answers P (attempt_run p f h)
  attempt_run-Answers P (ok a, t) f h g k = (g a).at t
  attempt_run-Answers P (throw e, t) f h g k = (k e).at t

  pub Yields-attempt :
      (P : B → Type 0) (m : M A) (f : A → M B) (h : Error → M B)
      → ((a : A) → Yields P (f a))
      → ((e : Error) → Yields P (h e))
      → Yields P (attempt m f h)
  Yields-attempt P m f h g k = record { at = λ s. attempt_run-Answers P (m s) f h g k }

  then_known-Answers :
      (P : A → Type 0) (Q : B → Type 0) (p : Res A × Log) (f : A → M B)
      → Answers P p
      → ((a : A) → P a → Yields Q (f a))
      → Answers Q (then_run p f)
  then_known-Answers P Q (ok a, t) f h g = (g a h).at t
  then_known-Answers P Q (throw e, t) f h g = tt

  -- A step whose value is known to satisfy `P`.
  pub Yields-then :
      (P : A → Type 0) (Q : B → Type 0) (m : M A) (f : A → M B)
      → Yields P m
      → ((a : A) → P a → Yields Q (f a))
      → Yields Q (m >>= f)
  Yields-then P Q m f h g = record { at = λ s. then_known-Answers P Q (m s) f (h.at s) g }

  attempt_known-Answers :
      (P : A → Type 0) (Q : B → Type 0) (p : Res A × Log) (f : A → M B) (h : Error → M B)
      → Answers P p
      → ((a : A) → P a → Yields Q (f a))
      → ((e : Error) → Yields Q (h e))
      → Answers Q (attempt_run p f h)
  attempt_known-Answers P Q (ok a, t) f h k g l = (g a k).at t
  attempt_known-Answers P Q (throw e, t) f h k g l = (l e).at t

  -- The same of a `try` whose handler covers the step alone.
  pub Yields-attempted :
      (P : A → Type 0) (Q : B → Type 0) (m : M A) (f : A → M B) (h : Error → M B)
      → Yields P m
      → ((a : A) → P a → Yields Q (f a))
      → ((e : Error) → Yields Q (h e))
      → Yields Q (attempt m f h)
  Yields-attempted P Q m f h k g l = record {
    at = λ s. attempt_known-Answers P Q (m s) f h (k.at s) g l;
  }

  ran_as-Answers :
      (P : B → Type 0) (p : Res A × Log) (m : M A) (s : Log) (f : A → M B)
      → m s ≡ p
      → ((a : A) → Ran m a → Yields P (f a))
      → Answers P (then_run p f)
  ran_as-Answers P (ok a, t) m s f e h = (h a (s, t, e)).at t
  ran_as-Answers P (throw x, t) m s f e h = tt

  -- A step with the run that it made.
  pub Yields-ran :
      (P : B → Type 0) (m : M A) (f : A → M B)
      → ((a : A) → Ran m a → Yields P (f a))
      → Yields P (m >>= f)
  Yields-ran P m f h = record { at = λ s. ran_as-Answers P (m s) m s f refl h }

-- A run of `m` that threw `e`.
abbrev pub Threw {ℓ} : {A : Type ℓ} → M A → Error → Type ℓ
Threw m e = (s : Log) × (t : Log) × (m s ≡ (throw e, t))

module _ {ℓ} {A : Type ℓ} where
  or_handle_seen-Answers :
      (P : A → Type 0) (p : Res A × Log) (m : M A) (s : Log) (f : Error → M A)
      → m s ≡ p
      → Answers P p
      → ((e : Error) → Threw m e → Yields P (f e))
      → Answers P (or_handle p f)
  or_handle_seen-Answers P (ok a, t) m s f q h g = h
  or_handle_seen-Answers P (throw e, t) m s f q h g = (g e (s, t, q)).at t

  -- A `try` whose handler is known to run after an exception.
  pub Yields-thrown :
      (P : A → Type 0) (m : M A) (f : Error → M A)
      → Yields P m
      → ((e : Error) → Threw m e → Yields P (f e))
      → Yields P (try_catch m f)
  Yields-thrown P m f h g = record {
    at = λ s. or_handle_seen-Answers P (m s) m s f refl (h.at s) g;
  }

-- What is known of a value that was returned, and what holds of any that is.
pub Returned-and {ℓ} :
    {A : Type ℓ} (P : A → Log → Type 0) (R : A → Type 0) (p : Res A × Log)
    → Returned P p
    → Answers R p
    → Returned (λ a t. P a t × R a) p
Returned-and P R (ok a, t) h g = (h, g)
Returned-and P R (throw e, t) h g = h
