-- ===== src/Io/Total.antt =====
-- Computations that never throw.
use codex_unlock.Base.{ℕ, Bool, true, false, if◌then◌else◌}
use codex_unlock.Util.{Error}
use codex_unlock.Io.{
  Log, Res, ok, throw, M, ◌>>=◌, then_run, attempt, attempt_run, pure, observe, delay,
}
use codex_unlock.Io.Calm.{Returned, Holds, IsCalm, Outcome}

pub record IsTotal {ℓ} {A : Type ℓ} (m : M A) : Type 0 where
  pub at : (s : Log) → Returned (λ a t. Unit {0}) (m s)

then_run-Total {ℓ κ} :
    {A : Type ℓ} {B : Type κ} (p : Res A × Log) (f : A → M B)
    → Returned (λ a t. Unit {0}) p
    → ((a : A) → IsTotal (f a))
    → Returned (λ a t. Unit {0}) (then_run p f)
then_run-Total (ok a, t) f h g = (g a).at t
then_run-Total (throw e, t) f h g = absurd h

pub IsTotal-bind {ℓ κ} :
    {A : Type ℓ} {B : Type κ} (m : M A) (f : A → M B)
    → IsTotal m
    → ((a : A) → IsTotal (f a))
    → IsTotal (m >>= f)
IsTotal-bind m f h g = record { at = λ s. then_run-Total (m s) f (h.at s) g }

attempt_run-Total {ℓ κ} :
    {A : Type ℓ} {B : Type κ} (p : Res A × Log) (f : A → M B) (h : Error → M B)
    → ((a : A) → IsTotal (f a))
    → ((e : Error) → IsTotal (h e))
    → Returned (λ a t. Unit {0}) (attempt_run p f h)
attempt_run-Total (ok a, t) f h p q = (p a).at t
attempt_run-Total (throw e, t) f h p q = (q e).at t

-- Whatever `m` does.
pub IsTotal-attempt {ℓ κ} :
    {A : Type ℓ} {B : Type κ} (m : M A) (f : A → M B) (h : Error → M B)
    → ((a : A) → IsTotal (f a))
    → ((e : Error) → IsTotal (h e))
    → IsTotal (attempt m f h)
IsTotal-attempt m f h p q = record { at = λ s. attempt_run-Total (m s) f h p q }

pub IsTotal-pure {ℓ} : {A : Type ℓ} (a : A) → IsTotal (pure a)
IsTotal-pure a = record { at = λ s. tt }

pub IsTotal-observe {ℓ} : {A : Type ℓ} (f : Log → A) → IsTotal (observe (λ s. ok (f s)))
IsTotal-observe f = record { at = λ s. tt }

pub IsTotal-delay : (time : ℕ) → IsTotal (delay time)
IsTotal-delay time = record { at = λ s. tt }

pub IsTotal-if {ℓ} :
    {A : Type ℓ} (b : Bool) (m n : M A) → IsTotal m → IsTotal n → IsTotal (if b then m else n)
IsTotal-if true m n h g = h
IsTotal-if false m n h g = g

pub IsTotal-branch {ℓ} :
    {A : Type ℓ} (b : Bool) (m n : M A)
    → IsTotal m
    → IsTotal n
    → IsTotal (elim b [ true ↦ m | false ↦ n ])
IsTotal-branch true m n h g = h
IsTotal-branch false m n h g = g

-- A total computation that leaves nothing behind returns with nothing left behind.
kept_result {ℓ} :
    {A : Type ℓ} (s : Log) (p : Res A × Log)
    → Returned (λ a t. Unit {0}) p
    → Holds 0 0 s p.1
    → Returned (λ a t. Holds 0 0 s t) p
kept_result s (ok a, t) r h = h
kept_result s (throw e, t) r h = absurd r

pub calm_total {ℓ} :
    {A : Type ℓ} (m : M A)
    → IsTotal m
    → IsCalm m
    → (s : Log) → Returned (λ a t. Holds 0 0 s t) (m s)
calm_total m r h s = kept_result s (m s) (r.at s) (h.at s)

Outcome-Calm {ℓ} :
    {A : Type ℓ} (s : Log) (p : Res A × Log)
    → Holds 0 0 s p.1
    → Outcome (λ a t. Holds 0 0 s t) (λ t. Holds 0 0 s t) p
Outcome-Calm s (ok a, t) h = h
Outcome-Calm s (throw e, t) h = h

pub calm-Outcome {ℓ} :
    {A : Type ℓ} (m : M A)
    → IsCalm m
    → (s : Log) → Outcome (λ a t. Holds 0 0 s t) (λ t. Holds 0 0 s t) (m s)
calm-Outcome m h s = Outcome-Calm s (m s) (h.at s)
