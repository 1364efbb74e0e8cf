-- ===== src/Io/Calm.antt =====
-- Computations that leave nothing behind: no signal is sent, every descriptor that was opened is
-- closed, and every lock that was taken is released. The events of the log are counted.
use codex_unlock.Base.{
  ℕ, suc, ◌+◌, ◌≤◌, length, ◌≡◌, refl, [], ◌∷◌, arith, Bool, true, false, if◌then◌else◌,
}
use codex_unlock.Util.{Error}
use codex_unlock.Io.{
  opened, closed, locked, released, signalled, observed, Log, Res, ok, throw, M, ◌>>=◌, try_catch,
  then_run, or_handle, attempt, attempt_run, pure, opening, observe, delay,
}

abbrev pub signals : Log → ℕ
signals [] = 0
signals (signalled p ∷ s) = suc (signals s)
signals (_ ∷ s) = signals s

abbrev pub opens : Log → ℕ
opens [] = 0
opens (opened f ∷ s) = suc (opens s)
opens (_ ∷ s) = opens s

abbrev pub closes : Log → ℕ
closes [] = 0
closes (closed f ∷ s) = suc (closes s)
closes (_ ∷ s) = closes s

abbrev pub locks : Log → ℕ
locks [] = 0
locks (locked f ∷ s) = suc (locks s)
locks (_ ∷ s) = locks s

abbrev pub releases : Log → ℕ
releases [] = 0
releases (released f ∷ s) = suc (releases s)
releases (_ ∷ s) = releases s

-- From `s` to `t` no signal was sent, and `d` descriptors and `k` locks more are held; the
-- log only grew.
pub record Holds (d k : ℕ) (s t : Log) : Type 0 where
  pub quiet : signals t ≡ signals s
  pub files : opens t + closes s ≡ opens s + closes t + d
  pub flocks : locks t + releases s ≡ locks s + releases t + k
  pub grows : length s ≤ length t

pub start-Holds : (s : Log) → Holds 0 0 s s
start-Holds s = omega arith

pub Holds-observed : {d k : ℕ} {s t : Log} → Holds d k s t → Holds d k s (observed ∷ t)
Holds-observed h = omega arith

pub chain-Holds : {d k : ℕ} {s t u : Log} → Holds d k s t → Holds 0 0 t u → Holds d k s u
chain-Holds h g = omega arith

pub Holds-opening :
    (r : Res ℕ) {k : ℕ} {s t : Log} {fd : ℕ} → r ≡ ok fd → Holds 0 k s t → Holds 1 k s (opening r t)
Holds-opening (ok a) e h = omega arith
Holds-opening (throw a) e h = cc

pub Holds-opening_failed :
    (r : Res ℕ) {d k : ℕ} {s t : Log} {x : Error}
    → r ≡ throw x
    → Holds d k s t
    → Holds d k s (opening r t)
Holds-opening_failed (ok a) e h = cc
Holds-opening_failed (throw a) e h = omega arith

pub Holds-closed : {k : ℕ} {s t : Log} (fd : ℕ) → Holds 1 k s t → Holds 0 k s (closed fd ∷ t)
Holds-closed fd h = omega arith

pub Holds-released : {d : ℕ} {s t : Log} (fd : ℕ) → Holds d 1 s t → Holds d 0 s (released fd ∷ t)
Holds-released fd h = omega arith

pub record IsCalm {ℓ} {A : Type ℓ} (m : M A) : Type 0 where
  pub at : (s : Log) → Holds 0 0 s (m s).1

pub then_run-Calm {ℓ κ} :
    {A : Type ℓ} {B : Type κ} (s : Log) (p : Res A × Log) (f : A → M B)
    → Holds 0 0 s p.1
    → ((a : A) → IsCalm (f a))
    → Holds 0 0 s (then_run p f).1
then_run-Calm s (ok a, t) f h g = chain-Holds h ((g a).at t)
then_run-Calm s (throw e, t) f h g = h

pub calm-bind {ℓ κ} :
    {A : Type ℓ} {B : Type κ} (m : M A) (f : A → M B)
    → IsCalm m
    → ((a : A) → IsCalm (f a))
    → IsCalm (m >>= f)
calm-bind m f h g = record { at = λ s. then_run-Calm s (m s) f (h.at s) g }

or_handle-Calm {ℓ} :
    {A : Type ℓ} (s : Log) (p : Res A × Log) (f : Error → M A)
    → Holds 0 0 s p.1
    → ((e : Error) → IsCalm (f e))
    → Holds 0 0 s (or_handle p f).1
or_handle-Calm s (ok a, t) f h g = h
or_handle-Calm s (throw e, t) f h g = chain-Holds h ((g e).at t)

pub calm-catch {ℓ} :
    {A : Type ℓ} (m : M A) (f : Error → M A)
    → IsCalm m
    → ((e : Error) → IsCalm (f e))
    → IsCalm (try_catch m f)
calm-catch m f h g = record { at = λ s. or_handle-Calm s (m s) f (h.at s) g }

pub calm-if {ℓ} :
    {A : Type ℓ} (b : Bool) (m n : M A) → IsCalm m → IsCalm n → IsCalm (if b then m else n)
calm-if true m n h g = h
calm-if false m n h g = g

pub calm-observe {ℓ} : {A : Type ℓ} (f : Log → Res A) → IsCalm (observe f)
calm-observe f = record { at = λ s. Holds-observed (start-Holds s) }

pub calm-delay : (time : ℕ) → IsCalm (delay time)
calm-delay time = record { at = λ s. omega arith }

-- The computation returned, and its result and log satisfy `P`.
abbrev pub Returned {ℓ} : {A : Type ℓ} → (A → Log → Type 0) → Res A × Log → Type 0
Returned P (ok a, t) = P a t
Returned P (throw e, t) = ⊥

pub then_run-Returned {ℓ κ} :
    {A : Type ℓ} {B : Type κ} (P : A → Log → Type 0) (Q : B → Log → Type 0) (p : Res A × Log)
    (f : A → M B)
    → Returned P p
    → ((a : A) (t : Log) → P a t → Returned Q (f a t))
    → Returned Q (then_run p f)
then_run-Returned P Q (ok a, t) f h g = g a t h
then_run-Returned P Q (throw e, t) f h g = absurd h

pub Returned-map {ℓ} :
    {A : Type ℓ} (P : A → Log → Type 0) (Q : A → Log → Type 0) (p : Res A × Log)
    → Returned P p
    → ((a : A) (t : Log) → P a t → Q a t)
    → Returned Q p
Returned-map P Q (ok a, t) h g = g a t h
Returned-map P Q (throw e, t) h g = absurd h

pub Returned-Calm {ℓ} :
    {A : Type ℓ} (s : Log) (p : Res A × Log) → Returned (λ a t. Holds 0 0 s t) p → Holds 0 0 s p.1
Returned-Calm s (ok a, t) h = h
Returned-Calm s (throw e, t) h = absurd h

-- The same with a condition on the log where the computation throws.
abbrev pub Outcome {ℓ} : {A : Type ℓ} → (A → Log → Type 0) → (Log → Type 0) → Res A × Log → Type 0
Outcome P Q (ok a, t) = P a t
Outcome P Q (throw e, t) = Q t

pub Outcome-map {ℓ} :
    {A : Type ℓ} {P R : A → Log → Type 0} {Q S : Log → Type 0} (p : Res A × Log)
    → Outcome P Q p
    → ((a : A) (t : Log) → P a t → R a t)
    → ((t : Log) → Q t → S t)
    → Outcome R S p
Outcome-map (ok a, t) h f g = f a t h
Outcome-map (throw e, t) h f g = g t h

pub attempt_run-Outcome {ℓ κ} :
    {A : Type ℓ} {B : Type κ} (P : B → Log → Type 0) (Q : Log → Type 0) (p : Res A × Log)
    (f : A → M B) (h : Error → M B)
    → ((a : A) (t : Log) → Outcome P Q (f a t))
    → ((e : Error) (t : Log) → Outcome P Q (h e t))
    → Outcome P Q (attempt_run p f h)
attempt_run-Outcome P Q (ok a, t) f h g k = g a t
attempt_run-Outcome P Q (throw e, t) f h g k = k e t

-- A step whose result is kept as an equation; what holds of its exceptions is left open.
pub then_step {ℓ κ} :
    {A : Type ℓ} {B : Type κ} (P : B → Log → Type 0) (r : Res A) (t : Log) (f : A → M B)
    → ((a : A) → r ≡ ok a → Outcome P (λ u. Unit {0}) (f a t))
    → Outcome P (λ u. Unit {0}) (then_run (r, t) f)
then_step P (ok a) t f h = h a refl
then_step P (throw e) t f h = tt

then_ran_as {ℓ κ} :
    {A : Type ℓ} {B : Type κ} (P : B → Log → Type 0) (r p : Res A × Log) (f : A → M B)
    → r ≡ p
    → ((a : A) (t : Log) → r ≡ (ok a, t) → Outcome P (λ u. Unit {0}) (f a t))
    → Outcome P (λ u. Unit {0}) (then_run p f)
then_ran_as P r (ok a, t) f e h = h a t e
then_ran_as P r (throw x, t) f e h = tt

pub then_ran {ℓ κ} :
    {A : Type ℓ} {B : Type κ} (P : B → Log → Type 0) (r : Res A × Log) (f : A → M B)
    → ((a : A) (t : Log) → r ≡ (ok a, t) → Outcome P (λ u. Unit {0}) (f a t))
    → Outcome P (λ u. Unit {0}) (then_run r f)
then_ran P r f h = then_ran_as P r r f refl h

pub then_run-Outcome {ℓ κ} :
    {A : Type ℓ} {B : Type κ} (P : A → Log → Type 0) (R : B → Log → Type 0) (Q : Log → Type 0)
    (p : Res A × Log) (f : A → M B)
    → Outcome P Q p
    → ((a : A) (t : Log) → P a t → Outcome R Q (f a t))
    → Outcome R Q (then_run p f)
then_run-Outcome P R Q (ok a, t) f h g = g a t h
then_run-Outcome P R Q (throw e, t) f h g = h

pub or_handle-Returned {ℓ} :
    {A : Type ℓ} (P : A → Log → Type 0) (Q : Log → Type 0) (p : Res A × Log) (f : Error → M A)
    → Outcome P Q p
    → ((e : Error) (t : Log) → Q t → Returned P (f e t))
    → Returned P (or_handle p f)
or_handle-Returned P Q (ok a, t) f h g = h
or_handle-Returned P Q (throw e, t) f h g = g e t h

pub Outcome-Returned {ℓ} :
    {A : Type ℓ} (P : A → Log → Type 0) (R : A → Log → Type 0) (Q : Log → Type 0) (p : Res A × Log)
    → Returned P p
    → ((a : A) (t : Log) → P a t → R a t)
    → Outcome R Q p
Outcome-Returned P R Q (ok a, t) h g = g a t h
Outcome-Returned P R Q (throw e, t) h g = absurd h

pub calm-pure {ℓ} : {A : Type ℓ} (a : A) → IsCalm (pure a)
calm-pure a = record { at = start-Holds }

attempt_run-Calm {ℓ κ} :
    {A : Type ℓ} {B : Type κ} (s : Log) (p : Res A × Log) (f : A → M B) (h : Error → M B)
    → Holds 0 0 s p.1
    → ((a : A) → IsCalm (f a))
    → ((e : Error) → IsCalm (h e))
    → Holds 0 0 s (attempt_run p f h).1
attempt_run-Calm s (ok a, t) f h p q r = chain-Holds p ((q a).at t)
attempt_run-Calm s (throw e, t) f h p q r = chain-Holds p ((r e).at t)

pub calm-attempt {ℓ κ} :
    {A : Type ℓ} {B : Type κ} (m : M A) (f : A → M B) (h : Error → M B)
    → IsCalm m
    → ((a : A) → IsCalm (f a))
    → ((e : Error) → IsCalm (h e))
    → IsCalm (attempt m f h)
calm-attempt m f h p q r = record { at = λ s. attempt_run-Calm s (m s) f h (p.at s) q r }

pub calm_of_Returned {ℓ} :
    {A : Type ℓ} (m : M A) → ((s : Log) → Returned (λ a t. Holds 0 0 s t) (m s)) → IsCalm m
calm_of_Returned m h = record { at = λ s. Returned-Calm s (m s) (h s) }

pub calm-branch {ℓ} :
    {A : Type ℓ} (b : Bool) (m n : M A)
    → IsCalm m
    → IsCalm n
    → IsCalm (elim b [ true ↦ m | false ↦ n ])
calm-branch true m n h g = h
calm-branch false m n h g = g
