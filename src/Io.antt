-- ===== src/Io.antt =====
-- The platform that the program runs on, and its effects. Node's file system, flock, process and
-- clock calls are not code of the repository: they are the fields of `Env`, which answer each call
-- from its arguments and from the log of all that has happened, so an environment may change a
-- file, let a lock be taken or fail a call between any two steps. A computation appends to the log
-- the events that the theorems speak of (the waits too), and one `observed` event for any other call. Concurrent
-- awaits (`Promise.all`) are run in the order in which the source lists them.
pub mod Calm
pub mod Total
pub mod Answers
use codex_unlock.Base.{
  ℕ, ◌*◌, String, Bool, true, false, Option, List, ◌∷◌, ◌≡◌, refl, ◌⊎◌, inl, inr,
}
use codex_unlock.Util
use codex_unlock.Util.{Error, CommandResult}

-- "open" modes: O_RDONLY, O_RDWR, O_CREAT | O_RDWR, which do not follow a symbolic link, and "r",
-- which does.
pub data OpenMode : Type 0 where
  read_only read_write create_read_write follow_read : OpenMode

pub data Event : Type 0 where
  opened closed locked released : ℕ → Event
  signalled : ℕ → Event
  waited : ℕ → Event
  observed : Event

-- Newest first.
abbrev pub Log : Type 0
Log = List Event

pub data Res {ℓ} (A : Type ℓ) : Type ℓ where
  ok : A → Res A
  throw : Error → Res A

pub data FileKind : Type 0 where
  regular directory symbolic_link other : FileKind

-- Milliseconds, in the unit of `performance_now`.
abbrev pub ms : ℕ → ℕ
ms n = n * 1000

-- A BigIntStats. `modified_ms` is the double that the source computes from the nanoseconds, or
-- none where it is not finite or too large; `modified_at` is none where the date is invalid.
pub record Stats : Type 0 where
  pub kind : FileKind
  pub dev : ℕ
  pub ino : ℕ
  pub mode : ℕ
  pub uid : ℕ
  pub nlink : ℕ
  pub size : ℕ
  pub modified_at : Option String
  pub modified_ms : Option ℕ

abbrev pub is_file : Stats → Bool
is_file s = elim s.kind [ regular ↦ true | _ ↦ false ]

abbrev pub is_directory : Stats → Bool
is_directory s = elim s.kind [ directory ↦ true | _ ↦ false ]

abbrev pub is_symbolic_link : Stats → Bool
is_symbolic_link s = elim s.kind [ symbolic_link ↦ true | _ ↦ false ]

pub record Env : Type 0 where
  pub lstat : Log → String → Res Stats
  pub stat : Log → String → Res Stats
  pub fstat : Log → ℕ → Res Stats
  pub open_file : Log → String → OpenMode → Res ℕ
  pub close_file : Log → ℕ → Res (Unit {0})
  pub flock_exclusive : Log → ℕ → Res (Unit {0})
  pub flock_release : Log → ℕ → Res (Unit {0})
  pub real_path : Log → String → Res String
  pub make_directory : Log → String → Res (Unit {0})
  pub change_mode : Log → String → Res (Unit {0})
  pub terminate : Log → ℕ → Res (Unit {0})
  pub signal_zero : Log → ℕ → Res (Unit {0})
  pub command : Log → String → List String → CommandResult
  pub date_now : Log → ℕ
  -- In microseconds, of a monotonic clock.
  pub performance_now : Log → ℕ
  pub sha256_file : Log → String → Res String
  pub sha256_text : List String → String
  pub uid : Option ℕ
  pub dirname : String → String
  pub basename : String → String
  pub join : String → String → String
  pub show_number : ℕ → String
  -- `numbers.join(",")`
  pub join_numbers : List ℕ → String

abbrev pub M {ℓ} : Type ℓ → Type ℓ
M A = Log → Res A × Log

abbrev pub then_run {ℓ κ} : {A : Type ℓ} {B : Type κ} → Res A × Log → (A → M B) → Res B × Log
then_run (ok a, s) f = f a s
then_run (throw e, s) f = (throw e, s)

infixl 5 ◌>>=◌ ◌>>◌
abbrev pub ◌>>=◌ {ℓ κ} : {A : Type ℓ} {B : Type κ} → M A → (A → M B) → M B
◌>>=◌ m f s = then_run (m s) f

abbrev pub ◌>>◌ {ℓ κ} : {A : Type ℓ} {B : Type κ} → M A → M B → M B
m >> k = m >>= λ _. k

abbrev pub pure {ℓ} : {A : Type ℓ} → A → M A
pure a s = (ok a, s)

abbrev pub throw_error {ℓ} : {A : Type ℓ} → Error → M A
throw_error e s = (throw e, s)

abbrev pub or_handle {ℓ} : {A : Type ℓ} → Res A × Log → (Error → M A) → Res A × Log
or_handle (ok a, s) h = (ok a, s)
or_handle (throw e, s) h = h e s

-- `try { m } catch (error) { h }`
abbrev pub try_catch {ℓ} : {A : Type ℓ} → M A → (Error → M A) → M A
try_catch m h s = or_handle (m s) h

abbrev pub attempt_run {ℓ κ} :
    {A : Type ℓ} {B : Type κ} → Res A × Log → (A → M B) → (Error → M B) → Res B × Log
attempt_run (ok a, s) f h = f a s
attempt_run (throw e, s) f h = h e s

-- A `try` whose handler covers `m` alone.
abbrev pub attempt {ℓ κ} : {A : Type ℓ} {B : Type κ} → M A → (A → M B) → (Error → M B) → M B
attempt m f h s = attempt_run (m s) f h

-- `throw new Error(message)`, and the module's own error class.
abbrev pub new_error : String → Error
new_error m = record { code = ""; message = m; class = Util.plain }

abbrev pub own_error : String → Error
own_error m = record { code = ""; message = m; class = Util.own }

-- A call that the theorems do not count.
abbrev pub observe {ℓ} : {A : Type ℓ} → (Log → Res A) → M A
observe f s = (f s, observed ∷ s)

-- The events of a call on a descriptor, by its outcome.
abbrev pub opening : Res ℕ → Log → Log
opening (ok fd) s = opened fd ∷ s
opening (throw e) s = observed ∷ s

abbrev pub locking : ℕ → Res (Unit {0}) → Log → Log
locking fd (ok u) s = locked fd ∷ s
locking fd (throw e) s = observed ∷ s

abbrev pub signalling : ℕ → Res (Unit {0}) → Log → Log
signalling pid (ok u) s = signalled pid ∷ s
signalling pid (throw e) s = observed ∷ s

module _ (env : Env) where
  abbrev pub lstat : String → M Stats
  lstat path = observe (λ s. env.lstat s path)

  abbrev pub stat : String → M Stats
  stat path = observe (λ s. env.stat s path)

  abbrev pub fstat : ℕ → M Stats
  fstat fd = observe (λ s. env.fstat s fd)

  abbrev pub open_file : String → OpenMode → M ℕ
  open_file path mode s = (env.open_file s path mode, opening (env.open_file s path mode) s)

  -- A descriptor is gone after close(2), whatever it answers.
  abbrev pub close_file : ℕ → M (Unit {0})
  close_file fd s = (env.close_file s fd, closed fd ∷ s)

  abbrev pub flock_exclusive : ℕ → M (Unit {0})
  flock_exclusive fd s = (env.flock_exclusive s fd, locking fd (env.flock_exclusive s fd) s)

  -- An unlock counts as a release also where it fails: the close of the descriptor, which is counted
  -- too, ends the lock then.
  abbrev pub flock_release : ℕ → M (Unit {0})
  flock_release fd s = (env.flock_release s fd, released fd ∷ s)

  abbrev pub real_path : String → M String
  real_path path = observe (λ s. env.real_path s path)

  abbrev pub make_directory : String → M (Unit {0})
  make_directory path = observe (λ s. env.make_directory s path)

  abbrev pub change_mode : String → M (Unit {0})
  change_mode path = observe (λ s. env.change_mode s path)

  -- `process.kill(pid, "SIGTERM")`
  abbrev pub terminate : ℕ → M (Unit {0})
  terminate pid s = (env.terminate s pid, signalling pid (env.terminate s pid) s)

  -- `process.kill(pid, 0)`
  abbrev pub signal_zero : ℕ → M (Unit {0})
  signal_zero pid = observe (λ s. env.signal_zero s pid)

  abbrev pub command : String → List String → M CommandResult
  command executable args = observe (λ s. ok (env.command s executable args))

  abbrev pub date_now : M ℕ
  date_now = observe (λ s. ok (env.date_now s))

  abbrev pub performance_now : M ℕ
  performance_now = observe (λ s. ok (env.performance_now s))

  abbrev pub sha256_file : String → M String
  sha256_file path = observe (λ s. env.sha256_file s path)

-- `delay`, in the unit of `performance_now`: other processes run.
abbrev pub delay : ℕ → M (Unit {0})
delay time s = (ok tt, waited time ∷ s)

pub Res-cases {ℓ} :
    {A : Type ℓ} (r : Res A) → ((a : A) × (r ≡ ok a)) ⊎ ((e : Error) × (r ≡ throw e))
Res-cases (ok a) = inl (a, refl)
Res-cases (throw e) = inr (e, refl)
