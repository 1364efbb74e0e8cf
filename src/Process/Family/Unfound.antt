-- ===== src/Process/Family/Unfound.antt =====
-- How many rows of the table have a process that a walk has not found yet.
use codex_unlock.Base.{
  ℕ, suc, ◌+◌, ◌≤◌, ◌≡◌, refl, sym, true, false, ◌||◌, List, [], ◌∷◌, ◌++◌, ◌==◌, nat_eq, includes,
  length, arith, ◌⊎◌, inl, inr, if◌then◌else◌, or-eq-true, eq_of_test,
}
use codex_unlock.Process.Family.{Row}

-- The rows whose process was not found yet.
unfoldable pub unfound : List Row → List ℕ → ℕ
unfound [] found = 0
unfound (r ∷ rows) found = (if includes found r.pid then 0 else 1) + unfound rows found

pub includes-append :
    (xs : List ℕ) (y v : ℕ) → includes (xs ++ y ∷ []) v ≡ (includes xs v || (y == v))
includes-append [] y v = ground arith
includes-append (x ∷ xs) y v = ground (arith, includes-append xs y v)

pub unfound-append :
    (rows : List Row) (found : List ℕ) (pid : ℕ)
    → unfound rows (found ++ pid ∷ []) ≤ unfound rows found
unfolding unfound
unfound-append [] found pid = omega arith
unfound-append (r ∷ rows) found pid =
    ground (arith, unfound-append rows found pid, includes-append found pid r.pid)

-- The table has this row.
abbrev pub In : List Row → Row → Type 0
In [] r = ⊥
In (x ∷ rows) r = (x ≡ r) ⊎ In rows r

pub unfound-push :
    (rows : List Row) (found : List ℕ) (r : Row)
    → In rows r
    → includes found r.pid ≡ false
    → suc (unfound rows (found ++ r.pid ∷ [])) ≤ unfound rows found
unfolding unfound
unfound-push [] found r i h = absurd i
unfound-push (x ∷ rows) found r (inl e) h =
    let own : includes (found ++ r.pid ∷ []) x.pid ≡ true =
      rw (includes-append found r.pid x.pid, e) (ground (arith, h)) in
    let before : includes found x.pid ≡ false = rw e h in
    rw (own, before) (omega (arith, unfound-append rows found r.pid))
unfound-push (x ∷ rows) found r (inr i) h =
    ground (arith, unfound-push rows found r i h, includes-append found r.pid x.pid)

pub append_cases :
    (xs : List ℕ) (y v : ℕ) → includes (xs ++ y ∷ []) v ≡ true → (includes xs v ≡ true) ⊎ (y ≡ v)
append_cases xs y v h =
    elim (or-eq-true (includes xs v) (y == v) (rw (sym (includes-append xs y v)) h)) [
      | inl p ↦ inl p
      | inr p ↦ inr (eq_of_test y v p)
    ]

pub grown : (xs : List ℕ) (y v : ℕ) → includes xs v ≡ true → includes (xs ++ y ∷ []) v ≡ true
grown xs y v h = ground (arith, includes-append xs y v, h)

pub pushed : (xs : List ℕ) (y : ℕ) → includes (xs ++ y ∷ []) y ≡ true
pushed xs y = ground (arith, includes-append xs y y)

pub unfound-nil : (rows : List Row) → unfound rows [] ≡ length rows
unfolding unfound
unfound-nil [] = refl
unfound-nil (r ∷ rows) = omega (arith, unfound-nil rows)
