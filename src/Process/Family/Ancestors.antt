-- ===== src/Process/Family/Ancestors.antt =====
-- The chain of parents ends, and is the whole line of ancestors.
use codex_unlock.Base.{
  ℕ, zero, suc, ◌≤◌, ◌<◌, ◌≡◌, refl, sym, subst, true, false, not, ◌&&◌, some, List, [], ◌∷◌, ◌++◌,
  ◌==◌, nat_eq, includes, arith, ◌⊎◌, inl, inr, Bool-cases, Option-cases, ◌↔◌, ltb, eq_of_test, ◌∙◌,
}
use codex_unlock.Process.Family.Unfound.{
  unfound, In, unfound-push, append_cases, grown, pushed, unfound-nil,
}
use codex_unlock.Process.Family.{Row, parent_of, next_of, climb, search_fuel, family_in}

parent_of-In :
    (rows : List Row) (pid parent : ℕ)
    → parent_of pid rows ≡ some parent
    → (r : Row) × In rows r × (r.pid ≡ pid)
parent_of-In [] pid parent h = cc
parent_of-In (r ∷ rows) pid parent h = elim (Bool-cases (r.pid == pid)) [
  | inl e ↦ (r, inl refl, eq_of_test r.pid pid e)
  | inr e ↦ let (x, i, q) = parent_of-In rows pid parent (ground (arith, h, e)) in (x, inr i, q)
]

-- The process itself and its ancestors; a process without a row, or below 0, has no parent.
pub data Climbs (rows : List Row) (self : ℕ) : ℕ → Type 0 where
  itself : 0 < self → Climbs rows self self
  above :
      {pid : ℕ} → Climbs rows self pid → 0 < next_of rows pid → Climbs rows self (next_of rows pid)

record Climbing (rows : List Row) (self current : ℕ) (family : List ℕ) : Type 0 where
  reached : (pid : ℕ) → includes family pid ≡ true → Climbs rows self pid
  arrived : 0 < current → Climbs rows self current
  started : (current ≡ self) ⊎ (includes family self ≡ true)
  followed :
      (pid : ℕ)
      → includes family pid ≡ true
      → (next_of rows pid ≡ current) ⊎ (includes family (next_of rows pid) ≡ true)

step-Climbing :
    (rows : List Row) (self current : ℕ) (family : List ℕ)
    → 0 < current
    → Climbing rows self current family
    → Climbing rows self (next_of rows current) (family ++ current ∷ [])
step-Climbing rows self current family p h = record {
  reached = λ v k. elim (append_cases family current v k) [
    | inl q ↦ h.reached v q
    | inr q ↦ subst (Climbs rows self) q (h.arrived p)
  ];
  arrived = λ k. above (h.arrived p) k;
  started = elim h.started [
    | inl q ↦
        inr (subst (λ v. includes (family ++ current ∷ []) v ≡ true) q (pushed family current))
    | inr q ↦ inr (grown family current self q)
  ];
  followed = λ v k. elim (append_cases family current v k) [
    | inl q ↦ elim (h.followed v q) [
      | inl e ↦
          inr (
            subst (λ w. includes (family ++ current ∷ []) w ≡ true) (sym e) (pushed family current))
      | inr e ↦ inr (grown family current _ e)
    ]
    | inr q ↦ inl (subst (λ w. next_of rows w ≡ next_of rows current) q refl)
  ];
}

-- The family is the process with its ancestors.
abbrev pub IsLine : List Row → ℕ → List ℕ → Type 0
IsLine rows self family = (pid : ℕ) → (includes family pid ≡ true) ↔ Climbs rows self pid

-- Where the loop stops.
stopped-IsLine :
    (rows : List Row) (self current : ℕ) (family : List ℕ)
    → (0 < current → includes family current ≡ true)
    → Climbing rows self current family
    → IsLine rows self family
stopped-IsLine rows self current family stop h pid = (h.reached pid, complete pid)
  where
    complete : (v : ℕ) → Climbs rows self v → includes family v ≡ true
    complete v (itself p) = elim h.started [
      | inl e ↦ subst (λ w. includes family w ≡ true) e (stop (subst (λ w. 0 < w) (sym e) p))
      | inr e ↦ e
    ]
    complete v (above {pid = w} c p) = elim (h.followed w (complete w c)) [
      | inl e ↦ subst (λ x. includes family x ≡ true) (sym e) (stop (subst (λ x. 0 < x) e p))
      | inr e ↦ e
    ]

climb-stops :
    (fuel : ℕ) (rows : List Row) (current : ℕ) (family : List ℕ)
    → 0 < fuel
    → (0 < current → includes family current ≡ true)
    → climb fuel rows current family ≡ some family
unfolding climb
climb-stops zero rows current family p h = absurd (omega (arith, p))
climb-stops (suc fuel) rows current family p h = elim (Bool-cases (ltb 0 current)) [
  | inl e ↦ rw (e, h (ground (arith, e))) refl
  | inr e ↦ rw e refl
]

climb-goes :
    (fuel : ℕ) (rows : List Row) (current : ℕ) (family : List ℕ)
    → ltb 0 current ≡ true
    → includes family current ≡ false
    → climb (suc fuel) rows current family
      ≡ climb fuel rows (next_of rows current) (family ++ current ∷ [])
unfolding climb
climb-goes fuel rows current family p h = rw (p, h) refl

-- A process that has a row makes one row less unfound; one that has none is the last.
next-unfound :
    (rows : List Row) (current : ℕ) (family : List ℕ)
    → includes family current ≡ false
    → (next_of rows current ≡ 0)
      ⊎ (suc (unfound rows (family ++ current ∷ [])) ≤ unfound rows family)
next-unfound rows current family h = elim (Option-cases (parent_of current rows)) [
  | inl e ↦ inl (rw e refl)
  | inr (parent, e) ↦
      let (r, i, q) = parent_of-In rows current parent e in
      inr (
        subst (λ c. suc (unfound rows (family ++ c ∷ [])) ≤ unfound rows family) q
          (unfound-push rows family r i (rw q h)))
]

climb-IsLine :
    (fuel : ℕ) (rows : List Row) (self current : ℕ) (family : List ℕ)
    → suc (unfound rows family) < fuel
    → Climbing rows self current family
    → (found : List ℕ) × (climb fuel rows current family ≡ some found) × IsLine rows self found
climb-IsLine zero rows self current family m h = absurd (omega (arith, m))
climb-IsLine (suc fuel) rows self current family m h =
    elim (Bool-cases (ltb 0 current && not (includes family current))) [
      | inr e ↦
          let stop : 0 < current → includes family current ≡ true = λ p. ground (arith, e, p) in
          (
            family,
            climb-stops (suc fuel) rows current family (omega arith) stop,
            stopped-IsLine rows self current family stop h,
          )
      | inl e ↦
          let positive : ltb 0 current ≡ true = ground (arith, e) in
          let fresh : includes family current ≡ false = ground (arith, e) in
          let goes = climb-goes fuel rows current family positive fresh in
          let after = step-Climbing rows self current family (ground (arith, positive)) h in
          elim (next-unfound rows current family fresh) [
            | inl z ↦
                let stop : 0 < next_of rows current
                    → includes (family ++ current ∷ []) (next_of rows current) ≡ true =
                  λ p. absurd (omega (arith, p, z)) in
                (
                  family ++ current ∷ [],
                  goes ∙ climb-stops fuel rows (next_of rows current) _ (omega (arith, m)) stop,
                  stopped-IsLine rows self (next_of rows current) _ stop after,
                )
            | inr less ↦
                let (found, q, line) =
                  climb-IsLine fuel rows self (next_of rows current) (family ++ current ∷ [])
                    (omega (arith, m, less)) after in
                (found, goes ∙ q, line)
          ]
    ]

-- The walk to the ancestors always ends by itself, with fuel for two rounds more than the table
-- has rows, also where the table has a cycle; for a process that is not 0 it finds that process
-- and exactly its ancestors.
pub family_in-IsLine :
    (rows : List Row) (self : ℕ)
    → (family : List ℕ) × (family_in rows self ≡ some family) × IsLine rows self family
unfolding family_in
family_in-IsLine rows self =
    climb-IsLine (search_fuel rows) rows self self [] (omega (arith, unfound-nil rows)) (record {
      reached = λ v h. cc;
      arrived = λ p. itself p;
      started = inl refl;
      followed = λ v h. cc;
    })
