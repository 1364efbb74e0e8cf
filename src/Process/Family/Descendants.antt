-- ===== src/Process/Family/Descendants.antt =====
-- The search for descendants ends, and finds exactly the processes below the given one.
use codex_unlock.Base.{
  ℕ, zero, suc, ◌+◌, ◌≤◌, ◌<◌, ◌≡◌, refl, sym, ap, subst, Bool, true, false, not, ◌&&◌, some, List,
  [], ◌∷◌, ◌++◌, ◌==◌, nat_eq, includes, length, arith, ◌⊎◌, inl, inr, if◌then◌else◌, ◌↔◌,
  length-append, or-eq-true, eq_of_test, beq-false, ◌∙◌,
}
use codex_unlock.Process.Family.Unfound.{
  unfound, In, unfound-push, append_cases, grown, pushed, unfound-nil,
}
use codex_unlock.Process.Family.{
  Row, SearchState, push, visit, search_children, search_fuel, descendants_in,
}

abbrev measure : List Row → SearchState → ℕ
measure rows s = length s.queue + unfound rows s.found

push-measure :
    (rows : List Row) (r : Row) (s : SearchState)
    → In rows r
    → includes s.found r.pid ≡ false
    → measure rows (push r.pid s) ≤ measure rows s
push-measure rows r s i h =
    omega (arith, unfound-push rows s.found r i h, length-append s.queue (r.pid ∷ []))

visit-measure :
    (all rows : List Row) (parent : ℕ) (s : SearchState)
    → ((r : Row) → In rows r → In all r)
    → measure all (visit parent rows s) ≤ measure all s
unfolding visit
visit-measure all [] parent s sub = omega arith
visit-measure all (r ∷ rows) parent s sub =
    step (r.parent == parent) (includes s.found r.pid) refl
      (visit-measure all rows parent s (λ x i. sub x (inr i)))
      (visit-measure all rows parent (push r.pid s) (λ x i. sub x (inr i)))
  where
    step :
        (same seen : Bool)
        → includes s.found r.pid ≡ seen
        → measure all (visit parent rows s) ≤ measure all s
        → measure all (visit parent rows (push r.pid s)) ≤ measure all (push r.pid s)
        → measure all (visit parent rows (if same && not seen then push r.pid s else s))
          ≤ measure all s
    step false seen e h g = h
    step true true e h g = h
    step true false e h g = omega (arith, g, push-measure all r s (sub r (inl refl)) e)

-- The processes below `root`: a child, or below one that is.
pub data Descends (rows : List Row) (root : ℕ) : ℕ → Type 0 where
  child : (r : Row) → In rows r → r.parent ≡ root → Descends rows root r.pid
  deeper : (r : Row) → In rows r → Descends rows root r.parent → Descends rows root r.pid

-- The root, or found.
abbrev Known : ℕ → SearchState → ℕ → Type 0
Known root s pid = (pid ≡ root) ⊎ (includes s.found pid ≡ true)

-- A row below a known process is still to be looked at, or its process was found. `todo` are the rows
-- that remain of those below `parent`.
abbrev Handled : ℕ → List Row → SearchState → Row → Type 0
Handled parent todo s r =
    (includes s.queue r.parent ≡ true)
    ⊎ ((includes s.found r.pid ≡ true) ⊎ ((r.parent ≡ parent) × In todo r))

record Scans (all : List Row) (root parent : ℕ) (todo : List Row) (s : SearchState) : Type 0 where
  reached : (pid : ℕ) → includes s.found pid ≡ true → Descends all root pid
  queued : (pid : ℕ) → includes s.queue pid ≡ true → Known root s pid
  handled : (r : Row) → In all r → Known root s r.parent → Handled parent todo s r

Known-push :
    {root : ℕ} (s : SearchState) (r : Row) (v : ℕ) → Known root s v → Known root (push r.pid s) v
Known-push s r v (inl e) = inl e
Known-push s r v (inr e) = inr (grown s.found r.pid v e)

module _ (all todo : List Row) (root parent : ℕ) (s : SearchState) (r : Row) where
  below :
      In all r
      → r.parent ≡ parent
      → Known root s parent
      → Scans all root parent (r ∷ todo) s
      → Descends all root r.pid
  below i e (inl k) h = child r i (e ∙ k)
  below i e (inr k) h = deeper r i (subst (Descends all root) (sym e) (h.reached parent k))

  push-Handled : (x : Row) → Handled parent (r ∷ todo) s x → Handled parent todo (push r.pid s) x
  push-Handled x (inl q) = inl (grown s.queue r.pid x.parent q)
  push-Handled x (inr (inl f)) = inr (inl (grown s.found r.pid x.pid f))
  push-Handled x (inr (inr (e, inl p))) = inr (
      inl (
        subst (λ y. includes (s.found ++ r.pid ∷ []) y ≡ true) (ap (λ y. y.pid) p)
          (pushed s.found r.pid)))
  push-Handled x (inr (inr (e, inr t))) = inr (inr (e, t))

  push-Scans :
      In all r
      → r.parent ≡ parent
      → Known root s parent
      → Scans all root parent (r ∷ todo) s
      → Scans all root parent todo (push r.pid s)
  push-Scans i e k h = record {
    reached = λ v f. elim (append_cases s.found r.pid v f) [
      | inl p ↦ h.reached v p
      | inr p ↦ subst (Descends all root) p (below i e k h)
    ];
    queued = λ v q. elim (append_cases s.queue r.pid v q) [
      | inl p ↦ Known-push s r v (h.queued v p)
      | inr p ↦
          inr (subst (λ y. includes (s.found ++ r.pid ∷ []) y ≡ true) p (pushed s.found r.pid))
    ];
    handled = λ x i k. known x i k;
  }
    where
      queued_now : (x : Row) → r.pid ≡ x.parent → Handled parent todo (push r.pid s) x
      queued_now x p =
          inl (subst (λ y. includes (s.queue ++ r.pid ∷ []) y ≡ true) p (pushed s.queue r.pid))

      known :
          (x : Row)
          → In all x
          → Known root (push r.pid s) x.parent
          → Handled parent todo (push r.pid s) x
      known x i (inl q) = push-Handled x (h.handled x i (inl q))
      known x i (inr f) = elim (append_cases s.found r.pid x.parent f) [
        | inl p ↦ push-Handled x (h.handled x i (inr p))
        | inr p ↦ queued_now x p
      ]

  skip-Scans :
      (r.parent ≡ parent → includes s.found r.pid ≡ true)
      → Scans all root parent (r ∷ todo) s
      → Scans all root parent todo s
  skip-Scans f h = record {
    reached = h.reached;
    queued = h.queued;
    handled = λ x i k. skipped x (h.handled x i k);
  }
    where
      skipped : (x : Row) → Handled parent (r ∷ todo) s x → Handled parent todo s x
      skipped x (inl q) = inl q
      skipped x (inr (inl g)) = inr (inl g)
      skipped x (inr (inr (e, inl p))) =
          inr (inl (subst (λ y. includes s.found y.pid ≡ true) p (f (ap (λ y. y.parent) p ∙ e))))
      skipped x (inr (inr (e, inr t))) = inr (inr (e, t))

visit-Scans :
    (all todo : List Row) (root parent : ℕ) (s : SearchState)
    → ((r : Row) → In todo r → In all r)
    → Known root s parent
    → Scans all root parent todo s
    → Scans all root parent [] (visit parent todo s)
unfolding visit
visit-Scans all [] root parent s sub k h = h
visit-Scans all (r ∷ todo) root parent s sub k h =
    step (r.parent == parent) (includes s.found r.pid) refl refl
      (visit-Scans all todo root parent s (λ x i. sub x (inr i)) k)
      (visit-Scans all todo root parent (push r.pid s) (λ x i. sub x (inr i))
        (Known-push s r parent k))
  where
    step :
        (same seen : Bool)
        → (r.parent == parent) ≡ same
        → includes s.found r.pid ≡ seen
        → (Scans all root parent todo s → Scans all root parent [] (visit parent todo s))
        → (Scans all root parent todo (push r.pid s)
            → Scans all root parent [] (visit parent todo (push r.pid s)))
        → Scans all root parent []
            (visit parent todo (if same && not seen then push r.pid s else s))
    step false seen p q f g =
        f (skip-Scans all todo root parent s r (λ e. absurd (beq-false r.parent parent p e)) h)
    step true true p q f g = f (skip-Scans all todo root parent s r (λ e. q) h)
    step true false p q f g =
        g (
          push-Scans all todo root parent s r (sub r (inl refl)) (eq_of_test r.parent parent p) k h)

-- What the search found, it found rightly and completely.
abbrev pub IsExact : List Row → ℕ → List ℕ → Type 0
IsExact rows root found = (pid : ℕ) → (includes found pid ≡ true) ↔ Descends rows root pid

-- The next of the queue.
shift-Scans :
    (all : List Row) (root old parent : ℕ) (rest : List ℕ) (s : SearchState)
    → s.queue ≡ parent ∷ rest
    → Scans all root old [] s
    → Scans all root parent all (record s { queue = rest })
shift-Scans all root old parent rest s q h = record {
  reached = h.reached;
  queued = λ v k. h.queued v (rw q (ground (arith, k)));
  handled = λ x i k. shifted x i (h.handled x i k);
}
  where
    shifted :
        (x : Row) → In all x → Handled old [] s x → Handled parent all (record s { queue = rest }) x
    shifted x i (inl k) =
        elim (or-eq-true (parent == x.parent) (includes rest x.parent)
          (subst (λ c. includes c x.parent ≡ true) q k)) [
            | inl p ↦ inr (inr (sym (eq_of_test parent x.parent p), i))
            | inr p ↦ inl p
          ]
    shifted x i (inr (inl f)) = inr (inl f)
    shifted x i (inr (inr (e, t))) = absurd t

-- With nothing left to look at.
finished-IsExact :
    (all : List Row) (root old : ℕ) (s : SearchState)
    → s.queue ≡ []
    → Scans all root old [] s
    → IsExact all root s.found
finished-IsExact all root old s q h pid = (h.reached pid, complete pid)
  where
    found_now : (x : Row) → Handled old [] s x → includes s.found x.pid ≡ true
    found_now x (inl k) = absurd (empty (subst (λ c. includes c x.parent ≡ true) q k))
      where
        empty : (includes [] x.parent ≡ true) → ⊥
        empty e = cc
    found_now x (inr (inl f)) = f
    found_now x (inr (inr (e, t))) = absurd t

    complete : (v : ℕ) → Descends all root v → includes s.found v ≡ true
    complete v (child r i e) = found_now r (h.handled r i (inl e))
    complete v (deeper r i d) = found_now r (h.handled r i (inr (complete r.parent d)))

search_children-next :
    (fuel : ℕ) (rows : List Row) (s : SearchState) (parent : ℕ) (rest : List ℕ)
    → s.queue ≡ parent ∷ rest
    → search_children (suc fuel) rows s
      ≡ search_children fuel rows (visit parent rows (record s { queue = rest }))
unfolding search_children
search_children-next fuel rows s parent rest q = rw q refl

search_children-IsExact :
    (fuel : ℕ) (rows : List Row) (root old : ℕ) (s : SearchState) (queue : List ℕ)
    → s.queue ≡ queue
    → measure rows s < fuel
    → Scans rows root old [] s
    → (found : List ℕ) × (search_children fuel rows s ≡ some found) × IsExact rows root found
unfolding search_children
search_children-IsExact zero rows root old s queue q m h = absurd (omega (arith, m))
search_children-IsExact (suc fuel) rows root old s [] q m h =
    (s.found, rw q refl, finished-IsExact rows root old s q h)
search_children-IsExact (suc fuel) rows root old s (parent ∷ rest) q m h =
    let next = record s { queue = rest } in
    let after = visit parent rows next in
    let scans =
      visit-Scans rows rows root parent next (λ r i. i) (h.queued parent (rw q (ground arith)))
        (shift-Scans rows root old parent rest s q h) in
    let size : length s.queue ≡ suc (length rest) = rw q refl in
    let (found, e, exact) =
      search_children-IsExact fuel rows root parent after after.queue refl
        (omega (arith, m, size, visit-measure rows rows parent next (λ r i. i))) scans in
    (found, search_children-next fuel rows s parent rest q ∙ e, exact)

-- The search for the descendants of a process always ends by itself, with fuel for two rounds more
-- than the table has rows; it finds exactly the processes that a chain of rows leads to from
-- the given one, also where the table has cycles.
pub descendants_in-IsExact :
    (rows : List Row) (pid : ℕ)
    → (found : List ℕ) × (descendants_in rows pid ≡ some found) × IsExact rows pid found
unfolding descendants_in
descendants_in-IsExact rows pid =
    search_children-IsExact (search_fuel rows) rows pid 0 _ (pid ∷ []) refl
      (omega (arith, unfound-nil rows))
      (record {
        reached = λ v h. absurd (none_found v h);
        queued = λ v h. elim (or-eq-true (pid == v) false h) [
          | inl p ↦ inl (sym (eq_of_test pid v p))
          | inr p ↦ absurd (none_found v p)
        ];
        handled = λ r i k. elim k [
          | inl e ↦ inl (rw e (ground arith))
          | inr f ↦ absurd (none_found r.parent f)
        ];
      })
  where
    none_found : (v : ℕ) → includes [] v ≡ true → ⊥
    none_found v h = cc
