-- ===== src/Contention/Exclusion.antt =====
-- In any interleaving of switches, no two threads run the same fiber.
use linux_fibers.Common.{
  ℕ, ◌≡◌, ◌≢◌, ◌⊎◌, refl, sym, subst, ap, ◌∙◌, Option, none, some, update, update_self, update_ne,
  inl, inr,
}
use native.Mathlib.Decide.{ℕ_discrete}
use linux_fibers.Contention.{
  Place, outside, wants, holds, both, tested, cleared, taken, finishes, leaves, Cores, goes,
  sets_lock, sets_selected, sets_runner, CoreStep, enters, locks_old, refuses_same, refuses_missing,
  locks_new, refuses_running, tests, clears_old, takes_new, moves, unlocks_new, unlocks_old,
  Interleaving, idle, after,
}
use linux_fibers.Contention.Places.{
  Runs, IsAt, IsOrderly, owns, orderly-apart, goes-IsAt, sets_lock-IsAt, sets_selected-IsAt,
  sets_runner-IsAt,
}

-- A step of a thread: its own place, and that the others' places still fit.
step-IsOrderly :
    (t : ℕ) (p : Place) (s s' : Cores)
    → s'.place ≡ s.place
    → IsOrderly s
    → IsAt s' t p
    → ((u : ℕ) → u ≢ t → IsAt s' u (s.place u))
    → IsOrderly (goes t p s')
step-IsOrderly t p s s' e h mine others u = elim (ℕ_discrete u t) [
  | yes q ↦
      subst (λ u. IsAt (goes t p s') u ((goes t p s').place u)) (sym q)
        (subst (IsAt (goes t p s') t) (sym (update_self s'.place t p)) (goes-IsAt s' t t p p mine))
  | no ne ↦
      subst (IsAt (goes t p s') u) (sym (update_ne s'.place t p u ne ∙ ap (λ f. f u) e))
        (goes-IsAt s' t u (s.place u) p (others u ne))
]

here : (s : Cores) (t : ℕ) (p : Place) → IsOrderly s → s.place t ≡ p → IsAt s t p
here s t p h e = subst (IsAt s t) e (h t)

not_held : (s : Cores) (f t u : ℕ) → s.lock f ≡ some t → u ≢ t → s.lock f ≢ some u
not_held s f t u l ne e = ne cc

-- A fiber that no thread has selected, and that another thread has locked, is not run.
not_runner :
    (s : Cores) (f t u : ℕ)
    → u ≢ t
    → s.lock f ≡ some t
    → s.selected f ≡ none
    → IsAt s u (s.place u)
    → s.runner u ≢ f
not_runner s f t u ne l n h e = by_owner (owns s u (s.place u) h)
  where
    by_owner : Runs s u ⊎ ((s.lock (s.runner u) ≡ some u) × (s.selected (s.runner u) ≡ none)) → ⊥
    by_owner (inl a) = let w = ap s.selected e in cc
    by_owner (inr a) = let w = ap s.lock e in ne cc

-- The steps that take or give back a lock.
lock-IsOrderly :
    (t f : ℕ) (o : Option ℕ) (p : Place) (s : Cores)
    → IsOrderly s
    → ((u : ℕ) → u ≢ t → s.lock f ≢ some u)
    → IsAt (sets_lock f o s) t p
    → IsOrderly (goes t p (sets_lock f o s))
lock-IsOrderly t f o p s h free mine =
    step-IsOrderly t p s (sets_lock f o s) refl h mine
      (λ u ne. sets_lock-IsAt s f u o (s.place u) (free u ne) (h u))

CoreStep-IsOrderly : (t : ℕ) (s s' : Cores) → IsOrderly s → CoreStep t s s' → IsOrderly s'
CoreStep-IsOrderly t s _ h (enters new e) =
    step-IsOrderly t (wants (s.runner t) new) s s refl h (here s t outside h e, refl) (λ u ne. h u)
CoreStep-IsOrderly t s _ h (locks_old old new e l) =
    let a = here s t (wants old new) h e in
    lock-IsOrderly t old (some t) (holds old new) s h (λ u ne k. cc)
      (a.0, (a.1, update_self s.lock old (some t)))
CoreStep-IsOrderly t s _ h (refuses_missing old new e q) =
    let a = here s t (holds old new) h e in
    step-IsOrderly t (leaves old) s s refl h (a.0, a.1.1) (λ u ne. h u)
CoreStep-IsOrderly t s _ h (refuses_same old new e q) =
    let a = here s t (holds old new) h e in
    step-IsOrderly t (leaves old) s s refl h (a.0, a.1.1) (λ u ne. h u)
CoreStep-IsOrderly t s _ h (locks_new old new e ne k l) =
    let a = here s t (holds old new) h e in
    lock-IsOrderly t new (some t) (both old new) s h (λ u nu k. cc)
      (
        a.0,
        (
          a.1.0,
          (update_ne s.lock new (some t) old ne ∙ a.1.1, (update_self s.lock new (some t), ne)),
        ),
      )
CoreStep-IsOrderly t s _ h (refuses_running old new u e r) =
    let a = here s t (both old new) h e in
    step-IsOrderly t (finishes old new) s s refl h (a.0, a.1.1) (λ u ne. h u)
CoreStep-IsOrderly t s _ h (tests old new e r) =
    let a = here s t (both old new) h e in
    step-IsOrderly t (tested old new) s s refl h
      (a.0, (a.1.0, (a.1.1.0, (a.1.1.1.0, (a.1.1.1.1, r))))) (λ u ne. h u)
CoreStep-IsOrderly t s _ h (clears_old old new e) =
    let a = here s t (tested old new) h e in
    step-IsOrderly t (cleared old new) s (sets_selected old none s) refl h
      (
        update_self s.selected old none,
        (
          a.1.0,
          (
            a.1.1.0,
            (
              a.1.1.1.0,
              (
                a.1.1.1.1.0,
                update_ne s.selected old none new (λ q. a.1.1.1.1.0 (sym q)) ∙ a.1.1.1.1.1,
              ),
            ),
          ),
        ),
      )
      (λ u ne.
        sets_selected-IsAt s old t u none (s.place u) a.1.1.0 (λ q. ne (sym q))
          (λ q. orderly-apart s h u t ne (q ∙ sym a.1.0)) (h u))
CoreStep-IsOrderly t s _ h (takes_new old new e) =
    let a = here s t (cleared old new) h e in
    step-IsOrderly t (taken old new) s (sets_selected new (some t) s) refl h
      (
        update_ne s.selected new (some t) old a.1.1.1.1.0 ∙ a.0,
        (a.1.0, (a.1.1.0, (a.1.1.1.0, (a.1.1.1.1.0, update_self s.selected new (some t))))),
      )
      (λ u ne.
        sets_selected-IsAt s new t u (some t) (s.place u) a.1.1.1.0 (λ q. ne (sym q))
          (not_runner s new t u ne a.1.1.1.0 a.1.1.1.1.1 (h u)) (h u))
CoreStep-IsOrderly t s _ h (moves old new e) =
    let a = here s t (taken old new) h e in
    let mine : update s.runner t new t ≡ new = update_self s.runner t new in
    step-IsOrderly t (finishes old new) s (sets_runner t new s) refl h
      (ap s.selected mine ∙ a.1.1.1.1.1, (a.1.1.0, (a.1.1.1.0, a.1.1.1.1.0)))
      (λ u ne. sets_runner-IsAt s t u new (s.place u) ne (h u))
CoreStep-IsOrderly t s _ h (unlocks_new old new e) =
    let a = here s t (finishes old new) h e in
    lock-IsOrderly t new none (leaves old) s h (λ u ne. not_held s new t u a.1.1.0 ne)
      (a.0, update_ne s.lock new none old a.1.1.1 ∙ a.1.0)
CoreStep-IsOrderly t s _ h (unlocks_old old e) =
    let a = here s t (leaves old) h e in
    lock-IsOrderly t old none outside s h (λ u ne. not_held s old t u a.1 ne) a.0

Interleaving-IsOrderly : {s s' : Cores} → IsOrderly s → Interleaving s s' → IsOrderly s'
Interleaving-IsOrderly h idle = h
Interleaving-IsOrderly h (after {s' = s1} {s'' = s2} {t = t} r c) =
    CoreStep-IsOrderly t s1 s2 (Interleaving-IsOrderly h r) c

-- When threads outside of fib_switch_to each run a fiber that has them selected, then in any
-- interleaving of their calls, access by access to the runners, the selected threads and the
-- locks as they stand in the code, no two threads ever have the same fiber as their runner.
pub contended_exclusive :
    {s s' : Cores}
    → ((t : ℕ) → s.place t ≡ outside)
    → ((t : ℕ) → s.selected (s.runner t) ≡ some t)
    → Interleaving s s'
    → (t u : ℕ) → t ≢ u
    → s'.runner t ≢ s'.runner u
contended_exclusive {s} {s'} out runs r =
    orderly-apart s' (Interleaving-IsOrderly (λ t. subst (IsAt s t) (sym (out t)) (runs t)) r)
