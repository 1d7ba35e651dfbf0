-- ===== src/Contention/Places.antt =====
-- What holds of the shared state where a thread is in fib_switch_to, and what another thread's
-- accesses leave of it.
use linux_fibers.Common.{
  ℕ, ◌≡◌, ◌≢◌, ◌⊎◌, subst, ap, ◌∙◌, Option, none, some, update, update_ne, inl, inr,
}
use native.Mathlib.Decide.{ℕ_discrete}
use linux_fibers.Contention.{
  Place, outside, wants, holds, both, tested, cleared, taken, finishes, leaves, Cores, goes,
  sets_lock, sets_selected, sets_runner,
}

-- The thread's fiber has it selected.
abbrev pub Runs : Cores → ℕ → Type 0
Runs s t = s.selected (s.runner t) ≡ some t

-- What holds of the shared state where a thread is.
abbrev pub IsAt : Cores → ℕ → Place → Type 0
IsAt s t outside = Runs s t
IsAt s t (wants old new) = Runs s t × (s.runner t ≡ old)
IsAt s t (holds old new) = Runs s t × ((s.runner t ≡ old) × (s.lock old ≡ some t))
IsAt s t (both old new) =
    Runs s t
    × ((s.runner t ≡ old) × ((s.lock old ≡ some t) × ((s.lock new ≡ some t) × (old ≢ new))))
IsAt s t (tested old new) =
    Runs s t
    × ((s.runner t ≡ old)
        × ((s.lock old ≡ some t)
            × ((s.lock new ≡ some t) × ((old ≢ new) × (s.selected new ≡ none)))))
IsAt s t (cleared old new) =
    (s.selected old ≡ none)
    × ((s.runner t ≡ old)
        × ((s.lock old ≡ some t)
            × ((s.lock new ≡ some t) × ((old ≢ new) × (s.selected new ≡ none)))))
IsAt s t (taken old new) =
    (s.selected old ≡ none)
    × ((s.runner t ≡ old)
        × ((s.lock old ≡ some t)
            × ((s.lock new ≡ some t) × ((old ≢ new) × (s.selected new ≡ some t)))))
IsAt s t (finishes old new) =
    Runs s t × ((s.lock old ≡ some t) × ((s.lock new ≡ some t) × (old ≢ new)))
IsAt s t (leaves old) = Runs s t × (s.lock old ≡ some t)

abbrev pub IsOrderly : Cores → Type 0
IsOrderly s = (t : ℕ) → IsAt s t (s.place t)

-- A thread is selected by its fiber, or holds the lock of it while none is.
pub owns :
    (s : Cores) (t : ℕ) (p : Place)
    → IsAt s t p
    → Runs s t ⊎ ((s.lock (s.runner t) ≡ some t) × (s.selected (s.runner t) ≡ none))
owns s t outside h = inl h
owns s t (wants old new) h = inl h.0
owns s t (holds old new) h = inl h.0
owns s t (both old new) h = inl h.0
owns s t (tested old new) h = inl h.0
owns s t (cleared old new) h = inr (ap s.lock h.1.0 ∙ h.1.1.0, ap s.selected h.1.0 ∙ h.0)
owns s t (taken old new) h = inr (ap s.lock h.1.0 ∙ h.1.1.0, ap s.selected h.1.0 ∙ h.0)
owns s t (finishes old new) h = inl h.0
owns s t (leaves old) h = inl h.0

pub orderly-apart : (s : Cores) → IsOrderly s → (t u : ℕ) → t ≢ u → s.runner t ≢ s.runner u
orderly-apart s h t u ne e = apart (owns s t (s.place t) (h t)) (owns s u (s.place u) (h u))
  where
    apart :
        Runs s t ⊎ ((s.lock (s.runner t) ≡ some t) × (s.selected (s.runner t) ≡ none))
        → Runs s u ⊎ ((s.lock (s.runner u) ≡ some u) × (s.selected (s.runner u) ≡ none))
        → ⊥
    apart (inl a) (inl b) = let w = ap s.selected e in ne cc
    apart (inl a) (inr b) = let w = ap s.selected e in cc
    apart (inr a) (inl b) = let w = ap s.selected e in cc
    apart (inr a) (inr b) = let w = ap s.lock e in ne cc

-- A place of another thread is not seen.
pub goes-IsAt : (s : Cores) (t u : ℕ) (p q : Place) → IsAt s u p → IsAt (goes t q s) u p
goes-IsAt s t u outside q h = h
goes-IsAt s t u (wants old new) q h = h
goes-IsAt s t u (holds old new) q h = h
goes-IsAt s t u (both old new) q h = h
goes-IsAt s t u (tested old new) q h = h
goes-IsAt s t u (cleared old new) q h = h
goes-IsAt s t u (taken old new) q h = h
goes-IsAt s t u (finishes old new) q h = h
goes-IsAt s t u (leaves old) q h = h

-- A lock that the other thread does not hold.
pub lock_kept :
    (s : Cores) (f g u : ℕ) (o : Option ℕ)
    → s.lock f ≢ some u
    → s.lock g ≡ some u
    → update s.lock f o g ≡ some u
lock_kept s f g u o free h = elim (ℕ_discrete g f) [
  | yes e ↦ elim (free (subst (λ i. s.lock i ≡ some u) e h)) [ ]
  | no ne ↦ update_ne s.lock f o g ne ∙ h
]

pub sets_lock-IsAt :
    (s : Cores) (f u : ℕ) (o : Option ℕ) (p : Place)
    → s.lock f ≢ some u
    → IsAt s u p
    → IsAt (sets_lock f o s) u p
sets_lock-IsAt s f u o outside free h = h
sets_lock-IsAt s f u o (wants old new) free h = h
sets_lock-IsAt s f u o (holds old new) free h = (h.0, (h.1.0, lock_kept s f old u o free h.1.1))
sets_lock-IsAt s f u o (both old new) free h = (
  h.0,
  (h.1.0, (lock_kept s f old u o free h.1.1.0, (lock_kept s f new u o free h.1.1.1.0, h.1.1.1.1))),
)
sets_lock-IsAt s f u o (tested old new) free h = (
  h.0,
  (h.1.0, (lock_kept s f old u o free h.1.1.0, (lock_kept s f new u o free h.1.1.1.0, h.1.1.1.1))),
)
sets_lock-IsAt s f u o (cleared old new) free h = (
  h.0,
  (h.1.0, (lock_kept s f old u o free h.1.1.0, (lock_kept s f new u o free h.1.1.1.0, h.1.1.1.1))),
)
sets_lock-IsAt s f u o (taken old new) free h = (
  h.0,
  (h.1.0, (lock_kept s f old u o free h.1.1.0, (lock_kept s f new u o free h.1.1.1.0, h.1.1.1.1))),
)
sets_lock-IsAt s f u o (finishes old new) free h =
    (h.0, (lock_kept s f old u o free h.1.0, (lock_kept s f new u o free h.1.1.0, h.1.1.1)))
sets_lock-IsAt s f u o (leaves old) free h = (h.0, lock_kept s f old u o free h.1)

-- The selected thread of a fiber that another thread neither runs nor has locked.
pub selected_kept :
    (s : Cores) (f g : ℕ) (o w : Option ℕ) → g ≢ f → s.selected g ≡ w → update s.selected f o g ≡ w
selected_kept s f g o w ne h = update_ne s.selected f o g ne ∙ h

pub sets_selected-IsAt :
    (s : Cores) (f t u : ℕ) (o : Option ℕ) (p : Place)
    → s.lock f ≡ some t
    → t ≢ u
    → s.runner u ≢ f
    → IsAt s u p
    → IsAt (sets_selected f o s) u p
sets_selected-IsAt s f t u o p l ne nf h = by_place p h
  where
    locked : (g : ℕ) → s.lock g ≡ some u → g ≢ f
    locked g k e = let w = ap s.lock e in ne cc

    runs : Runs s u → Runs (sets_selected f o s) u
    runs r = selected_kept s f (s.runner u) o (some u) nf r

    by_place : (p : Place) → IsAt s u p → IsAt (sets_selected f o s) u p
    by_place outside h = runs h
    by_place (wants old new) h = (runs h.0, h.1)
    by_place (holds old new) h = (runs h.0, h.1)
    by_place (both old new) h = (runs h.0, h.1)
    by_place (tested old new) h = (
      runs h.0,
      (
        h.1.0,
        (
          h.1.1.0,
          (
            h.1.1.1.0,
            (h.1.1.1.1.0, selected_kept s f new o none (locked new h.1.1.1.0) h.1.1.1.1.1),
          ),
        ),
      ),
    )
    by_place (cleared old new) h = (
      selected_kept s f old o none (locked old h.1.1.0) h.0,
      (
        h.1.0,
        (
          h.1.1.0,
          (
            h.1.1.1.0,
            (h.1.1.1.1.0, selected_kept s f new o none (locked new h.1.1.1.0) h.1.1.1.1.1),
          ),
        ),
      ),
    )
    by_place (taken old new) h = (
      selected_kept s f old o none (locked old h.1.1.0) h.0,
      (
        h.1.0,
        (
          h.1.1.0,
          (
            h.1.1.1.0,
            (h.1.1.1.1.0, selected_kept s f new o (some u) (locked new h.1.1.1.0) h.1.1.1.1.1),
          ),
        ),
      ),
    )
    by_place (finishes old new) h = (runs h.0, h.1)
    by_place (leaves old) h = (runs h.0, h.1)

pub sets_runner-IsAt :
    (s : Cores) (t u f : ℕ) (p : Place) → u ≢ t → IsAt s u p → IsAt (sets_runner t f s) u p
sets_runner-IsAt s t u f p ne h = by_place p h
  where
    same : update s.runner t f u ≡ s.runner u
    same = update_ne s.runner t f u ne

    runs : Runs s u → Runs (sets_runner t f s) u
    runs r = ap s.selected same ∙ r

    by_place : (p : Place) → IsAt s u p → IsAt (sets_runner t f s) u p
    by_place outside h = runs h
    by_place (wants old new) h = (runs h.0, same ∙ h.1)
    by_place (holds old new) h = (runs h.0, (same ∙ h.1.0, h.1.1))
    by_place (both old new) h = (runs h.0, (same ∙ h.1.0, h.1.1))
    by_place (tested old new) h = (runs h.0, (same ∙ h.1.0, h.1.1))
    by_place (cleared old new) h = (h.0, (same ∙ h.1.0, h.1.1))
    by_place (taken old new) h = (h.0, (same ∙ h.1.0, h.1.1))
    by_place (finishes old new) h = (runs h.0, h.1)
    by_place (leaves old) h = (runs h.0, h.1)
