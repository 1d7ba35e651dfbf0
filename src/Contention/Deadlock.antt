-- ===== src/Contention/Deadlock.antt =====
-- Two threads that switch to the fibers of one another can wait for ever.
use linux_fibers.Common.{ℕ, true, ◌≡◌, ◌≢◌, sym, ap, ◌∙◌, none, some, arith}
use linux_fibers.Contention.{
  outside, wants, holds, Cores, goes, sets_lock, CoreStep, enters, locks_old, refuses_same,
  refuses_missing, locks_new, refuses_running, tests, clears_old, takes_new, moves, unlocks_new,
  unlocks_old, Interleaving, idle, after,
}

-- Behind the lock of the old fiber, a thread can go on only when that of the new one is free.
blocked :
    (t f g u : ℕ) (s x : Cores)
    → s.place t ≡ holds f g
    → f ≢ g
    → s.listed g ≡ true
    → s.lock g ≡ some u
    → CoreStep t s x
    → ⊥
blocked t f g u s _ e ne b l (enters new q) = cc
blocked t f g u s _ e ne b l (locks_old old new q k) = cc
blocked t f g u s _ e ne b l (refuses_missing old new q k) =
    let same : holds old new ≡ holds f g = sym q ∙ e in
    let new_is : new ≡ g = cc in let live = ap s.listed new_is in cc
blocked t f g u s _ e ne b l (refuses_same old new q k) = ne cc
blocked t f g u s _ e ne b l (locks_new old new q n m k) =
    let same : holds old new ≡ holds f g = sym q ∙ e in
    let new_is : new ≡ g = cc in let free = ap s.lock new_is in cc
blocked t f g u s _ e ne b l (refuses_running old new v q k) = cc
blocked t f g u s _ e ne b l (tests old new q k) = cc
blocked t f g u s _ e ne b l (clears_old old new q) = cc
blocked t f g u s _ e ne b l (takes_new old new q) = cc
blocked t f g u s _ e ne b l (moves old new q) = cc
blocked t f g u s _ e ne b l (unlocks_new old new q) = cc
blocked t f g u s _ e ne b l (unlocks_old old q) = cc

-- Both have called fib_switch_to, and both have locked their old fiber.
abbrev called : (t u : ℕ) → Cores → Cores
called t u s = goes u (wants (s.runner u) (s.runner t)) (goes t (wants (s.runner t) (s.runner u)) s)

abbrev first_locked : (t u : ℕ) → Cores → Cores
first_locked t u s =
    goes t (holds (s.runner t) (s.runner u)) (sets_lock (s.runner t) (some t) (called t u s))

abbrev crossed : (t u : ℕ) → Cores → Cores
crossed t u s =
    goes u (holds (s.runner u) (s.runner t)) (sets_lock (s.runner u) (some u) (first_locked t u s))

-- Two threads outside of fib_switch_to that run two unlocked fibers of the process can each call
-- it for the fiber of the other and come to a state in which neither of the two has a step any
-- more: each holds the lock that the other waits for.
pub switch_deadlock :
    (s : Cores) (t u : ℕ)
    → t ≢ u
    → s.runner t ≢ s.runner u
    → s.place t ≡ outside
    → s.place u ≡ outside
    → s.listed (s.runner t) ≡ true
    → s.listed (s.runner u) ≡ true
    → s.lock (s.runner t) ≡ none
    → s.lock (s.runner u) ≡ none
    → (s' : Cores) × (Interleaving s s'
        × (((x : Cores) → CoreStep t s' x → ⊥) × ((x : Cores) → CoreStep u s' x → ⊥)))
switch_deadlock s t u ne apart out out' live live' free free' = (
  crossed t u s,
  (
    after
        (after
          (after (after idle (enters (s.runner u) out))
            (enters (s.runner t) (ground (arith, ne, out'))))
          (locks_old (s.runner t) (s.runner u) (ground (arith, ne)) free))
        (locks_old (s.runner u) (s.runner t) (ground (arith, ne)) (ground (arith, apart, free'))),
    (
      λ x.
          blocked t (s.runner t) (s.runner u) u (crossed t u s) x (ground (arith, ne)) apart live'
            (ground (arith, apart)),
      λ x.
          blocked u (s.runner u) (s.runner t) t (crossed t u s) x (ground (arith, ne))
            (λ e. apart (sym e)) live (ground (arith, apart)),
    ),
  ),
)
