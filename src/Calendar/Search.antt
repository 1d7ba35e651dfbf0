-- ===== src/Calendar/Search.antt =====
-- The direct search: it returns a bucket whose first event is the least of all.
use linux_fibers.Common.{
  ℕ, zero, suc, ◌+◌, ◌<◌, ◌≡◌, refl, sym, subst, true, false, List, [], ◌∷◌, if◌then◌else◌, arith,
  inl, inr, Bool-cases, Option, some, none, ◌∙◌,
}
use native.Mathlib.Decide.{ℕ_discrete}
use linux_fibers.Doubles.{Doubles, IsOrder}
use linux_fibers.Calendar.Machine.{Node, Queue, ran, calqspace, bucket}
use linux_fibers.Calendar.Buckets.{direct_search, starts_before, improves, first_of}

-- `suc i` buckets, from i and the last one.
below_suc : (Q : ℕ → Type 0) (i : ℕ) → ((j : ℕ) → j < i → Q j) → Q i → (j : ℕ) → j < suc i → Q j
below_suc Q i f q j h = elim (ℕ_discrete i j) [
  | yes e ↦ subst Q e q
  | no ne ↦ f j (omega (arith, ne))
]

module _ {D P : Type 0} ⦃d : Doubles D⦄ where
  -- The best of the buckets below n: they are empty, or the best is the first event of one of them
  -- and no other of them begins before it.
  abbrev pub IsBest : Queue D P → ℕ → Option (ℕ × D) → Type 0
  IsBest q n none = (j : ℕ) → j < n → q.calq (q.firstsub + j) ≡ []
  IsBest q n (some (i, lowest)) =
      (i < n)
      × ((first_of i (q.calq (q.firstsub + i)) ≡ some (i, lowest))
          × ((j : ℕ) → j < n → starts_before lowest (q.calq (q.firstsub + j)) ≡ false))

  abbrev better : ℕ → List (Node D P) → Option (ℕ × D) → Option (ℕ × D)
  better i ns best = if improves ns best then first_of i ns else best

  starts_before-lower :
      IsOrder D
      → (l l' : D) (ns : List (Node D P)) → d.lt l' l ≡ true
      → starts_before l ns ≡ false
      → starts_before l' ns ≡ false
  starts_before-lower o l l' [] h e = refl
  starts_before-lower o l l' (n ∷ ns) h e = o.lt_below l' l n.priority h e

  better-IsBest :
      IsOrder D
      → (q : Queue D P) (i : ℕ) (best : Option (ℕ × D)) (ns : List (Node D P))
      → q.calq (q.firstsub + i) ≡ ns
      → IsBest q i best
      → IsBest q (suc i) (better i ns best)
  better-IsBest o q i none [] e h = below_suc (λ j. q.calq (q.firstsub + j) ≡ []) i h e
  better-IsBest o q i none (n ∷ ns) e h = (
    omega arith,
    (
      subst (λ l. first_of i l ≡ some (i, n.priority)) (sym e) refl,
      below_suc (λ j. starts_before n.priority (q.calq (q.firstsub + j)) ≡ false) i
          (λ j p. subst (λ l. starts_before n.priority l ≡ false) (sym (h j p)) refl)
          (subst (λ l. starts_before n.priority l ≡ false) (sym e) (o.lt_irrefl n.priority)),
    ),
  )
  better-IsBest o q i (some (k, l)) [] e h = (
    omega (arith, h.0),
    (
      h.1.0,
      below_suc (λ j. starts_before l (q.calq (q.firstsub + j)) ≡ false) i h.1.1
          (subst (λ m. starts_before l m ≡ false) (sym e) refl),
    ),
  )
  better-IsBest o q i (some (k, l)) (n ∷ ns) e h = elim (Bool-cases (d.lt n.priority l)) [
    | inl b ↦
        subst (λ c. IsBest q (suc i) (if c then some (i, n.priority) else some (k, l))) (sym b)
          (
            omega arith,
            (
              subst (λ m. first_of i m ≡ some (i, n.priority)) (sym e) refl,
              below_suc (λ j. starts_before n.priority (q.calq (q.firstsub + j)) ≡ false) i
                  (λ j p.
                    starts_before-lower o l n.priority (q.calq (q.firstsub + j)) b (h.1.1 j p))
                  (subst (λ m. starts_before n.priority m ≡ false) (sym e)
                    (o.lt_irrefl n.priority)),
            ),
          )
    | inr b ↦
        subst (λ c. IsBest q (suc i) (if c then some (i, n.priority) else some (k, l))) (sym b)
          (
            omega (arith, h.0),
            (
              h.1.0,
              below_suc (λ j. starts_before l (q.calq (q.firstsub + j)) ≡ false) i h.1.1
                  (subst (λ m. starts_before l m ≡ false) (sym e) b),
            ),
          )
  ]

  direct_search_step :
      (n i : ℕ) (best : Option (ℕ × D)) (q : Queue D P)
      → q.firstsub + i < calqspace
      → direct_search (suc n) i best q
        ≡ direct_search n (suc i) (better i (q.calq (q.firstsub + i)) best) q
  unfolding direct_search bucket
  direct_search_step n i best q h = ground (arith, h)

  -- The search returns the best of all buckets.
  pub direct_search-IsBest :
      IsOrder D
      → (n i : ℕ) (best : Option (ℕ × D)) (q : Queue D P)
      → ((j : ℕ) → j < i + n → q.firstsub + j < calqspace)
      → IsBest q i best
      → (b : Option (ℕ × D)) × ((direct_search n i best q ≡ ran b q) × IsBest q (i + n) b)
  unfolding direct_search
  direct_search-IsBest o zero i best q c h =
      (best, (refl, subst (λ m. IsBest q m best) (omega arith) h))
  direct_search-IsBest o (suc n) i best q c h =
      let next =
        direct_search-IsBest o n (suc i) (better i (q.calq (q.firstsub + i)) best) q
          (λ j p. c j (omega arith)) (better-IsBest o q i best (q.calq (q.firstsub + i)) refl h) in
      (
        next.0,
        (
          direct_search_step n i best q (c i (omega arith)) ∙ next.1.0,
          subst (λ m. IsBest q m next.0) (omega arith) next.1.1,
        ),
      )
