-- ===== src/Calendar/Counts.antt =====
-- The events of a calendar, counted by a Boolean test: two calendars hold the same events when
-- every test counts the same in both.
use linux_fibers.Common.{
  ℕ, zero, suc, ◌+◌, ◌<◌, ◌≡◌, ◌≢◌, refl, Bool, true, false, List, [], ◌∷◌, ◌==◌, arith, Bool-cases,
  inl, inr, ==→eq, ==→ne,
}
use linux_fibers.Doubles.{Doubles}
use linux_fibers.Calendar.Machine.{Node, Queue}
use linux_fibers.Calendar.Buckets.{insert_sorted, place_after}

abbrev pub sum_to : (ℕ → ℕ) → ℕ → ℕ
sum_to g zero = 0
sum_to g (suc n) = sum_to g n + g n

pub sum_ext : (g h : ℕ → ℕ) (n : ℕ) → ((i : ℕ) → i < n → g i ≡ h i) → sum_to g n ≡ sum_to h n
sum_ext g h zero e = refl
sum_ext g h (suc n) e = omega (arith, sum_ext g h n (λ i p. e i (omega arith)), e n (omega arith))

pub sum_zero : (g : ℕ → ℕ) (n : ℕ) → ((i : ℕ) → i < n → g i ≡ 0) → sum_to g n ≡ 0
sum_zero g zero h = refl
sum_zero g (suc n) h =
    omega (arith, sum_zero g n (λ i p. h i (omega (arith, p))), h n (omega arith))

-- Two functions that differ at one place.
pub sum_change :
    (g h : ℕ → ℕ) (n i : ℕ)
    → i < n
    → ((j : ℕ) → j < n → j ≢ i → g j ≡ h j)
    → sum_to g n + h i ≡ sum_to h n + g i
sum_change g h (suc n) i p e = elim (Bool-cases (i == n)) [
  | inl q ↦
      let same = ==→eq i n q in
      let below = sum_ext g h n (λ j r. e j (omega arith) (λ s. ground (arith, same, s, r))) in
      ground (arith, same, below)
  | inr q ↦
      let ne = ==→ne i n q in
      let lower = sum_change g h n i (ground (arith, ne)) (λ j r s. e j (omega arith) s) in
      omega (arith, lower, e n (omega arith) (λ s. ne (ground (arith, s))))
]
sum_change g h zero i p e = omega arith

abbrev pub one_if : Bool → ℕ
one_if true = 1
one_if false = 0

module _ {D P : Type 0} where
  abbrev pub count : (Node D P → Bool) → List (Node D P) → ℕ
  count f [] = 0
  count f (n ∷ ns) = one_if (f n) + count f ns

  -- The events of the calendar that the test counts.
  abbrev pub events : (Node D P → Bool) → Queue D P → ℕ
  events f q = sum_to (λ i. count f (q.calq (q.firstsub + i))) q.nbuckets

module _ {D P : Type 0} ⦃d : Doubles D⦄ where
  count-place_after :
      (f : Node D P → Bool) (e : Node D P) (ns : List (Node D P))
      → count f (place_after e ns) ≡ one_if (f e) + count f ns
  unfolding place_after
  count-place_after f e [] = refl
  count-place_after f e (n ∷ ns) = ground (arith, count-place_after f e ns)

  pub count-insert_sorted :
      (f : Node D P → Bool) (e : Node D P) (ns : List (Node D P))
      → count f (insert_sorted e ns) ≡ one_if (f e) + count f ns
  unfolding insert_sorted
  count-insert_sorted f e [] = refl
  count-insert_sorted f e (n ∷ ns) = ground (arith, count-place_after f e ns)
