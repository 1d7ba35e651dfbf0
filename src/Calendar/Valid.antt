-- ===== src/Calendar/Valid.antt =====
-- The invariant of a calendar, what an operation may end in, and the steps without a resize.
use linux_fibers.Common.{
  ℕ, zero, suc, is_nonneg, false, ◌+◌, ◌-◌, ◌*◌, ◌/◌, ◌%◌, ◌<◌, ◌≤◌, ◌≡◌, ◌≢◌, ◌⊎◌, refl, sym,
  subst, Bool, true, List, ◌==◌, if◌then◌else◌, update, arith, inl, inr, Bool-cases, ℤ, pos, negsuc,
  ◌∙◌,
}
use linux_fibers.Doubles.{Doubles, NegativeCast}
use linux_fibers.Calendar.Machine.{
  Node, Queue, Run, ran, negative, fault, stuck, and_then, remainder, minus_two, calqspace,
  maxnbuckets,
}
use linux_fibers.Calendar.Counts.{events, count, one_if, sum_change}

abbrev pub pow2 : ℕ → ℕ
pow2 zero = 1
pow2 (suc k) = pow2 k + pow2 k

pub pow2_pos : (k : ℕ) → 1 ≤ pow2 k
pow2_pos zero = omega arith
pow2_pos (suc k) = omega (arith, pow2_pos k)

pub pow2_mono : (k n : ℕ) → k ≤ n → pow2 k ≤ pow2 n
pow2_mono zero n h = pow2_pos n
pow2_mono (suc k) (suc n) h = omega (arith, pow2_mono k n (omega arith))
pow2_mono (suc k) zero h = omega arith

-- A bucket number: a negative one comes from a negative cast.
abbrev pub IsBelow : (D : Type 0) ⦃d : Doubles D⦄ → ℤ → ℕ → Type 0
IsBelow D (pos i) n = i < n
IsBelow D (negsuc i) n = NegativeCast D

pub remainder-IsBelow :
    (D : Type 0) ⦃d : Doubles D⦄ (z : ℤ) (n : ℕ)
    → 1 ≤ n
    → (is_nonneg z ≡ false → NegativeCast D)
    → IsBelow D (remainder z n) n
remainder-IsBelow D (pos i) n h c = omega arith
remainder-IsBelow D (negsuc i) n h c = elim (Bool-cases (suc i % n == 0)) [
  | inl e ↦ subst (λ b. IsBelow D (if b then pos 0 else negsuc (suc i % n - 1)) n) (sym e) h
  | inr e ↦ subst (λ b. IsBelow D (if b then pos 0 else negsuc (suc i % n - 1)) n) (sym e) (c refl)
]

pub and_then_assoc :
    {Q A B C : Type 0} (m : Run Q A) (f : A → Q → Run Q B) (g : B → Q → Run Q C)
    → and_then m (λ a q. and_then (f a q) g) ≡ and_then (and_then m f) g
and_then_assoc (ran a q) f g = refl
and_then_assoc negative f g = refl
and_then_assoc fault f g = refl
and_then_assoc stuck f g = refl

module _ {D P : Type 0} ⦃d : Doubles D⦄ where
  -- A power of two of buckets, at one end of the array; the size and the thresholds are right.
  pub record IsCalendar (q : Queue D P) : Type 0 where
    pub power : (k : ℕ) × ((k ≤ 15) × (q.nbuckets ≡ pow2 k))
    pub place : (q.firstsub ≡ 0) ⊎ (q.firstsub + q.nbuckets ≡ calqspace)
    pub last : IsBelow D q.lastbucket q.nbuckets
    pub size : q.qsize ≡ events (λ _. true) q
    pub top : q.top_threshold ≡ pos (2 * q.nbuckets)
    pub bottom : q.bot_threshold ≡ minus_two (q.nbuckets / 2)

  -- Not more than two events for each bucket, unless the calendar is at its largest.
  abbrev pub IsRoomy : Queue D P → Type 0
  IsRoomy q = (q.qsize ≤ 2 * q.nbuckets) ⊎ (maxnbuckets ≤ q.nbuckets)

  -- A run ends in a state with the property or at a negative bucket number, from a negative cast: it meets no fault and
  -- does not run out of fuel.
  abbrev pub Ends : {A : Type 0} → (A → Queue D P → Type 0) → Run (Queue D P) A → Type 0
  Ends Φ (ran a q) = Φ a q
  Ends Φ negative = NegativeCast D
  Ends Φ fault = ⊥
  Ends Φ stuck = ⊥

  pub Ends-and_then :
      {A B : Type 0} (Φ : A → Queue D P → Type 0) (Ψ : B → Queue D P → Type 0)
      (r : Run (Queue D P) A) (f : A → Queue D P → Run (Queue D P) B)
      → Ends Φ r
      → ((a : A) (q : Queue D P) → Φ a q → Ends Ψ (f a q))
      → Ends Ψ (and_then r f)
  Ends-and_then Φ Ψ (ran a q) f h g = g a q h
  Ends-and_then Φ Ψ negative f h g = h
  Ends-and_then Φ Ψ fault f h g = h
  Ends-and_then Φ Ψ stuck f h g = h

  pub Ends-mono :
      {A : Type 0} (Φ Ψ : A → Queue D P → Type 0) (r : Run (Queue D P) A)
      → ((a : A) (q : Queue D P) → Φ a q → Ψ a q)
      → Ends Φ r
      → Ends Ψ r
  Ends-mono Φ Ψ (ran a q) f h = f a q h
  Ends-mono Φ Ψ negative f h = h
  Ends-mono Φ Ψ fault f h = h
  Ends-mono Φ Ψ stuck f h = h

  -- What an operation on the buckets leaves as it is.
  pub record IsFrame (q q' : Queue D P) : Type 0 where
    pub first : q'.firstsub ≡ q.firstsub
    pub buckets : q'.nbuckets ≡ q.nbuckets
    pub enabled : q'.resize_enabled ≡ q.resize_enabled
    pub outside : (j : ℕ) → (j < q.firstsub) ⊎ (q.firstsub + q.nbuckets ≤ j) → q'.calq j ≡ q.calq j

  pub IsFrame-refl : (q : Queue D P) → IsFrame q q
  IsFrame-refl q = record { first = refl; buckets = refl; enabled = refl; outside = λ j s. refl }

  pub IsFrame-trans : (p q r : Queue D P) → IsFrame p q → IsFrame q r → IsFrame p r
  IsFrame-trans p q r h g = record {
    first = g.first ∙ h.first;
    buckets = g.buckets ∙ h.buckets;
    enabled = g.enabled ∙ h.enabled;
    outside = λ j s.
        g.outside j (
          subst (λ a. (j < a) ⊎ (a + q.nbuckets ≤ j)) (sym h.first)
            (subst (λ b. (j < p.firstsub) ⊎ (p.firstsub + b ≤ j)) (sym h.buckets) s))
        ∙ h.outside j s;
  }

  -- The events of a queue are those of another and one more.
  abbrev pub HasMore : Node D P → Queue D P → Queue D P → Type 0
  HasMore e q q' = (f : Node D P → Bool) → events f q' ≡ one_if (f e) + events f q

  -- A bucket of a calendar is in the array.
  pub in_array :
      (q : Queue D P) → IsCalendar q → (i : ℕ) → i < q.nbuckets → q.firstsub + i < calqspace
  in_array q c i h =
      let small = pow2_mono c.power.0 15 c.power.1.0 in
      let eq = c.power.1.1 in ground (arith, c.place, small, eq, h)

  -- One bucket is changed.
  abbrev pub with_bucket : ℕ → List (Node D P) → Queue D P → Queue D P
  with_bucket i ns q = record q { calq = update q.calq (q.firstsub + i) ns }

  pub events-with_bucket :
      (q : Queue D P) (i : ℕ) (ns : List (Node D P)) (f : Node D P → Bool)
      → i < q.nbuckets
      → events f (with_bucket i ns q) + count f (q.calq (q.firstsub + i)) ≡ events f q + count f ns
  events-with_bucket q i ns f h =
      let others : (j : ℕ)
          → j < q.nbuckets
          → j ≢ i
          → count f (update q.calq (q.firstsub + i) ns (q.firstsub + j))
            ≡ count f (q.calq (q.firstsub + j)) =
        λ j p ne. ground (arith, ne) in
      let here : count f (update q.calq (q.firstsub + i) ns (q.firstsub + i)) ≡ count f ns =
        ground arith in
      let change =
        sum_change (λ j. count f (update q.calq (q.firstsub + i) ns (q.firstsub + j)))
          (λ j. count f (q.calq (q.firstsub + j))) q.nbuckets i h others in
      omega (arith, change, here)
