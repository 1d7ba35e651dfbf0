-- ===== src/Calendar/Laws.antt =====
-- The operations of the calendar queue on any queue that they made: they end, whatever the doubles
-- are, and the events are those of a bag.
use linux_fibers.Common.{
  ℕ, zero, suc, ◌+◌, ◌-◌, ◌*◌, ◌/◌, ◌<◌, ◌≤◌, ◌≡◌, ◌⊎◌, refl, sym, subst, Bool, true, false, ◌&&◌,
  ◌==◌, if◌then◌else◌, arith, inl, inr, Bool-cases, ◌∙◌, ap, ltb,
}
use native.Mathlib.Decide.{dec_le}
use linux_fibers.Doubles.{Doubles, IsOrder}
use linux_fibers.Calendar.Machine.{
  Node, Queue, Run, M, and_then, calqspace, maxnbuckets, minus_two, is_above, is_below,
}
use linux_fibers.Calendar.{new_width, copy_buckets, resize_with, resize}
use linux_fibers.Calendar.Buckets.{localinit}
use linux_fibers.Calendar.Counts.{events, count, sum_ext}
use linux_fibers.Calendar.Valid.{
  IsCalendar, IsRoomy, Ends, Ends-and_then, Ends-mono, pow2, pow2_pos, pow2_mono,
}
use linux_fibers.Calendar.Resize.{IsQuiet, grow, shrink, grow_yes, grow_no, shrink_yes, shrink_no}
use linux_fibers.Calendar.Width.{IsUndisturbed, new_width-Ends}
use linux_fibers.Calendar.Copy.{localinit_lem, IsGained, copy_buckets-Ends, stored, HasRoom}

-- The number of buckets is at most half of the largest, when it is below that.
power_below : (k : ℕ) → pow2 k < maxnbuckets → k ≤ 14
power_below k h = elim (dec_le k 14) [
  | yes l ↦ l
  | no nl ↦
      let big = pow2_mono 15 k (omega (arith, nl)) in
      let no_way : ⊥ = omega (arith, big, h) in elim no_way [ ]
]

module _ {D P : Type 0} ⦃d : Doubles D⦄ where
  -- A queue between two operations.
  pub record IsQueue (q : Queue D P) : Type 0 where
    pub valid : IsCalendar q
    pub roomy : IsRoomy q
    pub enabled : q.resize_enabled ≡ true

  -- The same events in a calendar of another size.
  pub record IsResized (newsize : ℕ) (q q' : Queue D P) : Type 0 where
    pub queue : IsQueue q'
    pub buckets : q'.nbuckets ≡ newsize
    pub same : (f : Node D P → Bool) → events f q' ≡ events f q

  -- Where the new calendar begins.
  abbrev base_of : Queue D P → ℕ → ℕ
  base_of q newsize = if q.firstsub == 0 then calqspace - newsize else 0

  -- The old calendar and the new one are apart.
  base_of-apart :
      (q : Queue D P) (newsize : ℕ)
      → IsCalendar q
      → q.nbuckets + newsize ≤ calqspace
      → 1 ≤ newsize
      → ((base_of q newsize ≡ 0) ⊎ (base_of q newsize + newsize ≡ calqspace))
        × ((base_of q newsize + newsize ≤ calqspace)
            × ((j : ℕ)
                → j < q.nbuckets
                → (q.firstsub + j < base_of q newsize)
                  ⊎ (base_of q newsize + newsize ≤ q.firstsub + j)))
  base_of-apart q newsize c h s = let place = c.place in ground (arith, place, h, s)

  module _ (rs : ℕ → M D P (Unit {0})) (r : IsQuiet rs) (o : IsOrder D) where
    abbrev copied : ℕ → D → Queue D P → Run (Queue D P) (Unit {0})
    copied newsize w q =
        and_then (localinit (base_of q newsize) newsize w q.lastprio q)
          (λ _. copy_buckets rs q.firstsub q.nbuckets)

    resize_with_lem :
        (newsize : ℕ) (q : Queue D P)
        → q.resize_enabled ≡ true
        → resize_with rs newsize q ≡ and_then (new_width rs q) (copied newsize)
    unfolding resize_with
    resize_with_lem newsize q e = ground (arith, e)

    copied-Ends :
        (newsize k : ℕ) (w : D) (q q1 : Queue D P)
        → k ≤ 15
        → newsize ≡ pow2 k
        → q1.nbuckets + newsize ≤ calqspace
        → (q.qsize ≤ 2 * newsize) ⊎ (maxnbuckets ≤ newsize)
        → IsCalendar q
        → IsUndisturbed q q1
        → Ends (λ _. IsResized newsize q) (copied newsize w q1)
    copied-Ends newsize k w q q1 kl e apart room c u =
        let parts = base_of-apart q1 newsize u.valid apart (omega (arith, e, pow2_pos k)) in
        let fresh =
          localinit_lem (base_of q1 newsize) newsize k w q1.lastprio q1 kl e parts.0 parts.1.0 in
        let q2 = fresh.0 in
        let old : (f : Node D P → Bool) → stored q1.firstsub q1.nbuckets q2 f ≡ events f q = λ f.
          sum_ext (λ j. count f (q2.calq (q1.firstsub + j)))
            (λ j. count f (q1.calq (q1.firstsub + j))) q1.nbuckets
            (λ j p. ap (count f) (fresh.1.1.outside (q1.firstsub + j) (parts.1.1 j p)))
          ∙ u.same f in
        subst (Ends λ _. IsResized newsize q)
          (sym (ap (λ m. and_then m (λ _. copy_buckets rs q1.firstsub q1.nbuckets)) fresh.1.0))
          (Ends-mono (λ _. IsGained (stored q1.firstsub q1.nbuckets q2) q2)
            (λ _. IsResized newsize q) (copy_buckets rs q1.firstsub q1.nbuckets q2)
            (λ _ q3 g. record {
              queue = record {
                valid = g.0;
                roomy =
                    still q3 (g.0.size) (g.1.1 (λ _. true)) (old (λ _. true))
                      (fresh.1.1.none_left (λ _. true)) (g.1.0.buckets ∙ fresh.1.1.buckets);
                enabled = g.1.0.enabled ∙ (fresh.1.1.enabled ∙ u.enabled);
              };
              buckets = g.1.0.buckets ∙ fresh.1.1.buckets;
              same = λ f. omega (arith, g.1.1 f, old f, fresh.1.1.none_left f);
            })
            (copy_buckets-Ends rs q1.firstsub q1.nbuckets q2 fresh.1.1.valid
              (λ j p.
                subst (λ a. (q1.firstsub + j < a) ⊎ (a + q2.nbuckets ≤ q1.firstsub + j))
                  (sym fresh.1.1.first)
                  (subst
                    (λ b.
                      (q1.firstsub + j < base_of q1 newsize)
                      ⊎ (base_of q1 newsize + b ≤ q1.firstsub + j))
                    (sym fresh.1.1.buckets) (parts.1.1 j p)))
              (first_room q2 (old (λ _. true)) fresh.1.1.empty fresh.1.1.buckets)))
      where
        still :
            {m n l : ℕ} (q3 : Queue D P)
            → q3.qsize ≡ m
            → m ≡ n + l
            → n ≡ events (λ _. true) q
            → l ≡ 0
            → q3.nbuckets ≡ newsize
            → IsRoomy q3
        still q3 a b g z n = let size = c.size in ground (arith, a, b, g, z, n, size, room)

        first_room :
            {n : ℕ} (q2 : Queue D P)
            → n ≡ events (λ _. true) q
            → q2.qsize ≡ 0
            → q2.nbuckets ≡ newsize
            → HasRoom n q2
        first_room q2 a z n = let size = c.size in ground (arith, a, z, n, size, room)

    -- From a calendar in its invariant to a power of two of buckets, at most 2^15, with room
    -- for the events and in the array beside the old ones, a resize ends with a queue in its
    -- invariant of that size and with the same events; or at a negative bucket number, if the
    -- cast of some quotient is negative. What it calls for a nested resize does nothing while
    -- resizing is disabled. It supposes of < that nothing is below itself, and that what is
    -- not below y is not below any x that is below y.
    pub resize_with-Ends :
        (newsize k : ℕ) (q : Queue D P)
        → k ≤ 15
        → newsize ≡ pow2 k
        → q.nbuckets + newsize ≤ calqspace
        → (q.qsize ≤ 2 * newsize) ⊎ (maxnbuckets ≤ newsize)
        → IsCalendar q
        → q.resize_enabled ≡ true
        → Ends (λ _. IsResized newsize q) (resize_with rs newsize q)
    resize_with-Ends newsize k q kl e apart room c en =
        subst (Ends λ _. IsResized newsize q) (sym (resize_with_lem newsize q en)) (
          Ends-and_then (λ _. IsUndisturbed q) (λ _. IsResized newsize q) (new_width rs q)
            (copied newsize) (new_width-Ends rs r o q c en)
            (λ w q1 u.
              copied-Ends newsize k w q q1 kl e
                (subst (λ b. b + newsize ≤ calqspace) (sym u.buckets) apart) room c u))

  pub resize-IsQuiet : (fuel : ℕ) → IsQuiet {D = D} {P = P} (resize fuel)
  unfolding resize resize_with
  resize-IsQuiet zero n q e = ground (arith, e)
  resize-IsQuiet (suc fuel) n q e = ground (arith, e)

  -- The same events in a queue.
  abbrev pub IsSettled : Queue D P → Queue D P → Type 0
  IsSettled q q' = IsQueue q' × ((f : Node D P → Bool) → events f q' ≡ events f q)

  module _ (o : IsOrder D) (fuel : ℕ) where
    resize-Ends :
        (newsize k : ℕ) (q : Queue D P)
        → k ≤ 15
        → newsize ≡ pow2 k
        → q.nbuckets + newsize ≤ calqspace
        → (q.qsize ≤ 2 * newsize) ⊎ (maxnbuckets ≤ newsize)
        → IsCalendar q
        → q.resize_enabled ≡ true
        → Ends (λ _. IsSettled q) (resize (suc fuel) newsize q)
    unfolding resize
    resize-Ends newsize k q kl e apart room c en =
        Ends-mono (λ _. IsResized newsize q) (λ _. IsSettled q)
          (resize_with (resize fuel) newsize q) (λ _ q' h. (h.queue, h.same))
          (resize_with-Ends (resize fuel) (resize-IsQuiet fuel) o newsize k q kl e apart room c en)

    pub grow-Ends :
        (q : Queue D P)
        → IsCalendar q
        → q.resize_enabled ≡ true
        → (q.qsize ≤ 2 * q.nbuckets + 1) ⊎ (maxnbuckets ≤ q.nbuckets)
        → Ends (λ _. IsSettled q) (grow (resize (suc fuel)) q)
    grow-Ends q c en room =
        elim (Bool-cases (is_above q.qsize q.top_threshold && ltb q.nbuckets maxnbuckets)) [
          | inl b ↦
              let k = c.power.0 in
              let small : q.nbuckets < maxnbuckets = ground (arith, b) in
              let below = power_below k (omega (arith, c.power.1.1, small)) in
              let half = pow2_mono k 14 below in
              subst (Ends λ _. IsSettled q) (sym (grow_yes (resize (suc fuel)) q b)) (
                resize-Ends (2 * q.nbuckets) (suc k) q (omega (arith, below))
                  (omega (arith, c.power.1.1)) (omega (arith, half, c.power.1.1))
                  (wide room (omega (arith, c.power.1.1, pow2_pos k))) c en)
          | inr b ↦
              subst (Ends λ _. IsSettled q) (sym (grow_no (resize (suc fuel)) q b))
                (record { valid = c; roomy = roomy b room; enabled = en }, λ f. refl)
        ]
      where
        wide :
            (q.qsize ≤ 2 * q.nbuckets + 1) ⊎ (maxnbuckets ≤ q.nbuckets)
            → 1 ≤ q.nbuckets
            → (q.qsize ≤ 2 * (2 * q.nbuckets)) ⊎ (maxnbuckets ≤ 2 * q.nbuckets)
        wide s p = ground (arith, s, p)

        roomy :
            (is_above q.qsize q.top_threshold && ltb q.nbuckets maxnbuckets) ≡ false
            → (q.qsize ≤ 2 * q.nbuckets + 1) ⊎ (maxnbuckets ≤ q.nbuckets)
            → IsRoomy q
        roomy b s = let top = c.top in ground (arith, b, s, top)

    pub shrink-Ends :
        (q : Queue D P) → IsQueue q → Ends (λ _. IsSettled q) (shrink (resize (suc fuel)) q)
    shrink-Ends q h = elim (Bool-cases (is_below q.qsize q.bot_threshold)) [
      | inl b ↦
          let half = halved b h.valid.bottom in
          by_power h.valid.power.0 h.valid.power.1.0 h.valid.power.1.1 b half
      | inr b ↦
          subst (Ends λ _. IsSettled q) (sym (shrink_no (resize (suc fuel)) q b)) (h, λ f. refl)
    ]
      where
        halved :
            is_below q.qsize q.bot_threshold ≡ true
            → q.bot_threshold ≡ minus_two (q.nbuckets / 2)
            → q.qsize + 2 < q.nbuckets / 2
        halved b e = ground (arith, b, e)

        by_power :
            (k : ℕ)
            → k ≤ 15
            → q.nbuckets ≡ pow2 k
            → is_below q.qsize q.bot_threshold ≡ true
            → q.qsize + 2 < q.nbuckets / 2
            → Ends (λ _. IsSettled q) (shrink (resize (suc fuel)) q)
        by_power zero kl e b half = let no_way : ⊥ = omega (arith, e, half) in elim no_way [ ]
        by_power (suc k) kl e b half =
            let bound = pow2_mono k 14 (omega (arith, kl)) in
            subst (Ends λ _. IsSettled q) (sym (shrink_yes (resize (suc fuel)) q b)) (
              resize-Ends (q.nbuckets / 2) k q (omega (arith, kl)) (omega (arith, e))
                (omega (arith, e, bound)) (inl (omega (arith, half))) h.valid h.enabled)
