-- ===== src/Calendar/Resize.antt =====
-- Putting, dequeueing and resizing: they end, the calendar stays valid, and no event is lost or
-- made up.
use linux_fibers.Common.{
  ℕ, suc, ◌*◌, ◌/◌, ◌≤◌, ◌≡◌, ◌≢◌, ◌⊎◌, refl, sym, subst, true, false, ◌&&◌, if◌then◌else◌, arith,
  inl, inr, Bool-cases, ℤ, pos, negsuc, Option, some, none, ◌∙◌, ap, ltb,
}
use native.Mathlib.Decide.{ℕ_discrete}
use linux_fibers.Doubles.{Doubles, IsOrder}
use linux_fibers.Calendar.Machine.{
  Node, Queue, ran, negative, M, and_then, maxnbuckets, is_above, is_below,
}
use linux_fibers.Calendar.{put_with, deq_with}
use linux_fibers.Calendar.Buckets.{enqueue, locate, take_first}
use linux_fibers.Calendar.Valid.{IsBelow, IsCalendar, IsRoomy, Ends, Ends-and_then}
use linux_fibers.Calendar.Steps.{event, IsAdded, IsTaken, enqueue-Ends, take_first-Ends}
use linux_fibers.Calendar.Locate.{with_top-IsCalendar}
use linux_fibers.Calendar.Round.{with_top}
use linux_fibers.Calendar.Next.{locate-IsNext}

module _ {D P : Type 0} ⦃d : Doubles D⦄ where
  -- A run of `resize` while that is disabled.
  abbrev pub IsQuiet : (ℕ → M D P (Unit {0})) → Type 0
  IsQuiet resize = (n : ℕ) (q : Queue D P) → q.resize_enabled ≡ false → resize n q ≡ ran tt q

  module _ (resize : ℕ → M D P (Unit {0})) where
    -- The change of size at the end of `calqueue_put` and of `calqueue_deq`.
    abbrev pub grow : M D P (Unit {0})
    grow q =
        (if is_above q.qsize q.top_threshold && ltb q.nbuckets maxnbuckets
            then resize (2 * q.nbuckets)
            else λ q. ran tt q)
          q

    abbrev pub shrink : M D P (Unit {0})
    shrink q =
        (if is_below q.qsize q.bot_threshold then resize (q.nbuckets / 2) else λ q. ran tt q) q

    pub grow_yes :
        (q : Queue D P)
        → (is_above q.qsize q.top_threshold && ltb q.nbuckets maxnbuckets) ≡ true
        → grow q ≡ resize (2 * q.nbuckets) q
    grow_yes q b = ap (λ c. (if c then resize (2 * q.nbuckets) else λ q. ran tt q) q) b

    pub grow_no :
        (q : Queue D P)
        → (is_above q.qsize q.top_threshold && ltb q.nbuckets maxnbuckets) ≡ false
        → grow q ≡ ran tt q
    grow_no q b = ap (λ c. (if c then resize (2 * q.nbuckets) else λ q. ran tt q) q) b

    pub shrink_yes :
        (q : Queue D P)
        → is_below q.qsize q.bot_threshold ≡ true
        → shrink q ≡ resize (q.nbuckets / 2) q
    shrink_yes q b = ap (λ c. (if c then resize (q.nbuckets / 2) else λ q. ran tt q) q) b

    pub shrink_no : (q : Queue D P) → is_below q.qsize q.bot_threshold ≡ false → shrink q ≡ ran tt q
    shrink_no q b = ap (λ c. (if c then resize (q.nbuckets / 2) else λ q. ran tt q) q) b

    pub put_with_lem :
        (p : D) (x : P) (q : Queue D P)
        → put_with resize p x q ≡ and_then (enqueue p x q) (λ _. grow)
    unfolding put_with
    put_with_lem p x q = refl

    pub grow_quiet : IsQuiet resize → (q : Queue D P) → q.resize_enabled ≡ false → grow q ≡ ran tt q
    grow_quiet r q e =
        elim (Bool-cases (is_above q.qsize q.top_threshold && ltb q.nbuckets maxnbuckets)) [
          | inl b ↦ grow_yes q b ∙ r (2 * q.nbuckets) q e
          | inr b ↦ grow_no q b
        ]

    pub shrink_quiet :
        IsQuiet resize → (q : Queue D P) → q.resize_enabled ≡ false → shrink q ≡ ran tt q
    shrink_quiet r q e = elim (Bool-cases (is_below q.qsize q.bot_threshold)) [
      | inl b ↦ shrink_yes q b ∙ r (q.nbuckets / 2) q e
      | inr b ↦ shrink_no q b
    ]

    pub grow_roomy : (q : Queue D P) → IsCalendar q → IsRoomy q → grow q ≡ ran tt q
    grow_roomy q c r = ground (arith, c.top, r)

    deq_nothing : (q : Queue D P) → q.qsize ≡ 0 → deq_with resize q ≡ ran none q
    unfolding deq_with
    deq_nothing q e = ground (arith, e)

    deq_negative :
        (i : ℕ) (q : Queue D P)
        → q.qsize ≢ 0
        → q.lastbucket ≡ negsuc i
        → deq_with resize q ≡ negative
    unfolding deq_with locate
    deq_negative i q e l = ground (arith, e, l)

    deq_from :
        (i : ℕ) (t : D) (q : Queue D P)
        → q.qsize ≢ 0
        → locate q ≡ ran i (with_top t q)
        → deq_with resize q
          ≡ and_then (take_first i (with_top t q)) (λ e q. and_then (shrink q) (λ _. ran (some e)))
    unfolding deq_with
    deq_from i t q e l = ground (arith, e, l)

  IsTaken-any_top :
      (t : D) (q : Queue D P) (e : Node D P) (q' : Queue D P)
      → IsTaken (with_top t q) e q'
      → IsTaken q e q'
  IsTaken-any_top t q e q' h =
      let f = h.1.0 in
      (
        h.0,
        (
          record { first = f.first; buckets = f.buckets; enabled = f.enabled; outside = f.outside },
          h.1.1,
        ),
      )

  module _ (resize : ℕ → M D P (Unit {0})) where
    -- An event is put, and no change of size follows.
    put_still :
        (p : D) (x : P) (q : Queue D P)
        → IsCalendar q
        → ((q' : Queue D P) → IsAdded (event p x) q q' → grow resize q' ≡ ran tt q')
        → Ends (λ _. IsAdded (event p x) q) (put_with resize p x q)
    put_still p x q c g =
        subst (Ends λ _. IsAdded (event p x) q) (sym (put_with_lem resize p x q)) (
          Ends-and_then (λ _. IsAdded (event p x) q) (λ _. IsAdded (event p x) q) (enqueue p x q)
            (λ _. grow resize) (enqueue-Ends p x q c)
            (λ _ q' h. subst (Ends λ _. IsAdded (event p x) q) (sym (g q' h)) h))

    pub put_quiet :
        IsQuiet resize
        → (p : D) (x : P) (q : Queue D P) → IsCalendar q
        → q.resize_enabled ≡ false
        → Ends (λ _. IsAdded (event p x) q) (put_with resize p x q)
    put_quiet r p x q c e = put_still p x q c (λ q' h. grow_quiet resize r q' (h.1.0.enabled ∙ e))

    pub put_roomy :
        (p : D) (x : P) (q : Queue D P)
        → IsCalendar q
        → (suc q.qsize ≤ 2 * q.nbuckets) ⊎ (maxnbuckets ≤ q.nbuckets)
        → Ends (λ _. IsAdded (event p x) q) (put_with resize p x q)
    put_roomy p x q c r = put_still p x q c (λ q' h. grow_roomy resize q' h.0 (room q' h))
      where
        room : (q' : Queue D P) → IsAdded (event p x) q q' → IsRoomy q'
        room q' h =
            let more = h.1.1 (λ _. true) in
            let size = h.0.size in
            let buckets = h.1.0.buckets in ground (arith, more, size, c.size, buckets, r)

    -- A dequeue is nothing, a fault, or the removal of an event with what follows it.
    pub deq_cases :
        IsOrder D
        → (Ψ : Option (Node D P) → Queue D P → Type 0) (q : Queue D P) → IsCalendar q
        → (q.qsize ≡ 0 → Ψ none q)
        → ((e : Node D P) (q' : Queue D P)
            → IsTaken q e q'
            → Ends Ψ (and_then (shrink resize q') (λ _. ran (some e))))
        → Ends Ψ (deq_with resize q)
    deq_cases o Ψ q c none_left go = elim (ℕ_discrete q.qsize 0) [
      | yes z ↦ subst (Ends Ψ) (sym (deq_nothing resize q z)) (none_left z)
      | no nz ↦ by_last q.lastbucket nz refl
    ]
      where
        by_last : (z : ℤ) → q.qsize ≢ 0 → q.lastbucket ≡ z → Ends Ψ (deq_with resize q)
        by_last (negsuc i) nz l =
            subst (Ends Ψ) (sym (deq_negative resize i q nz l))
              (subst (λ z. IsBelow D z q.nbuckets) l c.last)
        by_last (pos start) nz l =
            let found = locate-IsNext o start q c l (omega (arith, nz)) in
            let t = found.1.0 in
            subst (Ends Ψ) (sym (deq_from resize found.0 t q nz found.1.1.0)) (
              Ends-and_then (IsTaken (with_top t q)) Ψ (take_first found.0 (with_top t q))
                (λ e q'. and_then (shrink resize q') (λ _. ran (some e)))
                (take_first-Ends found.0 (with_top t q) found.1.1.1.0 found.1.1.1.1.0
                  (with_top-IsCalendar t q c) found.1.1.1.1.1.0 found.1.1.1.1.1.1.0)
                (λ e q' h. go e q' (IsTaken-any_top t q e q' h)))

    abbrev pub IsDequeued : Queue D P → Option (Node D P) → Queue D P → Type 0
    IsDequeued q none q' = (q.qsize ≡ 0) × (q' ≡ q)
    IsDequeued q (some e) q' = IsTaken q e q'

    pub deq_quiet :
        IsOrder D
        → IsQuiet resize
        → (q : Queue D P) → IsCalendar q
        → q.resize_enabled ≡ false
        → Ends (IsDequeued q) (deq_with resize q)
    deq_quiet o r q c e =
        deq_cases o (IsDequeued q) q c (λ z. (z, refl))
          (λ v q' h.
            subst (λ m. Ends (IsDequeued q) (and_then m (λ _. ran (some v))))
              (sym (shrink_quiet resize r q' (h.1.0.enabled ∙ e))) h)
