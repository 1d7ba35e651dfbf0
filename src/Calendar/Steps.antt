-- ===== src/Calendar/Steps.antt =====
-- What an insertion, the search for the next event and its removal do to a calendar, before any
-- change of its size.
use linux_fibers.Common.{
  inl, ℕ, suc, ◌+◌, ◌-◌, ◌<◌, ◌≤◌, ◌≡◌, ◌⊎◌, refl, sym, subst, true, List, ◌∷◌, arith, ℤ, pos,
  negsuc,
}
use linux_fibers.Doubles.{Doubles}
use linux_fibers.Calendar.Machine.{
  Node, Queue, ran, negative, remainder, calqspace, bucket, set_bucket,
}
use linux_fibers.Calendar.Buckets.{enqueue, enqueue_at, insert_sorted, take_first}
use linux_fibers.Calendar.Counts.{count, one_if, count-insert_sorted}
use linux_fibers.Calendar.Valid.{
  IsCalendar, IsFrame, HasMore, Ends, IsBelow, remainder-IsBelow, in_array, with_bucket,
  events-with_bucket, pow2_pos,
}

module _ {D P : Type 0} ⦃d : Doubles D⦄ where
  abbrev pub event : D → P → Node D P
  event p x = record { priority = p; payload = x }

  -- Another calendar with one more event.
  abbrev pub IsAdded : Node D P → Queue D P → Queue D P → Type 0
  IsAdded e q q' = IsCalendar q' × (IsFrame q q' × HasMore e q q')

  abbrev enqueued : ℕ → D → P → Queue D P → Queue D P
  enqueued i p x q =
      record (with_bucket i (insert_sorted (event p x) (q.calq (q.firstsub + i))) q) {
        qsize = suc q.qsize;
      }

  enqueue_at_lem :
      (i : ℕ) (p : D) (x : P) (q : Queue D P)
      → q.firstsub + i < calqspace
      → enqueue_at i p x q ≡ ran tt (enqueued i p x q)
  unfolding enqueue_at bucket set_bucket
  enqueue_at_lem i p x q h = ground (arith, h)

  enqueued-HasMore :
      (i : ℕ) (p : D) (x : P) (q : Queue D P)
      → i < q.nbuckets
      → HasMore (event p x) q (enqueued i p x q)
  enqueued-HasMore i p x q h f = omega (
    arith,
    events-with_bucket q i (insert_sorted (event p x) (q.calq (q.firstsub + i))) f h,
    count-insert_sorted f (event p x) (q.calq (q.firstsub + i)),
  )

  with_bucket_outside :
      (i : ℕ) (ns : List (Node D P)) (q : Queue D P)
      → i < q.nbuckets
      → (j : ℕ) → (j < q.firstsub) ⊎ (q.firstsub + q.nbuckets ≤ j)
      → (with_bucket i ns q).calq j ≡ q.calq j
  with_bucket_outside i ns q h j s = ground (arith, s, h)

  enqueued-IsAdded :
      (i : ℕ) (p : D) (x : P) (q : Queue D P)
      → IsCalendar q
      → i < q.nbuckets
      → IsAdded (event p x) q (enqueued i p x q)
  enqueued-IsAdded i p x q c h = (
    record {
      power = c.power;
      place = c.place;
      last = c.last;
      top = c.top;
      bottom = c.bottom;
      size = omega (arith, c.size, enqueued-HasMore i p x q h (λ _. true));
    },
    (
      record {
        first = refl;
        buckets = refl;
        enabled = refl;
        outside = with_bucket_outside i (insert_sorted (event p x) (q.calq (q.firstsub + i))) q h;
      },
      enqueued-HasMore i p x q h,
    ),
  )

  nbuckets_pos : (q : Queue D P) → IsCalendar q → 1 ≤ q.nbuckets
  nbuckets_pos q c = omega (arith, c.power.1.1, pow2_pos c.power.0)

  enqueue_to :
      (z : ℤ) (p : D) (x : P) (q : Queue D P)
      → IsCalendar q
      → IsBelow D z q.nbuckets
      → remainder (d.to_int (d.div p q.cwidth)) q.nbuckets ≡ z
      → Ends (λ _. IsAdded (event p x) q) (enqueue p x q)
  unfolding enqueue
  enqueue_to (pos i) p x q c h e =
      let run : enqueue p x q ≡ ran tt (enqueued i p x q) =
        ground (arith, e, enqueue_at_lem i p x q (in_array q c i h)) in
      subst (Ends λ _. IsAdded (event p x) q) (sym run) (enqueued-IsAdded i p x q c h)
  enqueue_to (negsuc i) p x q c h e =
      let run : enqueue p x q ≡ negative = ground (arith, e) in
      subst (Ends λ _. IsAdded (event p x) q) (sym run) h

  pub enqueue-Ends :
      (p : D) (x : P) (q : Queue D P)
      → IsCalendar q
      → Ends (λ _. IsAdded (event p x) q) (enqueue p x q)
  enqueue-Ends p x q c =
      enqueue_to (remainder (d.to_int (d.div p q.cwidth)) q.nbuckets) p x q c
        (remainder-IsBelow D _ q.nbuckets (nbuckets_pos q c) (λ e. (p, (q.cwidth, inl e)))) refl

  -- Taking the first event of a bucket.
  abbrev taken : ℕ → Node D P → List (Node D P) → Queue D P → Queue D P
  taken i e ns q = record (with_bucket i ns q) {
    lastbucket = pos i;
    lastprio = e.priority;
    qsize = q.qsize - 1;
  }

  take_first_lem :
      (i : ℕ) (q : Queue D P) (e : Node D P) (ns : List (Node D P))
      → q.firstsub + i < calqspace
      → q.calq (q.firstsub + i) ≡ e ∷ ns
      → take_first i q ≡ ran e (taken i e ns q)
  unfolding take_first bucket set_bucket
  take_first_lem i q e ns h l = ground (arith, h, l)

  taken-HasMore :
      (i : ℕ) (q : Queue D P) (e : Node D P) (ns : List (Node D P))
      → i < q.nbuckets
      → q.calq (q.firstsub + i) ≡ e ∷ ns
      → HasMore e (taken i e ns q) q
  taken-HasMore i q e ns h l f =
      let split : count f (q.calq (q.firstsub + i)) ≡ one_if (f e) + count f ns =
        ground (arith, l) in
      omega (arith, events-with_bucket q i ns f h, split)

  -- A calendar with one event less, which the run returns.
  abbrev pub IsTaken : Queue D P → Node D P → Queue D P → Type 0
  IsTaken q e q' = IsCalendar q' × (IsFrame q q' × HasMore e q' q)

  taken-IsTaken :
      (i : ℕ) (q : Queue D P) (e : Node D P) (ns : List (Node D P))
      → IsCalendar q
      → i < q.nbuckets
      → q.calq (q.firstsub + i) ≡ e ∷ ns
      → IsTaken q e (taken i e ns q)
  taken-IsTaken i q e ns c h l = (
    record {
      power = c.power;
      place = c.place;
      last = h;
      top = c.top;
      bottom = c.bottom;
      size = omega (arith, c.size, taken-HasMore i q e ns h l (λ _. true));
    },
    (
      record {
        first = refl;
        buckets = refl;
        enabled = refl;
        outside = with_bucket_outside i ns q h;
      },
      taken-HasMore i q e ns h l,
    ),
  )

  pub take_first-Ends :
      (i : ℕ) (q : Queue D P) (e : Node D P) (r : List (Node D P))
      → IsCalendar q
      → i < q.nbuckets
      → q.calq (q.firstsub + i) ≡ e ∷ r
      → Ends (IsTaken q) (take_first i q)
  take_first-Ends i q e r c h l =
      subst (Ends (IsTaken q)) (sym (take_first_lem i q e r (in_array q c i h) l))
        (taken-IsTaken i q e r c h l)
