-- ===== src/Calendar/Locate.antt =====
-- The search for the next event: the round through the buckets ends, and what it returns is a
-- bucket of the calendar.
use linux_fibers.Common.{
  ℕ, zero, suc, ◌+◌, ◌<◌, ◌≤◌, ◌≡◌, sym, subst, true, false, ◌==◌, arith, inl, inr, Bool-cases,
  ==→ne, ==→eq, Option, some, none, ◌∙◌,
}
use linux_fibers.Doubles.{Doubles}
use linux_fibers.Calendar.Machine.{Queue, ran, calqspace, bucket}
use linux_fibers.Calendar.Buckets.{scan, next_bucket, starts_before}
use linux_fibers.Calendar.Valid.{IsCalendar}
use linux_fibers.Calendar.Round.{
  to_go, to_go_bounds, to_go-next, further_lt, with_top, raised, starts_before-IsEarly,
  starts_before-IsLate, IsEarly-starts_before, IsRound, IsRound-next, IsRound-hit, IsRound-end,
}

module _ {D P : Type 0} ⦃d : Doubles D⦄ where
  pub with_top-IsCalendar : (t : D) (q : Queue D P) → IsCalendar q → IsCalendar (with_top t q)
  with_top-IsCalendar t q c = record {
    power = c.power;
    place = c.place;
    last = c.last;
    size = c.size;
    top = c.top;
    bottom = c.bottom;
  }

  -- A bucket of the calendar, or none; only the top has changed.
  abbrev pub IsFound : Queue D P → Option ℕ → Queue D P → Type 0
  IsFound q none q' = (t : D) × (q' ≡ with_top t q)
  IsFound q (some i) q' =
      (i < q.nbuckets)
      × ((t : D) × ((q' ≡ with_top t q) × (starts_before t (q.calq (q.firstsub + i)) ≡ true)))

  scan_hit :
      (fuel start i : ℕ) (q : Queue D P)
      → q.firstsub + i < calqspace
      → starts_before q.buckettop (q.calq (q.firstsub + i)) ≡ true
      → scan (suc fuel) start i q ≡ ran (some i) q
  unfolding scan bucket
  scan_hit fuel start i q h e = ground (arith, h, e)

  scan_end :
      (fuel start i : ℕ) (q : Queue D P)
      → q.firstsub + i < calqspace
      → starts_before q.buckettop (q.calq (q.firstsub + i)) ≡ false
      → (next_bucket q.nbuckets i == start) ≡ true
      → scan (suc fuel) start i q ≡ ran none (raised q)
  unfolding scan bucket
  scan_end fuel start i q h e g = ground (arith, h, e, g)

  scan_next :
      (fuel start i : ℕ) (q : Queue D P)
      → q.firstsub + i < calqspace
      → starts_before q.buckettop (q.calq (q.firstsub + i)) ≡ false
      → (next_bucket q.nbuckets i == start) ≡ false
      → scan (suc fuel) start i q ≡ scan fuel start (next_bucket q.nbuckets i) (raised q)
  unfolding scan bucket
  scan_next fuel start i q h e g = ground (arith, h, e, g)

  -- The round from one bucket to another, around the end of the calendar, ends when its fuel is
  -- at least the number of buckets on the way. It finds the first of these buckets that begins
  -- before the top, which was raised by the width of a bucket for each bucket passed; or none,
  -- and then no bucket on the way begins before the top at its turn, and the top was raised
  -- once for each of them. Nothing else changes.
  pub scan_lem :
      (fuel start i : ℕ) (q : Queue D P)
      → ((j : ℕ) → j < q.nbuckets → q.firstsub + j < calqspace)
      → start < q.nbuckets
      → i < q.nbuckets
      → to_go start i q.nbuckets ≤ fuel
      → (o : Option ℕ) × ((q' : Queue D P) × ((scan fuel start i q ≡ ran o q')
            × IsRound start i q o q'))
  scan_lem zero start i q c s h e =
      let bounds = to_go_bounds start i q.nbuckets h s in
      let no : ⊥ = omega (arith, bounds.0, e) in elim no [ ]
  scan_lem (suc fuel) start i q c s h e =
      elim (Bool-cases (starts_before q.buckettop (q.calq (q.firstsub + i)))) [
        | inl b ↦ (
          some i,
          (
            q,
            (
              scan_hit fuel start i q (c i h) b,
              IsRound-hit start i q h s (starts_before-IsEarly q.buckettop _ b),
            ),
          ),
        )
        | inr b ↦ elim (Bool-cases (next_bucket q.nbuckets i == start)) [
          | inl g ↦ (
            none,
            (
              raised q,
              (
                scan_end fuel start i q (c i h) b g,
                IsRound-end start i q h s (starts_before-IsLate q.buckettop _ b)
                    (==→eq (next_bucket q.nbuckets i) start g),
              ),
            ),
          )
          | inr g ↦
              let ne = ==→ne (next_bucket q.nbuckets i) start g in
              let next = to_go-next start i q.nbuckets h s ne in
              let rest =
                scan_lem fuel start (next_bucket q.nbuckets i) (raised q) c s next.0
                  (omega (arith, next.1, e)) in
              (
                rest.0,
                (
                  rest.1.0,
                  (
                    scan_next fuel start i q (c i h) b g ∙ rest.1.1.0,
                    IsRound-next start i q rest.0 rest.1.0 h s
                        (starts_before-IsLate q.buckettop _ b) ne rest.1.1.1,
                  ),
                ),
              )
        ]
      ]

  pub IsRound-IsFound :
      (start i : ℕ) (q : Queue D P) (o : Option ℕ) (q' : Queue D P)
      → i < q.nbuckets
      → start < q.nbuckets
      → IsRound start i q o q'
      → IsFound q o q'
  IsRound-IsFound start i q none q' h s (missed, e) = (_, e)
  IsRound-IsFound start i q (some j) q' h s (k, less, is, missed, e, early) =
      let bounds = to_go_bounds start i q.nbuckets h s in
      let inside = further_lt q.nbuckets i k h (omega (arith, less, bounds.1)) in
      (subst (λ m. m < q.nbuckets) (sym is) inside, (_, (e, IsEarly-starts_before _ _ early)))
