-- ===== src/Calendar/Next.antt =====
-- What the round and the direct search find: the bucket of the next event.
use linux_fibers.Common.{
  ℕ, ◌+◌, ◌<◌, ◌≤◌, ◌≡◌, ◌⊎◌, refl, subst, true, false, List, [], ◌∷◌, arith, inl, inr, pos, Option,
  some, none, ◌∙◌, ap,
}
use linux_fibers.Doubles.{Doubles, IsOrder}
use linux_fibers.Calendar.Machine.{Node, Queue, ran}
use linux_fibers.Calendar.Buckets.{scan, direct_search, locate, starts_before, first_of}
use linux_fibers.Calendar.Counts.{events, count, sum_zero}
use linux_fibers.Calendar.Valid.{IsCalendar, IsBelow, in_array}
use linux_fibers.Calendar.Locate.{IsFound, IsRound-IsFound, scan_lem}
use linux_fibers.Calendar.Round.{with_top}
use linux_fibers.Calendar.Search.{IsBest, direct_search-IsBest}

module _ {D P : Type 0} ⦃d : Doubles D⦄ where
  empty_events :
      (q : Queue D P)
      → ((j : ℕ) → j < q.nbuckets → q.calq (q.firstsub + j) ≡ [])
      → events (λ _. true) q ≡ 0
  empty_events q h =
      sum_zero (λ i. count (λ _. true) (q.calq (q.firstsub + i))) q.nbuckets
        (λ i p. ap (count λ _. true) (h i p))

  first_of-some :
      (i k : ℕ) (l : D) (ns : List (Node D P))
      → first_of i ns ≡ some (k, l)
      → (e : Node D P) × ((r : List (Node D P)) × (ns ≡ e ∷ r))
  first_of-some i k l [] h = cc
  first_of-some i k l (e ∷ r) h = (e, (r, refl))

  starts_before-some :
      (t : D) (ns : List (Node D P))
      → starts_before t ns ≡ true
      → (e : Node D P) × ((r : List (Node D P)) × (ns ≡ e ∷ r))
  starts_before-some t [] h = cc
  starts_before-some t (e ∷ r) h = (e, (r, refl))

  -- A bucket with a first event that is before the top, or the least event of the calendar.
  abbrev pub IsNext : Queue D P → ℕ → D → Node D P → List (Node D P) → Type 0
  IsNext q i t e r =
      (i < q.nbuckets)
      × ((q.calq (q.firstsub + i) ≡ e ∷ r)
          × ((d.lt e.priority t ≡ true)
              ⊎ ((j : ℕ)
                  → j < q.nbuckets
                  → starts_before e.priority (q.calq (q.firstsub + j)) ≡ false)))

  locate_found :
      (start i : ℕ) (q q' : Queue D P)
      → q.lastbucket ≡ pos start
      → scan q.nbuckets start start q ≡ ran (some i) q'
      → locate q ≡ ran i q'
  unfolding locate
  locate_found start i q q' l h = ground (arith, l, h)

  locate_direct :
      (start i : ℕ) (lowest : D) (q q' : Queue D P)
      → q.lastbucket ≡ pos start
      → scan q.nbuckets start start q ≡ ran none q'
      → direct_search q.nbuckets 0 none q' ≡ ran (some (i, lowest)) q'
      → locate q ≡ ran i q'
  unfolding locate
  locate_direct start i lowest q q' l h g = ground (arith, l, h, g)

  -- What `locate` finds.
  abbrev IsLocated : Queue D P → Type 0
  IsLocated q =
      (i : ℕ) × ((t : D) × ((locate q ≡ ran i (with_top t q))
          × ((e : Node D P) × ((r : List (Node D P)) × IsNext q i t e r))))

  first_of-head :
      (i : ℕ) (l : D) (e : Node D P) (r : List (Node D P))
      → first_of i (e ∷ r) ≡ some (i, l)
      → l ≡ e.priority
  first_of-head i l e r h = cc

  -- After a round that found nothing.
  locate_by_best :
      (start : ℕ) (q : Queue D P)
      → IsCalendar q
      → q.lastbucket ≡ pos start
      → 1 ≤ q.qsize
      → (t : D) → scan q.nbuckets start start q ≡ ran none (with_top t q)
      → (b : Option (ℕ × D)) → direct_search q.nbuckets 0 none (with_top t q) ≡ ran b (with_top t q)
      → IsBest (with_top t q) (0 + q.nbuckets) b
      → IsLocated q
  locate_by_best start q c l s t run none found best =
      let nothing = empty_events q (λ j p. best j (omega (arith, p))) in
      let no : ⊥ = omega (arith, nothing, s, c.size) in elim no [ ]
  locate_by_best start q c l s t run (some (i, lowest)) found best =
      let first = first_of-some i i lowest (q.calq (q.firstsub + i)) best.1.0 in
      let head =
        first_of-head i lowest first.0 first.1.0
          (subst (λ m. first_of i m ≡ some (i, lowest)) first.1.1 best.1.0) in
      (
        i,
        (
          t,
          (
            locate_direct start i lowest q (with_top t q) l run found,
            (
              first.0,
              (
                first.1.0,
                (
                  omega (arith, best.0),
                  (
                    first.1.1,
                    inr (λ j p.
                        subst (λ m. starts_before m (q.calq (q.firstsub + j)) ≡ false) head
                          (best.1.1 j (omega (arith, p)))),
                  ),
                ),
              ),
            ),
          ),
        ),
      )

  -- By the result of the round.
  locate_by :
      IsOrder D
      → (start : ℕ) (q : Queue D P) → IsCalendar q
      → q.lastbucket ≡ pos start
      → 1 ≤ q.qsize
      → (o : Option ℕ) (q' : Queue D P) → scan q.nbuckets start start q ≡ ran o q'
      → IsFound q o q'
      → IsLocated q
  locate_by o start q c l s (some i) q' run found =
      let t = found.1.0 in
      let first = starts_before-some t (q.calq (q.firstsub + i)) found.1.1.1 in
      let early : d.lt first.0.priority t ≡ true =
        subst (λ m. starts_before t m ≡ true) first.1.1 found.1.1.1 in
      (
        i,
        (
          t,
          (
            locate_found start i q q' l run ∙ ap (ran i) found.1.1.0,
            (first.0, (first.1.0, (found.0, (first.1.1, inl early)))),
          ),
        ),
      )
  locate_by o start q c l s none q' run found =
      let t = found.0 in
      let run' : scan q.nbuckets start start q ≡ ran none (with_top t q) =
        run ∙ ap (ran none) found.1 in
      let best =
        direct_search-IsBest o q.nbuckets 0 none (with_top t q)
          (λ j p. in_array q c j (omega (arith, p)))
          (λ j p. let no : ⊥ = omega (arith, p) in elim no [ ]) in
      locate_by_best start q c l s t run' best.0 best.1.0 best.1.1

  pub locate-IsNext :
      IsOrder D
      → (start : ℕ) (q : Queue D P) → IsCalendar q
      → q.lastbucket ≡ pos start
      → 1 ≤ q.qsize
      → (i : ℕ) × ((t : D) × ((locate q ≡ ran i (with_top t q))
            × ((e : Node D P) × ((r : List (Node D P)) × IsNext q i t e r))))
  locate-IsNext o start q c l s =
      let inside : start < q.nbuckets = subst (λ z. IsBelow D z q.nbuckets) l c.last in
      let round =
        scan_lem q.nbuckets start start q (in_array q c) inside inside (ground (arith, inside)) in
      locate_by o start q c l s round.0 round.1.0 round.1.1.0
        (IsRound-IsFound start start q round.0 round.1.0 inside inside round.1.1.1)
