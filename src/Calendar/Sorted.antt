-- ===== src/Calendar/Sorted.antt =====
-- The order of a bucket: an insertion keeps it sorted and comes behind the events of the same time;
-- the next event is the least.
use linux_fibers.Common.{
  ℕ, ◌+◌, ◌<◌, ◌≤◌, ◌≡◌, ◌⊎◌, refl, sym, subst, true, false, if◌then◌else◌, List, [], ◌∷◌, ◌++◌,
  arith, inl, inr, Bool-cases, pos, All, All-mono,
}
use linux_fibers.Doubles.{Doubles, IsOrder, IsTotal}
use linux_fibers.Calendar.Machine.{Node, Queue, ran}
use linux_fibers.Calendar.Buckets.{insert_sorted, place_after, locate, starts_before}
use linux_fibers.Calendar.Valid.{IsCalendar}
use linux_fibers.Calendar.Round.{with_top}
use linux_fibers.Calendar.Next.{locate-IsNext}

module _ {D P : Type 0} ⦃d : Doubles D⦄ where
  -- No event of the list is before the time.
  abbrev pub NoneBefore : D → List (Node D P) → Type 0
  NoneBefore p ns = All (λ n. d.lt n.priority p ≡ false) ns

  abbrev pub IsSorted : List (Node D P) → Type 0
  IsSorted [] = Unit
  IsSorted (n ∷ ns) = NoneBefore n.priority ns × IsSorted ns

  -- The time is a number.
  abbrev pub IsNumber : Node D P → Type 0
  IsNumber n = d.le n.priority n.priority ≡ true

  -- The events of a list that are not after a time, up to the first one that is; and the rest.
  abbrev pub not_after : D → List (Node D P) → List (Node D P)
  not_after p [] = []
  not_after p (n ∷ ns) = let rest = not_after p ns in if d.le n.priority p then n ∷ rest else []

  abbrev pub from_later : D → List (Node D P) → List (Node D P)
  from_later p [] = []
  from_later p (n ∷ ns) = let rest = from_later p ns in if d.le n.priority p then rest else n ∷ ns

  place_after-split :
      (e : Node D P) (ns : List (Node D P))
      → place_after e ns ≡ not_after e.priority ns ++ e ∷ from_later e.priority ns
  unfolding place_after
  place_after-split e [] = refl
  place_after-split e (n ∷ ns) = ground (arith, place_after-split e ns)

  -- Where the times are numbers, the list of a bucket after an insertion is: the events up to
  -- the first one that is later, then the new event, then the others. The laws of < and <= on
  -- numbers are supposed.
  pub insert_sorted-split :
      IsTotal D
      → (e : Node D P) (ns : List (Node D P)) → IsNumber e
      → All IsNumber ns
      → insert_sorted e ns ≡ not_after e.priority ns ++ e ∷ from_later e.priority ns
  unfolding insert_sorted
  insert_sorted-split t e [] h hs = refl
  insert_sorted-split t e (n ∷ ns) h hs = elim (Bool-cases (d.le n.priority e.priority)) [
    | inl b ↦
        let later = t.not_lt_of_le n.priority e.priority b in
        ground (arith, b, later, place_after-split e ns)
    | inr b ↦
        let before = t.lt_of_not_le n.priority e.priority hs.0 h b in ground (arith, b, before)
  ]

  -- The parts of a sorted list, around the place of the event.
  place_after-Before :
      (p : D) (e : Node D P) (ns : List (Node D P))
      → d.lt e.priority p ≡ false
      → NoneBefore p ns
      → NoneBefore p (place_after e ns)
  unfolding place_after
  place_after-Before p e [] h hs = (h, tt)
  place_after-Before p e (n ∷ ns) h hs = elim (Bool-cases (d.le n.priority e.priority)) [
    | inl b ↦
        subst (λ c. NoneBefore p (if c then n ∷ place_after e ns else e ∷ n ∷ ns)) (sym b)
          (hs.0, place_after-Before p e ns h hs.1)
    | inr b ↦
        subst (λ c. NoneBefore p (if c then n ∷ place_after e ns else e ∷ n ∷ ns)) (sym b) (h, hs)
  ]

  -- An event before the first of a sorted list.
  cons-IsSorted :
      IsOrder D
      → (e n : Node D P) (ns : List (Node D P)) → d.lt e.priority n.priority ≡ true
      → IsSorted (n ∷ ns)
      → IsSorted (e ∷ n ∷ ns)
  cons-IsSorted o e n ns h s = (
    (
      o.lt_below e.priority n.priority n.priority h (o.lt_irrefl n.priority),
      All-mono ns (λ m b. o.lt_below e.priority n.priority m.priority h b) s.0,
    ),
    s,
  )

  place_after-IsSorted :
      IsOrder D
      → IsTotal D
      → (e : Node D P) (ns : List (Node D P)) → IsNumber e
      → All IsNumber ns
      → IsSorted ns
      → IsSorted (place_after e ns)
  unfolding place_after
  place_after-IsSorted o t e [] h hs s = (tt, tt)
  place_after-IsSorted o t e (n ∷ ns) h hs s = elim (Bool-cases (d.le n.priority e.priority)) [
    | inl b ↦
        subst (λ c. IsSorted (if c then n ∷ place_after e ns else e ∷ n ∷ ns)) (sym b)
          (
            place_after-Before n.priority e ns (t.not_lt_of_le n.priority e.priority b) s.0,
            place_after-IsSorted o t e ns h hs.1 s.1,
          )
    | inr b ↦
        subst (λ c. IsSorted (if c then n ∷ place_after e ns else e ∷ n ∷ ns)) (sym b)
          (cons-IsSorted o e n ns (t.lt_of_not_le n.priority e.priority hs.0 h b) s)
  ]

  -- Where the times are numbers, an insertion into a sorted bucket leaves it sorted. The laws
  -- of < and <= on doubles are supposed.
  pub insert_sorted-IsSorted :
      IsOrder D
      → IsTotal D
      → (e : Node D P) (ns : List (Node D P)) → IsNumber e
      → All IsNumber ns
      → IsSorted ns
      → IsSorted (insert_sorted e ns)
  unfolding insert_sorted
  insert_sorted-IsSorted o t e [] h hs s = (tt, tt)
  insert_sorted-IsSorted o t e (n ∷ ns) h hs s = elim (Bool-cases (d.lt e.priority n.priority)) [
    | inl b ↦
        subst (λ c. IsSorted (if c then e ∷ n ∷ ns else n ∷ place_after e ns)) (sym b)
          (cons-IsSorted o e n ns b s)
    | inr b ↦
        subst (λ c. IsSorted (if c then e ∷ n ∷ ns else n ∷ place_after e ns)) (sym b)
          (place_after-Before n.priority e ns b s.0, place_after-IsSorted o t e ns h hs.1 s.1)
  ]

  -- In a sorted bucket that does not begin before a time, nothing is before it.
  starts_before-all :
      IsTotal D
      → (p : D) (ns : List (Node D P)) → IsSorted ns
      → All IsNumber ns
      → starts_before p ns ≡ false
      → NoneBefore p ns
  starts_before-all t p [] s w h = tt
  starts_before-all t p (n ∷ ns) s w h =
      (h, All-mono ns (λ m b. t.not_lt_trans m.priority n.priority p w.0 b h) s.0)

  -- Which event is the next: the least of a bucket, before the top, or the least of all.
  abbrev pub IsLeast : Queue D P → ℕ → D → Node D P → Type 0
  IsLeast q i t e =
      (NoneBefore e.priority (q.calq (q.firstsub + i)) × (d.lt e.priority t ≡ true))
      ⊎ ((j : ℕ) → j < q.nbuckets → NoneBefore e.priority (q.calq (q.firstsub + j)))

  -- In a calendar in its invariant, with an event and with sorted buckets of times that are
  -- numbers, and a last bucket that is not negative, the search returns a bucket of the
  -- calendar whose first event is the least of that bucket and before a top that the round has
  -- reached, or is the least event of the whole queue. The laws of < and <= on doubles are
  -- supposed.
  pub locate-Least :
      IsOrder D
      → IsTotal D
      → (start : ℕ) (q : Queue D P) → IsCalendar q
      → q.lastbucket ≡ pos start
      → 1 ≤ q.qsize
      → ((j : ℕ)
          → j < q.nbuckets
          → IsSorted (q.calq (q.firstsub + j)) × All IsNumber (q.calq (q.firstsub + j)))
      → (i : ℕ) × ((t : D) × ((locate q ≡ ran i (with_top t q))
            × ((i < q.nbuckets)
                × ((e : Node D P) × ((r : List (Node D P)) × ((q.calq (q.firstsub + i) ≡ e ∷ r)
                        × IsLeast q i t e))))))
  locate-Least o total start q c l s sorted =
      let found = locate-IsNext o start q c l s in
      let i = found.0 in
      let next = found.1.1.1.1.1 in
      let first = found.1.1.1.0 in
      (
        i,
        (
          found.1.0,
          (
            found.1.1.0,
            (
              next.0,
              (
                first,
                (
                  found.1.1.1.1.0,
                  (next.1.0, least i first found.1.1.1.1.0 next.0 next.1.0 next.1.1),
                ),
              ),
            ),
          ),
        ),
      )
    where
      least :
          {t : D} (i : ℕ) (e : Node D P) (r : List (Node D P))
          → i < q.nbuckets
          → q.calq (q.firstsub + i) ≡ e ∷ r
          → (d.lt e.priority t ≡ true)
            ⊎ ((j : ℕ)
                → j < q.nbuckets
                → starts_before e.priority (q.calq (q.firstsub + j)) ≡ false)
          → IsLeast q i t e
      least i e r h eq (inl b) = inl (
        subst (NoneBefore e.priority) (sym eq)
            (o.lt_irrefl e.priority, (subst IsSorted eq (sorted i h).0).0),
        b,
      )
      least i e r h eq (inr all) = inr (λ j p.
          starts_before-all total e.priority (q.calq (q.firstsub + j)) (sorted j p).0 (sorted j p).1
            (all j p))
