-- ===== src/Calendar/Buckets.antt =====
-- The buckets of calqueue.c: a new calendar, the place of an event, and the search for the next one.
use linux_fibers.Common.{
  ℕ, zero, suc, ◌+◌, ◌-◌, ◌*◌, ◌/◌, Bool, true, false, List, [], ◌∷◌, Option, none, some, ℤ, pos,
  negsuc, ◌==◌, if◌then◌else◌,
}
use linux_fibers.Doubles.{Doubles}
use linux_fibers.Calendar.Machine.{
  Node, M, ◌>>=◌, ◌>>◌, pure, crash, before, hang, get, modify, remainder, minus_two, bucket,
  set_bucket,
}

-- `(double)(n + 1) * cwidth + 0.5 * cwidth`
abbrev pub top_after : {D : Type 0} ⦃d : Doubles D⦄ → ℤ → D → D
top_after ⦃d⦄ (pos n) w = d.add (d.mul (d.of_int (n + 1)) w) (d.mul (d.lit 5 1) w)
top_after ⦃d⦄ (negsuc n) w = d.add (d.mul (d.neg (d.of_int n)) w) (d.mul (d.lit 5 1) w)

abbrev pub next_bucket : (nbuckets i : ℕ) → ℕ
next_bucket nbuckets i = if suc i == nbuckets then 0 else suc i

module _ {D P : Type 0} ⦃d : Doubles D⦄ where
  -- The loop that empties the buckets from i on, for n more.
  unfoldable pub clear_buckets : (n i : ℕ) → M D P (Unit {0})
  unfolding set_bucket
  clear_buckets zero i = pure tt
  clear_buckets (suc n) i = do set_bucket i []; clear_buckets n (suc i)

  unfoldable pub localinit : (qbase nbucks : ℕ) (bwidth startprio : D) → M D P (Unit {0})
  unfolding clear_buckets
  localinit qbase nbucks bwidth startprio = do
    modify λ q. record q { firstsub = qbase; cwidth = bwidth; nbuckets = nbucks; qsize = 0 }
    clear_buckets nbucks 0
    modify λ q.
        let n = d.to_long (d.div startprio bwidth) in
        record q {
          lastprio = startprio;
          lastbucket = remainder n nbucks;
          buckettop = top_after n bwidth;
          bot_threshold = minus_two (nbucks / 2);
          top_threshold = pos (2 * nbucks);
        }

  -- The new entry in the list of its bucket: at the head, or behind those that are not later.
  unfoldable pub place_after : Node D P → List (Node D P) → List (Node D P)
  place_after e [] = e ∷ []
  place_after e (n ∷ ns) =
      let rest = place_after e ns in if d.le n.priority e.priority then n ∷ rest else e ∷ n ∷ ns

  unfoldable pub insert_sorted : Node D P → List (Node D P) → List (Node D P)
  unfolding place_after
  insert_sorted e [] = e ∷ []
  insert_sorted e (n ∷ ns) = if d.lt e.priority n.priority then e ∷ n ∷ ns else n ∷ place_after e ns

  -- `calqueue_put` up to the size of the calendar, in a bucket.
  unfoldable pub enqueue_at : ℕ → D → P → M D P (Unit {0})
  unfolding insert_sorted bucket set_bucket
  enqueue_at i priority payload = do
    ns ← bucket i
    set_bucket i (insert_sorted (record { priority = priority; payload = payload }) ns)
    modify λ q. record q { qsize = suc q.qsize }

  unfoldable pub enqueue : D → P → M D P (Unit {0})
  unfolding enqueue_at
  enqueue priority payload = do
    i ← get λ q. remainder (d.to_int (d.div priority q.cwidth)) q.nbuckets
    elim i [ negsuc _ ↦ before | pos i ↦ enqueue_at i priority payload ]

  -- `calendar[i] != NULL && calendar[i]->priority < top`
  abbrev pub starts_before : D → List (Node D P) → Bool
  starts_before top [] = false
  starts_before top (n ∷ ns) = d.lt n.priority top

  -- The round through the buckets, on fuel: the bucket that is found, or none for a direct search.
  unfoldable pub scan : (fuel start i : ℕ) → M D P (Option ℕ)
  unfolding bucket
  scan zero start i = hang
  scan (suc fuel) start i = do
    ns ← bucket i
    top ← get λ q. q.buckettop
    if starts_before top ns then pure (some i) else do
      j ← get λ q. next_bucket q.nbuckets i
      modify λ q. record q { buckettop = d.add q.buckettop q.cwidth }
      if j == start then pure none else scan fuel start j

  -- Whether a bucket begins before the best one: `lowest` is the first priority of that.
  abbrev pub improves : List (Node D P) → Option (ℕ × D) → Bool
  improves [] best = false
  improves (n ∷ ns) none = true
  improves (n ∷ ns) (some (_, lowest)) = d.lt n.priority lowest

  abbrev pub first_of : ℕ → List (Node D P) → Option (ℕ × D)
  first_of i [] = none
  first_of i (n ∷ ns) = some (i, n.priority)

  -- The search through n more buckets from i on: `temp2` and `lowest`.
  unfoldable pub direct_search : (n i : ℕ) → Option (ℕ × D) → M D P (Option (ℕ × D))
  unfolding bucket
  direct_search zero i best = pure best
  direct_search (suc n) i best = do
    ns ← bucket i
    direct_search n (suc i) (if improves ns best then first_of i ns else best)

  -- Where the next event is: index -1 of an empty calendar is a fault.
  unfoldable pub locate : M D P ℕ
  unfolding scan direct_search
  locate = do
    start ← get λ q. q.lastbucket
    elim start [
      | negsuc _ ↦ before
      | pos start ↦ do
        nbuckets ← get λ q. q.nbuckets
        found ← scan nbuckets start start
        elim found [
          | some i ↦ pure i
          | none ↦ do
            best ← direct_search nbuckets 0 none
            elim best [ none ↦ crash | some (i, _) ↦ pure i ]
        ]
    ]

  -- `calendar_process` up to the size of the calendar.
  unfoldable pub take_first : ℕ → M D P (Node D P)
  unfolding bucket set_bucket
  take_first i = do
    ns ← bucket i
    elim ns [
      | [] ↦ crash
      | e ∷ ns ↦ do
        modify λ q. record q { lastbucket = pos i; lastprio = e.priority; qsize = q.qsize - 1 }
        set_bucket i ns
        pure e
    ]
