-- ===== src/Calendar/Copy.antt =====
-- A new calendar, and the copy of the events of the old one.
use linux_fibers.Common.{
  inr, ℕ, zero, suc, ◌+◌, ◌*◌, ◌/◌, ◌<◌, ◌≤◌, ◌≡◌, ◌⊎◌, refl, sym, subst, Bool, true, List, [], ◌∷◌,
  arith, inl, pos, update, ◌∙◌, ap,
}
use native.Mathlib.Decide.{ℕ_discrete}
use linux_fibers.Doubles.{Doubles}
use linux_fibers.Calendar.Machine.{
  Node, Queue, ran, M, calqspace, maxnbuckets, remainder, minus_two, set_bucket,
}
use linux_fibers.Calendar.{put_with, put_all, copy_buckets}
use linux_fibers.Calendar.Buckets.{clear_buckets, localinit, top_after}
use linux_fibers.Calendar.Counts.{events, count, sum_to, sum_ext, sum_zero}
use linux_fibers.Calendar.Valid.{
  IsCalendar, IsFrame, Ends, Ends-and_then, Ends-mono, IsFrame-trans, IsFrame-refl, pow2, pow2_pos,
  remainder-IsBelow,
}
use linux_fibers.Calendar.Steps.{IsAdded}
use linux_fibers.Calendar.Resize.{put_roomy}

module _ {D P : Type 0} ⦃d : Doubles D⦄ where
  abbrev with_calq : (ℕ → List (Node D P)) → Queue D P → Queue D P
  with_calq f q = record q { calq = f }

  -- An array with n empty buckets from a base on, and the others as they were.
  abbrev IsCleared : (base n : ℕ) (g f : ℕ → List (Node D P)) → Type 0
  IsCleared base n g f =
      ((j : ℕ) → base ≤ j → j < base + n → f j ≡ [])
      × ((j : ℕ) → (j < base) ⊎ (base + n ≤ j) → f j ≡ g j)

  clear_one :
      (n i : ℕ) (q : Queue D P)
      → q.firstsub + i < calqspace
      → clear_buckets (suc n) i q
        ≡ clear_buckets n (suc i) (with_calq (update q.calq (q.firstsub + i) []) q)
  unfolding clear_buckets set_bucket
  clear_one n i q h = ground (arith, h)

  clear_buckets_lem :
      (n i : ℕ) (q : Queue D P)
      → q.firstsub + i + n ≤ calqspace
      → (f : ℕ → List (Node D P)) × ((clear_buckets n i q ≡ ran tt (with_calq f q))
          × IsCleared (q.firstsub + i) n q.calq f)
  unfolding clear_buckets
  clear_buckets_lem zero i q h =
      (q.calq, (refl, (λ j a b. (let no : ⊥ = omega (arith, a, b) in elim no [ ]), λ j s. refl)))
  clear_buckets_lem (suc n) i q h =
      let q' = with_calq (update q.calq (q.firstsub + i) []) q in
      let rest = clear_buckets_lem n (suc i) q' (omega (arith, h)) in
      (
        rest.0,
        (
          clear_one n i q (omega (arith, h)) ∙ rest.1.0,
          (
            λ j a b. elim (ℕ_discrete j (q.firstsub + i)) [
              | yes e ↦ rest.1.1.1 j (inl (omega (arith, e))) ∙ cleared q.calq j (q.firstsub + i) e
              | no ne ↦ rest.1.1.0 j (omega (arith, a, ne)) (omega (arith, b))
            ],
            λ j s. rest.1.1.1 j (apart j s) ∙ other q.calq j (q.firstsub + i) s,
          ),
        ),
      )
    where
      cleared : (g : ℕ → List (Node D P)) (j k : ℕ) → j ≡ k → update g k [] j ≡ []
      cleared g j k e = ground (arith, e)

      other :
          (g : ℕ → List (Node D P)) (j k : ℕ) → (j < k) ⊎ (k + suc n ≤ j) → update g k [] j ≡ g j
      other g j k s = ground (arith, s)

      apart :
          (j : ℕ)
          → (j < q.firstsub + i) ⊎ (q.firstsub + i + suc n ≤ j)
          → (j < q.firstsub + suc i) ⊎ (q.firstsub + suc i + n ≤ j)
      apart j s = ground (arith, s)

  -- The calendar that `localinit` leaves.
  abbrev initial : (base nb : ℕ) (w t : D) → (ℕ → List (Node D P)) → Queue D P → Queue D P
  initial base nb w t f q = record q {
    calq = f;
    firstsub = base;
    nbuckets = nb;
    cwidth = w;
    qsize = 0;
    lastprio = t;
    lastbucket = remainder (d.to_long (d.div t w)) nb;
    buckettop = top_after (d.to_long (d.div t w)) w;
    bot_threshold = minus_two (nb / 2);
    top_threshold = pos (2 * nb);
  }

  localinit_run :
      (base nb : ℕ) (w t : D) (f : ℕ → List (Node D P)) (q : Queue D P)
      → clear_buckets nb 0 (record q { firstsub = base; cwidth = w; nbuckets = nb; qsize = 0 })
        ≡ ran tt (record q { calq = f; firstsub = base; cwidth = w; nbuckets = nb; qsize = 0 })
      → localinit base nb w t q ≡ ran tt (initial base nb w t f q)
  unfolding localinit
  localinit_run base nb w t f q h = ground (arith, h)

  -- An empty calendar of a new size; the rest of the array is as it was.
  pub record IsFresh (base nb : ℕ) (q q' : Queue D P) : Type 0 where
    pub valid : IsCalendar q'
    pub first : q'.firstsub ≡ base
    pub buckets : q'.nbuckets ≡ nb
    pub empty : q'.qsize ≡ 0
    pub none_left : (f : Node D P → Bool) → events f q' ≡ 0
    pub enabled : q'.resize_enabled ≡ q.resize_enabled
    pub outside : (j : ℕ) → (j < base) ⊎ (base + nb ≤ j) → q'.calq j ≡ q.calq j

  pub localinit_lem :
      (base nb k : ℕ) (w t : D) (q : Queue D P)
      → k ≤ 15
      → nb ≡ pow2 k
      → (base ≡ 0) ⊎ (base + nb ≡ calqspace)
      → base + nb ≤ calqspace
      → (q' : Queue D P) × ((localinit base nb w t q ≡ ran tt q') × IsFresh base nb q q')
  localinit_lem base nb k w t q kl e place h =
      let clear =
        clear_buckets_lem nb 0 (record q { firstsub = base; cwidth = w; nbuckets = nb; qsize = 0 })
          (omega (arith, h)) in
      let none_left : (f : Node D P → Bool) → events f (initial base nb w t clear.0 q) ≡ 0 = λ f.
        sum_zero (λ i. count f (clear.0 (base + i))) nb
          (λ i p. ap (count f) (clear.1.1.0 (base + i) (omega arith) (omega (arith, p)))) in
      (
        initial base nb w t clear.0 q,
        (
          localinit_run base nb w t clear.0 q clear.1.0,
          record {
            valid = record {
              power = (k, (kl, e));
              place = place;
              last =
                  remainder-IsBelow D (d.to_long (d.div t w)) nb (omega (arith, e, pow2_pos k))
                    (λ c. (t, (w, inr c)));
              size = sym (none_left (λ _. true));
              top = refl;
              bottom = refl;
            };
            first = refl;
            buckets = refl;
            empty = refl;
            none_left = none_left;
            enabled = refl;
            outside = λ j s. clear.1.1.1 j (shift j s);
          },
        ),
      )
    where
      shift : (j : ℕ) → (j < base) ⊎ (base + nb ≤ j) → (j < base + 0) ⊎ (base + 0 + nb ≤ j)
      shift j s = ground (arith, s)

  -- There is room for n more events.
  abbrev pub HasRoom : ℕ → Queue D P → Type 0
  HasRoom n q = (q.qsize + n ≤ 2 * q.nbuckets) ⊎ (maxnbuckets ≤ q.nbuckets)

  -- All events of a list, or of a number of buckets, are put.
  abbrev pub IsGained : ((Node D P → Bool) → ℕ) → Queue D P → Queue D P → Type 0
  IsGained g q q' =
      IsCalendar q' × (IsFrame q q' × ((f : Node D P → Bool) → events f q' ≡ g f + events f q))

  -- The events of n buckets from a base on.
  abbrev pub stored : (base n : ℕ) → Queue D P → (Node D P → Bool) → ℕ
  stored base n q f = sum_to (λ j. count f (q.calq (base + j))) n

  module _ (resize : ℕ → M D P (Unit {0})) where
    put_all-Ends :
        (es : List (Node D P)) (q : Queue D P)
        → IsCalendar q
        → HasRoom (count (λ _. true) es) q
        → Ends (λ _. IsGained (λ f. count f es) q) (put_all resize es q)
    unfolding put_all
    put_all-Ends [] q c r = (c, (IsFrame-refl q, λ f. omega arith))
    put_all-Ends (v ∷ es) q c r =
        Ends-and_then (λ _. IsAdded v q) (λ _. IsGained (λ f. count f (v ∷ es)) q)
          (put_with resize v.priority v.payload q) _
          (put_roomy resize v.priority v.payload q c (ground (arith, r)))
          (λ _ q' h.
            Ends-mono (λ _. IsGained (λ f. count f es) q') (λ _. IsGained (λ f. count f (v ∷ es)) q)
              (put_all resize es q')
              (λ _ q'' g.
                (g.0, (IsFrame-trans q q' q'' h.1.0 g.1.0, λ f. omega (arith, h.1.1 f, g.1.1 f))))
              (put_all-Ends es q' h.0 (room q' (h.1.1 (λ _. true)) h.0.size h.1.0.buckets)))
      where
        room :
            (q' : Queue D P)
            → events (λ _. true) q' ≡ 1 + events (λ _. true) q
            → q'.qsize ≡ events (λ _. true) q'
            → q'.nbuckets ≡ q.nbuckets
            → HasRoom (count (λ _. true) es) q'
        room q' e s b = let size = c.size in ground (arith, e, s, b, size, r)

    pub copy_buckets-Ends :
        (base n : ℕ) (q : Queue D P)
        → IsCalendar q
        → ((j : ℕ) → j < n → (base + j < q.firstsub) ⊎ (q.firstsub + q.nbuckets ≤ base + j))
        → HasRoom (stored base n q (λ _. true)) q
        → Ends (λ _. IsGained (stored base n q) q) (copy_buckets resize base n q)
    unfolding copy_buckets
    copy_buckets-Ends base zero q c away r = (c, (IsFrame-refl q, λ f. omega arith))
    copy_buckets-Ends base (suc n) q c away r =
        Ends-and_then (λ _. IsGained (λ f. count f (q.calq (base + n))) q)
          (λ _. IsGained (stored base (suc n) q) q) (put_all resize (q.calq (base + n)) q) _
          (put_all-Ends (q.calq (base + n)) q c (ground (arith, r)))
          (λ _ q' h.
            let same : (f : Node D P → Bool) → stored base n q' f ≡ stored base n q f = λ f.
              sum_ext (λ j. count f (q'.calq (base + j))) (λ j. count f (q.calq (base + j))) n
                (λ j p. ap (count f) (h.1.0.outside (base + j) (away j (omega (arith, p))))) in
            Ends-mono (λ _. IsGained (stored base n q') q')
              (λ _. IsGained (stored base (suc n) q) q) (copy_buckets resize base n q')
              (λ _ q'' g. (
                g.0,
                (IsFrame-trans q q' q'' h.1.0 g.1.0, λ f. omega (arith, h.1.1 f, g.1.1 f, same f)),
              ))
              (copy_buckets-Ends base n q' h.0
                (λ j p.
                  subst (λ a. (base + j < a) ⊎ (a + q'.nbuckets ≤ base + j)) (sym h.1.0.first)
                    (subst (λ b. (base + j < q.firstsub) ⊎ (q.firstsub + b ≤ base + j))
                      (sym h.1.0.buckets) (away j (omega (arith, p)))))
                (room q' (h.1.1 (λ _. true)) h.0.size h.1.0.buckets (same (λ _. true)))))
      where
        room :
            (q' : Queue D P)
            → events (λ _. true) q' ≡ count (λ _. true) (q.calq (base + n)) + events (λ _. true) q
            → q'.qsize ≡ events (λ _. true) q'
            → q'.nbuckets ≡ q.nbuckets
            → stored base n q' (λ _. true) ≡ stored base n q (λ _. true)
            → HasRoom (stored base n q' (λ _. true)) q'
        room q' e s b m = let size = c.size in ground (arith, e, s, b, m, size, r)
