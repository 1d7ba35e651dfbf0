-- ===== src/Calendar/Width.antt =====
-- The sampling of a new width takes events out and puts them back.
use linux_fibers.Common.{
  ℕ, zero, suc, ◌+◌, ◌-◌, ◌<◌, ◌≤◌, ◌≡◌, ◌⊎◌, refl, sym, subst, Bool, true, false, List, [], ◌∷◌,
  arith, inl, inr, Bool-cases, Option, some, none, ◌∙◌, ltb, ltb→le, ltb→lt,
}
use linux_fibers.Doubles.{Doubles, IsOrder}
use linux_fibers.Calendar.Machine.{Node, Queue, Run, ran, M, and_then}
use linux_fibers.Calendar.{
  put_with, deq_with, sample, put_back, new_width, measured_width, nsamples, deref,
}
use linux_fibers.Calendar.Counts.{events, count}
use linux_fibers.Calendar.Valid.{
  IsCalendar, IsFrame, Ends, Ends-and_then, Ends-mono, IsBelow, IsFrame-trans, IsFrame-refl,
  and_then_assoc,
}
use linux_fibers.Calendar.Steps.{IsAdded, IsTaken}
use linux_fibers.Calendar.Resize.{IsQuiet, put_quiet, deq_quiet, IsDequeued}

module _ {D P : Type 0} ⦃d : Doubles D⦄ where
  -- The calendar is another, with the same events and the same place in time.
  pub record IsUndisturbed (q q' : Queue D P) : Type 0 where
    pub valid : IsCalendar q'
    pub first : q'.firstsub ≡ q.firstsub
    pub buckets : q'.nbuckets ≡ q.nbuckets
    pub enabled : q'.resize_enabled ≡ true
    pub outside : (j : ℕ) → (j < q.firstsub) ⊎ (q.firstsub + q.nbuckets ≤ j) → q'.calq j ≡ q.calq j
    pub same : (f : Node D P → Bool) → events f q' ≡ events f q
    pub bucket : q'.lastbucket ≡ q.lastbucket
    pub time : q'.lastprio ≡ q.lastprio
    pub top : q'.buckettop ≡ q.buckettop

module _ {D P : Type 0} ⦃d : Doubles D⦄ (resize : ℕ → M D P (Unit {0})) (r : IsQuiet resize) where
  -- The events of the list are out of the calendar.
  abbrev IsSampled : Queue D P → List (Node D P) × D → Queue D P → Type 0
  IsSampled q s q' =
      IsCalendar q'
      × (IsFrame q q' × ((f : Node D P → Bool) → events f q ≡ count f s.0 + events f q'))

  -- The events of the list are back in it.
  abbrev IsReturned : List (Node D P) → Queue D P → Queue D P → Type 0
  IsReturned es q q' =
      IsCalendar q'
      × (IsFrame q q' × ((f : Node D P → Bool) → events f q' ≡ count f es + events f q))

  abbrev keep : Node D P → List (Node D P) × D → Queue D P → Run (Queue D P) (List (Node D P) × D)
  keep e s = ran (e ∷ s.0, s.1)

  sample_one :
      (n : ℕ) (prev : Node D P) (average : D) (q : Queue D P)
      → sample resize (suc n) prev average q
        ≡ and_then (deq_with resize q) (λ o q'. and_then (deref o q') (λ e q'.
          and_then
            (sample resize n e (d.add average (d.sub e.priority prev.priority)) q')
            (keep e)))
  unfolding sample
  sample_one n prev average q = refl

  -- With enough events, a dequeue returns one.
  deq_some :
      IsOrder D
      → (q : Queue D P) → IsCalendar q
      → q.resize_enabled ≡ false
      → 1 ≤ q.qsize
      → Ends (IsTaken q) (and_then (deq_with resize q) deref)
  deq_some o q c e s =
      Ends-and_then (IsDequeued resize q) (IsTaken q) (deq_with resize q) deref
        (deq_quiet resize o r q c e) after
    where
      after :
          (v : Option (Node D P)) (q' : Queue D P)
          → IsDequeued resize q v q'
          → Ends (IsTaken q) (deref v q')
      after none q' h = omega (arith, h.0, s)
      after (some v) q' h = h

  sample-Ends :
      IsOrder D
      → (n : ℕ) (prev : Node D P) (average : D) (q : Queue D P) → IsCalendar q
      → q.resize_enabled ≡ false
      → n ≤ q.qsize
      → Ends (IsSampled q) (sample resize n prev average q)
  unfolding sample
  sample-Ends o zero prev average q c e s = (c, (IsFrame-refl q, λ f. omega arith))
  sample-Ends o (suc n) prev average q c e s =
      let more : Node D P → D = λ v. d.add average (d.sub v.priority prev.priority) in
      let next : Node D P → Queue D P → Run (Queue D P) (List (Node D P) × D) =
        λ v q'. and_then (sample resize n v (more v) q') (keep v) in
      let whole : sample resize (suc n) prev average q
          ≡ and_then (and_then (deq_with resize q) deref) next =
        sample_one n prev average q ∙ and_then_assoc (deq_with resize q) deref next in
      subst (Ends (IsSampled q)) (sym whole) (
        Ends-and_then (IsTaken q) (IsSampled q) (and_then (deq_with resize q) deref) next
          (deq_some o q c e (omega (arith, s)))
          (λ v q' h.
            Ends-and_then (IsSampled q') (IsSampled q) (sample resize n v (more v) q') (keep v)
              (sample-Ends o n v (more v) q' h.0 (h.1.0.enabled ∙ e)
                (omega (arith, s, c.size, h.0.size, h.1.1 (λ _. true))))
              (λ es q'' g.
                (g.0, (IsFrame-trans q q' q'' h.1.0 g.1.0, λ f. omega (arith, h.1.1 f, g.1.1 f))))))

  put_back-Ends :
      (prev : Node D P) (es : List (Node D P)) (average newaverage : D) (j : ℕ) (q : Queue D P)
      → IsCalendar q
      → q.resize_enabled ≡ false
      → Ends (λ _. IsReturned es q) (put_back resize prev es average newaverage j q)
  unfolding put_back
  put_back-Ends prev [] average newaverage j q c e = (c, (IsFrame-refl q, λ f. omega arith))
  put_back-Ends prev (v ∷ es) average newaverage j q c e =
      Ends-and_then (λ _. IsAdded v q) (λ _. IsReturned (v ∷ es) q)
        (put_with resize v.priority v.payload q) _ (put_quiet resize r v.priority v.payload q c e)
        (λ _ q' h.
          Ends-mono (λ _. IsReturned es q') (λ _. IsReturned (v ∷ es) q)
            (put_back resize v es average _ _ q')
            (λ _ q'' g.
              (g.0, (IsFrame-trans q q' q'' h.1.0 g.1.0, λ f. omega (arith, h.1.1 f, g.1.1 f))))
            (put_back-Ends v es average _ _ q' h.0 (h.1.0.enabled ∙ e)))

  abbrev disabled : Queue D P → Queue D P
  disabled q = record q { resize_enabled = false }

  new_width_small : (q : Queue D P) → q.qsize < 2 → new_width resize q ≡ ran (d.lit 1 0) q
  unfolding new_width
  new_width_small q h = ground (arith, h)

  -- The steps of `new_width` for a calendar of at least two events.
  abbrev restored : Queue D P → Queue D P → Queue D P
  restored old q = record q {
    lastbucket = old.lastbucket;
    lastprio = old.lastprio;
    buckettop = old.buckettop;
    resize_enabled = true;
  }

  abbrev resampled : Queue D P → Node D P → Queue D P → Run (Queue D P) D
  resampled old first q =
      and_then (sample resize (nsamples old.qsize - 1) first (d.lit 0 0) q) λ s q.
        and_then (put_with resize first.priority first.payload q) λ _ q.
          and_then
            (put_back resize first s.0 (d.div s.1 (d.of_int (nsamples old.qsize - 1))) (d.lit 0 0) 0
              q)
            λ w q. ran (d.mul (d.div w.0 (d.of_int w.1)) (d.lit 3 0)) (restored old q)

  new_width_large : (q : Queue D P) → 2 ≤ q.qsize → new_width resize q ≡ measured_width resize q q
  unfolding new_width
  new_width_large q h = ground (arith, h)

  measured_width_lem :
      (q : Queue D P)
      → measured_width resize q q
        ≡ and_then (and_then (deq_with resize (disabled q)) deref) (resampled q)
  unfolding measured_width
  measured_width_lem q = and_then_assoc (deq_with resize (disabled q)) deref (resampled q)

  disabled-IsCalendar : (q : Queue D P) → IsCalendar q → IsCalendar (disabled q)
  disabled-IsCalendar q c = record {
    power = c.power;
    place = c.place;
    last = c.last;
    size = c.size;
    top = c.top;
    bottom = c.bottom;
  }

  restored-IsUndisturbed :
      (q q' : Queue D P)
      → IsCalendar q
      → IsCalendar q'
      → IsFrame (disabled q) q'
      → ((f : Node D P → Bool) → events f q' ≡ events f q)
      → IsUndisturbed q (restored q q')
  restored-IsUndisturbed q q' c c' fr same = record {
    valid = record {
      power = c'.power;
      place = c'.place;
      size = c'.size;
      top = c'.top;
      bottom = c'.bottom;
      last = subst (IsBelow D q.lastbucket) (sym fr.buckets) c.last;
    };
    first = fr.first;
    buckets = fr.buckets;
    enabled = refl;
    outside = fr.outside;
    same = same;
    bucket = refl;
    time = refl;
    top = refl;
  }

  resampled-Ends :
      IsOrder D
      → (q : Queue D P) → IsCalendar q
      → 2 ≤ q.qsize
      → (v : Node D P) (q' : Queue D P) → IsTaken (disabled q) v q'
      → Ends (λ _. IsUndisturbed q) (resampled q v q')
  resampled-Ends o q c s v q1 h =
      Ends-and_then (IsSampled q1) (λ _. IsUndisturbed q)
        (sample resize (nsamples q.qsize - 1) v (d.lit 0 0) q1) _
        (sample-Ends o (nsamples q.qsize - 1) v (d.lit 0 0) q1 h.0 h.1.0.enabled
          (enough q.qsize q1.qsize s (omega (arith, c.size, h.0.size, h.1.1 (λ _. true)))))
        (λ es q2 h2.
          Ends-and_then (λ _. IsAdded v q2) (λ _. IsUndisturbed q)
            (put_with resize v.priority v.payload q2) _
            (put_quiet resize r v.priority v.payload q2 h2.0 (h2.1.0.enabled ∙ h.1.0.enabled))
            (λ _ q3 h3.
              Ends-and_then (λ _. IsReturned es.0 q3) (λ _. IsUndisturbed q)
                (put_back resize v es.0 _ (d.lit 0 0) 0 q3) _
                (put_back-Ends v es.0 _ (d.lit 0 0) 0 q3 h3.0
                  (h3.1.0.enabled ∙ (h2.1.0.enabled ∙ h.1.0.enabled)))
                (λ _ q4 h4.
                  restored-IsUndisturbed q q4 c h4.0
                    (IsFrame-trans (disabled q) q1 q4 h.1.0
                      (IsFrame-trans q1 q2 q4 h2.1.0 (IsFrame-trans q2 q3 q4 h3.1.0 h4.1.0)))
                    (λ f. omega (arith, h.1.1 f, h2.1.1 f, h3.1.1 f, h4.1.1 f)))))
    where
      enough : (n m : ℕ) → 2 ≤ n → n ≡ suc m → nsamples n - 1 ≤ m
      enough n m h e = ground (arith, h, e)

  -- From a calendar in its invariant with resizing enabled, new_width takes out its samples and
  -- puts them back: it ends with the same events, the same last bucket, last priority and top,
  -- and resizing enabled; or at a negative bucket number, if the cast of some quotient is
  -- negative. What it calls for a nested resize does nothing while resizing is disabled. It
  -- supposes of < that nothing is below itself, and that what is not below y is not below any x
  -- that is below y.
  pub new_width-Ends :
      IsOrder D
      → (q : Queue D P) → IsCalendar q
      → q.resize_enabled ≡ true
      → Ends (λ _. IsUndisturbed q) (new_width resize q)
  new_width-Ends o q c e = elim (Bool-cases (ltb q.qsize 2)) [
    | inl b ↦
        subst (Ends λ _. IsUndisturbed q) (sym (new_width_small q (ltb→lt q.qsize 2 b))) (record {
          valid = c;
          first = refl;
          buckets = refl;
          enabled = e;
          outside = λ j s. refl;
          same = λ f. refl;
          bucket = refl;
          time = refl;
          top = refl;
        })
    | inr b ↦
        let large = ltb→le q.qsize 2 b in
        subst (Ends λ _. IsUndisturbed q) (sym (new_width_large q large ∙ measured_width_lem q)) (
          Ends-and_then (IsTaken (disabled q)) (λ _. IsUndisturbed q)
            (and_then (deq_with resize (disabled q)) deref) (resampled q)
            (deq_some o (disabled q) (disabled-IsCalendar q c) refl (omega (arith, large)))
            (resampled-Ends o q c large))
  ]
