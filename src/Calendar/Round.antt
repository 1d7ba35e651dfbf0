-- ===== src/Calendar/Round.antt =====
-- The round of the search through the buckets: what it visits, and what it may end with.
use linux_fibers.Common.{
  ℕ, zero, suc, ◌+◌, ◌-◌, ◌<◌, ◌≤◌, ◌≡◌, ◌≢◌, refl, sym, subst, true, false, arith, Option, some,
  none, List, [], ◌∷◌, ◌∙◌, if◌then◌else◌, ltb,
}
use linux_fibers.Doubles.{Doubles}
use linux_fibers.Calendar.Machine.{Node, Queue}
use linux_fibers.Calendar.Buckets.{next_bucket, starts_before}

-- How many buckets a round from i visits until it comes to `start`, around the end of the calendar.
abbrev pub to_go : (start i nbuckets : ℕ) → ℕ
to_go start i n = if ltb i start then start - i else n - i + start

-- The bucket k further on than i, around the end of the calendar.
abbrev pub further : (nbuckets i k : ℕ) → ℕ
further n i k = if ltb (i + k) n then i + k else i + k - n

to_go-last : (start i n : ℕ) → i < n → start < n → next_bucket n i ≡ start → to_go start i n ≡ 1
to_go-last start i n h g e = ground arith

pub to_go-next :
    (start i n : ℕ)
    → i < n
    → start < n
    → next_bucket n i ≢ start
    → (next_bucket n i < n) × (suc (to_go start (next_bucket n i) n) ≡ to_go start i n)
to_go-next start i n h g ne = ground arith

pub to_go_bounds :
    (start i n : ℕ) → i < n → start < n → (1 ≤ to_go start i n) × (to_go start i n ≤ n)
to_go_bounds start i n h g = ground arith

pub further_lt : (n i k : ℕ) → i < n → k < n → further n i k < n
further_lt n i k h g = ground arith

further-zero : (n i : ℕ) → i < n → further n i 0 ≡ i
further-zero n i h = ground arith

further-suc : (n i k : ℕ) → i < n → k < n → further n (next_bucket n i) k ≡ further n i (suc k)
further-suc n i k h g = ground arith

-- The top `t` raised k times by `w`.
abbrev pub raises : {D : Type 0} ⦃d : Doubles D⦄ → ℕ → (w t : D) → D
raises zero w t = t
raises ⦃d⦄ (suc k) w t = raises k w (d.add t w)

module _ {D P : Type 0} ⦃d : Doubles D⦄ where
  abbrev pub with_top : D → Queue D P → Queue D P
  with_top t q = record q { buckettop = t }

  abbrev pub raised : Queue D P → Queue D P
  raised q = with_top (d.add q.buckettop q.cwidth) q

  -- The first event of a bucket is before the time `t`.
  abbrev pub IsEarly : D → List (Node D P) → Type 0
  IsEarly t ns =
      (e : Node D P) × (rest : List (Node D P)) × (ns ≡ e ∷ rest) × (d.lt e.priority t ≡ true)

  -- A bucket is empty, or its first event is not before the time `t`.
  abbrev pub IsLate : D → List (Node D P) → Type 0
  IsLate t ns = (e : Node D P) (rest : List (Node D P)) → ns ≡ e ∷ rest → d.lt e.priority t ≡ false

  pub starts_before-IsEarly :
      (t : D) (ns : List (Node D P)) → starts_before t ns ≡ true → IsEarly t ns
  starts_before-IsEarly t [] h = cc
  starts_before-IsEarly t (n ∷ ns) h = (n, ns, refl, h)

  pub starts_before-IsLate :
      (t : D) (ns : List (Node D P)) → starts_before t ns ≡ false → IsLate t ns
  starts_before-IsLate t [] h e rest is = cc
  starts_before-IsLate t (n ∷ ns) h e rest is =
      let same : n ≡ e = cc in subst (λ m. d.lt m.priority t ≡ false) same h

  pub IsEarly-starts_before :
      (t : D) (ns : List (Node D P)) → IsEarly t ns → starts_before t ns ≡ true
  IsEarly-starts_before t ns (e, rest, is, h) = subst (λ l. starts_before t l ≡ true) (sym is) h

  -- The first k buckets that the round visits from i on do not begin before the top at their turn.
  abbrev pub AreMissed : Queue D P → (i k : ℕ) → Type 0
  AreMissed q i k =
      (m : ℕ)
      → m < k
      → IsLate (raises m q.cwidth q.buckettop) (q.calq (q.firstsub + further q.nbuckets i m))

  -- The result of a round from i to `start`: none, with all buckets on the way missed and the top
  -- raised once for each; or the first that is not missed, with the top raised once for each before.
  abbrev pub IsRound : (start i : ℕ) → Queue D P → Option ℕ → Queue D P → Type 0
  IsRound start i q none q' =
      AreMissed q i (to_go start i q.nbuckets)
      × (q' ≡ with_top (raises (to_go start i q.nbuckets) q.cwidth q.buckettop) q)
  IsRound start i q (some j) q' =
      (k : ℕ) × (k < to_go start i q.nbuckets)
      × (j ≡ further q.nbuckets i k)
      × AreMissed q i k
      × (q' ≡ with_top (raises k q.cwidth q.buckettop) q)
      × IsEarly (raises k q.cwidth q.buckettop) (q.calq (q.firstsub + j))

  AreMissed-next :
      (q : Queue D P) (i k : ℕ)
      → i < q.nbuckets
      → k < q.nbuckets
      → IsLate q.buckettop (q.calq (q.firstsub + i))
      → AreMissed (raised q) (next_bucket q.nbuckets i) k
      → AreMissed q i (suc k)
  AreMissed-next q i k h g b rest zero m =
      subst (λ j. IsLate q.buckettop (q.calq (q.firstsub + j))) (sym (further-zero q.nbuckets i h))
        b
  AreMissed-next q i k h g b rest (suc n) m =
      subst (λ j. IsLate (raises (suc n) q.cwidth q.buckettop) (q.calq (q.firstsub + j)))
        (further-suc q.nbuckets i n h (omega (arith, g, m))) (rest n (omega (arith, m)))

  pub IsRound-next :
      (start i : ℕ) (q : Queue D P) (o : Option ℕ) (q' : Queue D P)
      → i < q.nbuckets
      → start < q.nbuckets
      → IsLate q.buckettop (q.calq (q.firstsub + i))
      → next_bucket q.nbuckets i ≢ start
      → IsRound start (next_bucket q.nbuckets i) (raised q) o q'
      → IsRound start i q o q'
  IsRound-next start i q none q' h s b ne (missed, e) =
      let step = to_go-next start i q.nbuckets h s ne in
      let bounds = to_go_bounds start i q.nbuckets h s in
      subst (λ k. AreMissed q i k × (q' ≡ with_top (raises k q.cwidth q.buckettop) q)) step.1
        (
          AreMissed-next q i (to_go start (next_bucket q.nbuckets i) q.nbuckets) h
              (omega (arith, step.1, bounds.1)) b missed,
          e,
        )
  IsRound-next start i q (some j) q' h s b ne (k, less, is, missed, e, early) =
      let step = to_go-next start i q.nbuckets h s ne in
      let bounds = to_go_bounds start i q.nbuckets h s in
      let small : k < q.nbuckets = omega (arith, less, step.1, bounds.1) in
      (
        suc k,
        omega (arith, less, step.1),
        is ∙ further-suc q.nbuckets i k h small,
        AreMissed-next q i k h small b missed,
        e,
        early,
      )

  pub IsRound-hit :
      (start i : ℕ) (q : Queue D P)
      → i < q.nbuckets
      → start < q.nbuckets
      → IsEarly q.buckettop (q.calq (q.firstsub + i))
      → IsRound start i q (some i) q
  IsRound-hit start i q h s b = (
    0,
    (to_go_bounds start i q.nbuckets h s).0,
    sym (further-zero q.nbuckets i h),
    (λ m p. let no : ⊥ = omega (arith, p) in elim no [ ]),
    refl,
    b,
  )

  pub IsRound-end :
      (start i : ℕ) (q : Queue D P)
      → i < q.nbuckets
      → start < q.nbuckets
      → IsLate q.buckettop (q.calq (q.firstsub + i))
      → next_bucket q.nbuckets i ≡ start
      → IsRound start i q none (raised q)
  IsRound-end start i q h s b e =
      subst (λ k. AreMissed q i k × (raised q ≡ with_top (raises k q.cwidth q.buckettop) q))
        (sym (to_go-last start i q.nbuckets h s e))
        (
          AreMissed-next q i 0 h (omega (arith, h)) b
              (λ m p. let no : ⊥ = omega (arith, p) in elim no [ ]),
          refl,
        )
