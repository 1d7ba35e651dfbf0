-- ===== src/Calendar/Bag.antt =====
-- The calendar queue as a bag of events: what each operation, and a history of operations, do to
-- the events that are counted by any test.
use linux_fibers.Common.{
  ℕ, suc, ◌+◌, ◌*◌, ◌≤◌, ◌≡◌, ◌⊎◌, refl, sym, subst, Bool, true, List, [], ◌∷◌, arith, inl, Option,
  some, none, ◌∙◌, ap,
}
use linux_fibers.Doubles.{Doubles, IsOrder}
use linux_fibers.Calendar.Machine.{Node, Queue, ran, M, and_then, pure, ◌>>=◌, ◌>>◌}
use linux_fibers.Calendar.{
  resize, calqueue_put, calqueue_deq, calqueue_get, calqueue_init, payload_of,
}
use linux_fibers.Calendar.Buckets.{localinit, enqueue}
use linux_fibers.Calendar.Counts.{events, one_if}
use linux_fibers.Calendar.Valid.{HasMore, Ends, Ends-and_then, Ends-mono}
use linux_fibers.Calendar.Steps.{event, IsAdded, enqueue-Ends}
use linux_fibers.Calendar.Resize.{grow, shrink, put_with_lem, deq_cases}
use linux_fibers.Calendar.Copy.{localinit_lem}
use linux_fibers.Calendar.Laws.{IsQueue, IsSettled, grow-Ends, shrink-Ends}

module _ {D P : Type 0} ⦃d : Doubles D⦄ (o : IsOrder D) where
  -- A queue with one more event.
  abbrev pub IsPut : Node D P → Queue D P → Queue D P → Type 0
  IsPut e q q' = IsQueue q' × HasMore e q q'

  -- On a queue in its invariant, with any fuel from one on, calqueue_put returns a queue in its
  -- invariant with one event more, whatever the doubles are and whether the calendar grows or
  -- not; or it stops at a negative bucket number, and then the cast of some quotient is
  -- negative. It meets no NULL and no index outside the array. It supposes of < that nothing is
  -- below itself, and that what is not below y is not below any x that is below y.
  pub calqueue_put-Ends :
      (fuel : ℕ) (p : D) (x : P) (q : Queue D P)
      → IsQueue q
      → Ends (λ _. IsPut (event p x) q) (calqueue_put (suc fuel) p x q)
  unfolding calqueue_put
  calqueue_put-Ends fuel p x q h =
      subst (Ends λ _. IsPut (event p x) q) (sym (put_with_lem (resize (suc fuel)) p x q)) (
        Ends-and_then (λ _. IsAdded (event p x) q) (λ _. IsPut (event p x) q) (enqueue p x q)
          (λ _. grow (resize (suc fuel))) (enqueue-Ends p x q h.valid)
          (λ _ q' a.
            Ends-mono (λ _. IsSettled q') (λ _. IsPut (event p x) q) (grow (resize (suc fuel)) q')
              (λ _ q'' g. (g.0, λ f. g.1 f ∙ a.1.1 f))
              (grow-Ends o fuel q' a.0 (a.1.0.enabled ∙ h.enabled)
                (room q' a.0.size (a.1.1 (λ _. true)) a.1.0.buckets))))
    where
      room :
          (q' : Queue D P)
          → q'.qsize ≡ events (λ _. true) q'
          → events (λ _. true) q' ≡ 1 + events (λ _. true) q
          → q'.nbuckets ≡ q.nbuckets
          → (q'.qsize ≤ 2 * q'.nbuckets + 1) ⊎ (32768 ≤ q'.nbuckets)
      room q' s m b =
          let size = h.valid.size in let roomy = h.roomy in ground (arith, s, m, b, size, roomy)

  -- Nothing, from an empty queue; or an event that was in the queue and is not any more.
  abbrev pub IsServed : Queue D P → Option (Node D P) → Queue D P → Type 0
  IsServed q none q' = (q.qsize ≡ 0) × (q' ≡ q)
  IsServed q (some e) q' = IsQueue q' × HasMore e q' q

  -- On a queue in its invariant, with any fuel from one on, calqueue_deq returns NULL, from an
  -- empty queue that it leaves as it was, or an event, which the queue in its invariant has
  -- lost, whether the calendar shrinks or not; or it stops at a negative bucket number, and
  -- then the cast of some quotient is negative. It supposes of < that nothing is below itself,
  -- and that what is not below y is not below any x that is below y.
  pub calqueue_deq-Ends :
      (fuel : ℕ) (q : Queue D P) → IsQueue q → Ends (IsServed q) (calqueue_deq (suc fuel) q)
  unfolding calqueue_deq
  calqueue_deq-Ends fuel q h =
      deq_cases (resize (suc fuel)) o (IsServed q) q h.valid (λ z. (z, refl))
        (λ e q' t.
          Ends-and_then (λ _. IsSettled q') (IsServed q) (shrink (resize (suc fuel)) q')
            (λ _. ran (some e))
            (shrink-Ends o fuel q' (record {
              valid = t.0;
              enabled = t.1.0.enabled ∙ h.enabled;
              roomy = room q' t.0.size (t.1.1 (λ _. true)) t.1.0.buckets;
            }))
            (λ _ q'' g. (g.0, λ f. omega (arith, t.1.1 f, g.1 f))))
    where
      room :
          (q' : Queue D P)
          → q'.qsize ≡ events (λ _. true) q'
          → events (λ _. true) q ≡ 1 + events (λ _. true) q'
          → q'.nbuckets ≡ q.nbuckets
          → (q'.qsize ≤ 2 * q'.nbuckets) ⊎ (32768 ≤ q'.nbuckets)
      room q' s m b =
          let size = h.valid.size in let roomy = h.roomy in ground (arith, s, m, b, size, roomy)

  -- Nothing, from an empty queue; or the payload of an event that was in the queue.
  abbrev pub IsGot : Queue D P → Option P → Queue D P → Type 0
  IsGot q none q' = (q.qsize ≡ 0) × (q' ≡ q)
  IsGot q (some x) q' = IsQueue q' × ((p : D) × HasMore (event p x) q' q)

  pub calqueue_get-Ends :
      (fuel : ℕ) (q : Queue D P) → IsQueue q → Ends (IsGot q) (calqueue_get (suc fuel) q)
  unfolding calqueue_get
  calqueue_get-Ends fuel q h =
      Ends-and_then (IsServed q) (IsGot q) (calqueue_deq (suc fuel) q) _
        (calqueue_deq-Ends fuel q h) (λ o q' s. got o q' s)
    where
      got : (o : Option (Node D P)) (q' : Queue D P) → IsServed q o q' → IsGot q (payload_of o) q'
      got none q' s = s
      got (some e) q' s = (s.0, (e.priority, s.1))

  calqueue_init_run :
      (q q' : Queue D P)
      → localinit 0 2 (d.lit 1 0) (d.lit 0 0) q ≡ ran tt q'
      → calqueue_init q ≡ ran tt (record q' { resize_enabled = true })
  unfolding calqueue_init
  calqueue_init_run q q' e =
      ap (λ m. and_then m (λ _ q. ran tt (record q { resize_enabled = true }))) e

  -- On any memory: an empty queue.
  pub calqueue_init_lem :
      (q : Queue D P)
      → (q' : Queue D P) × ((calqueue_init q ≡ ran tt q')
          × (IsQueue q' × ((f : Node D P → Bool) → events f q' ≡ 0)))
  calqueue_init_lem q =
      let fresh =
        localinit_lem 0 2 1 (d.lit 1 0) (d.lit 0 0) q (omega arith) refl (inl refl) (omega arith) in
      let v = fresh.1.1.valid in
      (
        record fresh.0 { resize_enabled = true },
        (
          calqueue_init_run q fresh.0 fresh.1.0,
          (
            record {
              valid = record {
                power = v.power;
                place = v.place;
                last = v.last;
                size = v.size;
                top = v.top;
                bottom = v.bottom;
              };
              roomy = inl (omega (arith, fresh.1.1.empty));
              enabled = refl;
            },
            fresh.1.1.none_left,
          ),
        ),
      )

pub data Command (D P : Type 0) : Type 0 where
  puts : D → P → Command D P
  gets : Command D P

module _ {P : Type 0} where
  abbrev pub count_payloads : (P → Bool) → List P → ℕ
  count_payloads g [] = 0
  count_payloads g (x ∷ xs) = one_if (g x) + count_payloads g xs

  abbrev pub keep : Option P → List P → List P
  keep none xs = xs
  keep (some x) xs = x ∷ xs

abbrev pub payloads_put : {D P : Type 0} → List (Command D P) → List P
payloads_put [] = []
payloads_put (puts p x ∷ cs) = x ∷ payloads_put cs
payloads_put (gets ∷ cs) = payloads_put cs

module _ {D P : Type 0} ⦃d : Doubles D⦄ where
  -- A history of the queue, with the payloads that it got.
  abbrev pub history : List (Command D P) → M D P (List P)
  history [] = pure []
  history (puts p x ∷ cs) = calqueue_put 1 p x >> history cs
  history (gets ∷ cs) = calqueue_get 1 >>= λ o. history cs >>= λ xs. pure (keep o xs)

  -- What was put is what was got and what is left.
  abbrev pub IsBalanced : List (Command D P) → Queue D P → List P → Queue D P → Type 0
  IsBalanced cs q xs q' =
      IsQueue q'
      × ((g : P → Bool)
          → count_payloads g (payloads_put cs) + events (λ n. g n.payload) q
            ≡ count_payloads g xs + events (λ n. g n.payload) q')

  -- Any history of puts and gets on a queue in its invariant ends with a queue in its
  -- invariant, or at a negative bucket number, if the cast of some quotient is negative; and
  -- the payloads that were put or in the queue before are, counted by any test, those that were
  -- got and those that are in the queue after. It supposes of < that nothing is below itself,
  -- and that what is not below y is not below any x that is below y.
  pub history-Balanced :
      IsOrder D
      → (cs : List (Command D P)) (q : Queue D P) → IsQueue q
      → Ends (IsBalanced cs q) (history cs q)
  history-Balanced o [] q h = (h, λ g. refl)
  history-Balanced o (puts p x ∷ cs) q h =
      Ends-and_then (λ _. IsPut o (event p x) q) (IsBalanced (puts p x ∷ cs) q)
        (calqueue_put 1 p x q) (λ _. history cs) (calqueue_put-Ends o 0 p x q h)
        (λ _ q' a.
          Ends-mono (IsBalanced cs q') (IsBalanced (puts p x ∷ cs) q) (history cs q')
            (λ xs q'' b. (b.0, λ g. omega (arith, b.1 g, a.1 (λ n. g n.payload))))
            (history-Balanced o cs q' a.0))
  history-Balanced o (gets ∷ cs) q h =
      Ends-and_then (IsGot o q) (IsBalanced (gets ∷ cs) q) (calqueue_get 1 q) _
        (calqueue_get-Ends o 0 q h)
        (λ v q' a.
          Ends-and_then (IsBalanced cs q') (IsBalanced (gets ∷ cs) q) (history cs q') _
            (history-Balanced o cs q' (queue v q' a))
            (λ xs q'' b. (b.0, λ g. balance v xs q' q'' g a (b.1 g))))
    where
      queue : (v : Option P) (q' : Queue D P) → IsGot o q v q' → IsQueue q'
      queue none q' a = subst IsQueue (sym a.1) h
      queue (some x) q' a = a.0

      balance :
          (v : Option P) (xs : List P) (q' q'' : Queue D P) (g : P → Bool)
          → IsGot o q v q'
          → count_payloads g (payloads_put cs) + events (λ n. g n.payload) q'
            ≡ count_payloads g xs + events (λ n. g n.payload) q''
          → count_payloads g (payloads_put cs) + events (λ n. g n.payload) q
            ≡ count_payloads g (keep v xs) + events (λ n. g n.payload) q''
      balance none xs q' q'' g a b =
          subst
            (λ m.
              count_payloads g (payloads_put cs) + events (λ n. g n.payload) m
              ≡ count_payloads g xs + events (λ n. g n.payload) q'')
            a.1 b
      balance (some x) xs q' q'' g a b = omega (arith, b, a.1.1 (λ n. g n.payload))
