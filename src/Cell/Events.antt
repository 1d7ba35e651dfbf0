-- ===== src/Cell/Events.antt =====
-- The events in the queue of a fiber, counted by what they are.
use linux_fibers.Common.{
  ℕ, zero, suc, ◌+◌, ◌<◌, ◌≤◌, ◌≡◌, refl, ◌∙◌, Bool, true, false, not, ◌||◌, ◌&&◌, List, [], ◌∷◌,
  ◌==◌, arith, ℤ, pos, negsuc, ltb,
}
use linux_fibers.Doubles.{Doubles, IsOrder}
use linux_fibers.Calendar.Machine
use linux_fibers.Calendar.Machine.{Node, Queue}
use linux_fibers.Calendar.{calqueue_put}
use linux_fibers.Calendar.Counts.{events, count, one_if, sum_to}
use linux_fibers.Calendar.Valid
use linux_fibers.Calendar.Valid.{HasMore}
use linux_fibers.Calendar.Steps.{event}
use linux_fibers.Calendar.Laws.{IsQueue}
use linux_fibers.Calendar.Bag.{IsPut, calqueue_put-Ends}
use linux_fibers.Cell.Machine.{Message, World, on_queue_result}
use linux_fibers.Cell.Radio.{channels_in_cell}
use linux_fibers.Cell.{start_call, end_call, pack_event, schedule_event}
use linux_fibers.Cell.Effects.{Ends, Ends-mono}

abbrev pub is_number : ℕ → ℤ → Bool
is_number k (pos i) = i == k
is_number k (negsuc i) = false

abbrev pub is_valid : ℤ → Bool
is_valid (pos i) = ltb i channels_in_cell
is_valid (negsuc i) = false

sum_le : (g h : ℕ → ℕ) (n : ℕ) → ((i : ℕ) → g i ≤ h i) → sum_to g n ≤ sum_to h n
sum_le g h zero e = omega arith
sum_le g h (suc n) e = omega (arith, sum_le g h n e, e n)

module _ {D : Type 0} where
  -- The start of a call, the end of the call on a channel, and what is neither.
  abbrev pub is_start : ℕ → Node D (Message D) → Bool
  is_start id n = (n.payload.receiver == id) && (n.payload.kind == start_call)

  abbrev pub is_end : ℕ → Node D (Message D) → Bool
  is_end k n = (n.payload.kind == end_call) && is_number k n.payload.channel_number

  abbrev pub is_good : ℕ → Node D (Message D) → Bool
  is_good id n =
      (n.payload.receiver == id)
      && ((n.payload.kind == start_call)
          || ((n.payload.kind == end_call) && is_valid n.payload.channel_number))

  abbrev pub is_bad : ℕ → Node D (Message D) → Bool
  is_bad id n = not (is_good id n)

  -- A queue with a number of starts, of ends for each channel, and nothing else.
  pub record IsAgenda ⦃d : Doubles D⦄ (id : ℕ) (q : Queue D (Message D)) (starts : ℕ) (ends : ℕ → ℕ)
      : Type 0 where
    pub queue : IsQueue q
    pub started : events (is_start id) q ≡ starts
    pub ended : (k : ℕ) → k < channels_in_cell → events (is_end k) q ≡ ends k
    pub clean : events (is_bad id) q ≡ 0

  pub on_queue-Ends :
      ⦃d : Doubles D⦄ {A : Type 0} (Φ : A → Queue D (Message D) → Type 0) (w : World D)
      (r : Machine.Run (Queue D (Message D)) A)
      → Valid.Ends Φ r
      → Ends (λ a w'. (w'.cell ≡ w.cell) × Φ a w'.queue) (on_queue_result w r)
  on_queue-Ends Φ w (Machine.Run.ran a q) h = (refl, h)
  on_queue-Ends Φ w Machine.Run.negative h = h
  on_queue-Ends Φ w Machine.Run.fault h = h
  on_queue-Ends Φ w Machine.Run.stuck h = h

  count_le :
      (f : Node D (Message D) → Bool) (ns : List (Node D (Message D)))
      → count f ns ≤ count (λ _. true) ns
  count_le f [] = omega arith
  count_le f (n ∷ ns) = ground (arith, count_le f ns)

  -- A queue without events has none of any kind.
  pub events_none :
      (q : Queue D (Message D)) (f : Node D (Message D) → Bool)
      → events (λ _. true) q ≡ 0
      → events f q ≡ 0
  events_none q f h = omega (
    arith,
    h,
    sum_le (λ i. count f (q.calq (q.firstsub + i)))
        (λ i. count (λ _. true) (q.calq (q.firstsub + i))) q.nbuckets
        (λ i. count_le f (q.calq (q.firstsub + i))),
  )

module _ {D : Type 0} ⦃d : Doubles D⦄ (o : IsOrder D) (libc : ℕ → ℕ × ℕ) (junk : D)
    (junk_words : ℕ → ℕ → Bool) where
  schedule-Ends :
      (me kind : ℕ) (stamp : D) (ch : ℤ) (w : World D)
      → IsQueue w.queue
      → Ends
          (λ _ w'.
            (w'.cell ≡ w.cell)
            × IsPut o
                (event stamp (pack_event libc junk junk_words me kind stamp ch))
                w.queue
                w'.queue)
          (schedule_event libc junk junk_words me kind stamp ch w)
  unfolding schedule_event
  schedule-Ends me kind stamp ch w h =
      on_queue-Ends
        (λ _ q'.
          IsPut o (event stamp (pack_event libc junk junk_words me kind stamp ch)) w.queue q')
        w (calqueue_put 1 stamp (pack_event libc junk junk_words me kind stamp ch) w.queue)
        (calqueue_put-Ends o 0 stamp (pack_event libc junk junk_words me kind stamp ch) w.queue h)

  -- One more start.
  pub schedule_start :
      (id : ℕ) (stamp : D) (w : World D) (ends : ℕ → ℕ)
      → IsAgenda id w.queue 0 ends
      → Ends
          (λ _ w'. (w'.cell ≡ w.cell) × IsAgenda id w'.queue 1 ends)
          (schedule_event libc junk junk_words id start_call stamp (negsuc 0) w)
  schedule_start id stamp w ends a =
      Ends-mono
        (λ _ w'.
          (w'.cell ≡ w.cell)
          × IsPut o (event stamp (pack_event libc junk junk_words id start_call stamp (negsuc 0)))
              w.queue w'.queue)
        (λ _ w'. (w'.cell ≡ w.cell) × IsAgenda id w'.queue 1 ends)
        (schedule_event libc junk junk_words id start_call stamp (negsuc 0) w)
        (λ _ w' h. (
          h.0,
          record {
            queue = h.1.0;
            started = h.1.1 (is_start id) ∙ ground (arith, a.started);
            ended = λ k p. h.1.1 (is_end k) ∙ ground (arith, a.ended k p);
            clean = h.1.1 (is_bad id) ∙ ground (arith, a.clean);
          },
        ))
        (schedule-Ends id start_call stamp (negsuc 0) w a.queue)

  -- One more end, of the call on a channel.
  pub schedule_end :
      (id ch starts : ℕ) (stamp : D) (w : World D) (ends : ℕ → ℕ)
      → ch < channels_in_cell
      → IsAgenda id w.queue starts ends
      → Ends
          (λ _ w'.
            (w'.cell ≡ w.cell) × IsAgenda id w'.queue starts (λ k. one_if (ch == k) + ends k))
          (schedule_event libc junk junk_words id end_call stamp (pos ch) w)
  schedule_end id ch starts stamp w ends small a =
      Ends-mono
        (λ _ w'.
          (w'.cell ≡ w.cell)
          × IsPut o (event stamp (pack_event libc junk junk_words id end_call stamp (pos ch)))
              w.queue w'.queue)
        (λ _ w'. (w'.cell ≡ w.cell) × IsAgenda id w'.queue starts (λ k. one_if (ch == k) + ends k))
        (schedule_event libc junk junk_words id end_call stamp (pos ch) w)
        (λ _ w' h. (
          h.0,
          record {
            queue = h.1.0;
            started = h.1.1 (is_start id) ∙ ground (arith, a.started);
            ended = λ k p. h.1.1 (is_end k) ∙ ground (arith, a.ended k p);
            clean = h.1.1 (is_bad id) ∙ ground (arith, a.clean, small);
          },
        ))
        (schedule-Ends id end_call stamp (pos ch) w a.queue)
