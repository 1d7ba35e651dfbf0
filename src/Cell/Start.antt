-- ===== src/Cell/Start.antt =====
-- The start of a fiber: its first event makes the cell, and then the loop runs.
use linux_fibers.Common.{
  ℕ, suc, ◌≡◌, refl, sym, subst, ap, ◌∙◌, Bool, true, false, ◌&&◌, ◌==◌, arith, Option, none, some,
  if◌then◌else◌,
}
use linux_fibers.Doubles.{Doubles, IsOrder, IsSigned}
use linux_fibers.Calendar.Machine.{Node, Queue}
use linux_fibers.Calendar.{calqueue_get, calqueue_put}
use linux_fibers.Calendar.Counts.{events, one_if}
use linux_fibers.Calendar.Valid.{HasMore}
use linux_fibers.Calendar.Steps.{event}
use linux_fibers.Calendar.Laws.{IsQueue}
use linux_fibers.Calendar.Bag.{
  IsGot, IsPut, calqueue_get-Ends, calqueue_put-Ends, calqueue_init_lem,
}
use linux_fibers.Cell.Machine.{Message, World, ran, and_then, ◌>>◌, pure, on_queue, on_queue_result}
use linux_fibers.Cell.{
  Return, state, number, init_event, on_init, process_event, finish, serve, main_step, main_loop,
  main_start, first_event,
}
use linux_fibers.Cell.Effects.{Ends, Ends-and_then, Ends-if}
use linux_fibers.Cell.Events.{IsAgenda, is_start, is_end, is_bad, on_queue-Ends, events_none}
use linux_fibers.Cell.Steps.{IsBusy}
use linux_fibers.Cell.Handlers.{IsCreated, on_init-Ends}
use linux_fibers.Cell.Loop.{begun, process_init, serve_run, main_loop-Ends}

module _ {D : Type 0} ⦃d : Doubles D⦄ (o : IsOrder D) (signed : IsSigned D) (libc : ℕ → ℕ × ℕ)
    (junk : D) (junk_words : ℕ → ℕ → Bool) where
  -- The first event alone is in the queue, and there is no cell.
  pub record IsFirst (id : ℕ) (w : World D) : Type 0 where
    pub queue : IsQueue w.queue
    pub cell : w.cell ≡ none
    pub alone :
        (f : Node D (Message D) → Bool)
        → events f w.queue ≡ one_if (f (event (d.lit 0 0) (first_event libc junk junk_words id)))

  main_start-Ends :
      (id : ℕ) (w : World D) → Ends (λ _. IsFirst id) (main_start libc junk junk_words id w)
  unfolding main_start
  main_start-Ends id w =
      let made = calqueue_init_lem o w.queue in
      let w1 = record w { queue = made.0 } in
      let e0 = event (d.lit 0 0) (first_event libc junk junk_words id) in
      subst
        (λ r.
          Ends (λ _. IsFirst id)
            (and_then (on_queue_result w r) λ _.
              on_queue (calqueue_put 1 (d.lit 0 0) (first_event libc junk junk_words id)) >> λ w.
              ran tt (record w { cell = none })))
        (sym made.1.0)
        (Ends-and_then (λ _ w'. (w'.cell ≡ w.cell) × IsPut o e0 made.0 w'.queue) (λ _. IsFirst id)
          (on_queue (calqueue_put 1 (d.lit 0 0) (first_event libc junk junk_words id)) w1)
          (λ _ w. ran tt (record w { cell = none }))
          (on_queue-Ends (λ _ q'. IsPut o e0 made.0 q') w1
            (calqueue_put 1 (d.lit 0 0) (first_event libc junk junk_words id) made.0)
            (calqueue_put-Ends o 0 (d.lit 0 0) (first_event libc junk junk_words id) made.0
              made.1.1.0))
          (λ _ w2 h. record {
            queue = h.1.0;
            cell = refl;
            alone = λ f. omega (arith, h.1.1 f, made.1.1.1 f);
          }))

  is_init : ℕ → Node D (Message D) → Bool
  is_init id n = (n.payload.receiver == id) && (n.payload.kind == init_event)

  -- What comes out of the queue first.
  first_out :
      (id : ℕ) (p : D) (m : Message D) (w : World D) (q' : Queue D (Message D))
      → IsFirst id w
      → HasMore (event p m) q' w.queue
      → (m.receiver ≡ id) × ((m.kind ≡ init_event) × (events (λ _. true) q' ≡ 0))
  unfolding is_init
  first_out id p m w q' h more =
      let one = h.alone (λ _. true) in
      let two = more (λ _. true) in
      let zero_left : events (λ _. true) q' ≡ 0 = omega (arith, one, two) in
      let a = h.alone (is_init id) in
      let b = more (is_init id) in
      (
        ground (arith, a, b, events_none q' (is_init id) zero_left),
        (ground (arith, a, b, events_none q' (is_init id) zero_left), zero_left),
      )

  no-IsAgenda :
      (id : ℕ) (q : Queue D (Message D))
      → IsQueue q
      → events (λ _. true) q ≡ 0
      → IsAgenda id q 0 (λ _. 0)
  no-IsAgenda id q h z = record {
    queue = h;
    started = events_none q (is_start id) z;
    ended = λ k p. events_none q (is_end k) z;
    clean = events_none q (is_bad id) z;
  }

  created-Busy :
      (id : ℕ) (a : Return D) (w : World D)
      → IsCreated o signed libc junk junk_words id a w
      → Ends (λ _ w'. IsBusy id w' 1) (finish libc junk junk_words init_event a w)
  created-Busy id (state s) w h = record { state = s; cell = refl; valid = h.0; agenda = h.1 }
  created-Busy id (number n) w h = elim h [ ]

  first_step-Ends :
      (id : ℕ) (w : World D)
      → IsFirst id w
      → Ends (λ _ w'. IsBusy id w' 1) (main_step libc junk junk_words id w)
  unfolding main_step
  first_step-Ends id w h =
      Ends-and_then (λ v w1. (w1.cell ≡ w.cell) × IsGot o w.queue v w1.queue)
        (λ _ w'. IsBusy id w' 1) (on_queue (calqueue_get 1) w) (serve libc junk junk_words id)
        (on_queue-Ends (IsGot o w.queue) w (calqueue_get 1 w.queue)
          (calqueue_get-Ends o 0 w.queue h.queue))
        served
    where
      served :
          (v : Option (Message D)) (w1 : World D)
          → (w1.cell ≡ w.cell) × IsGot o w.queue v w1.queue
          → Ends (λ _ w'. IsBusy id w' 1) (serve libc junk junk_words id v w1)
      served none w1 g =
          let no_way : ⊥ = omega (arith, h.queue.valid.size, g.1.0, h.alone (λ _. true)) in
          elim no_way [ ]
      served (some m) w1 g =
          let out = first_out id g.1.1.0 m w w1.queue h g.1.1.1 in
          subst (Ends λ _ w'. IsBusy id w' 1)
            (sym (serve_run o signed libc junk junk_words id m w1 out.0))
            (Ends-and_then (IsCreated o signed libc junk junk_words id) (λ _ w'. IsBusy id w' 1)
              (process_event libc junk junk_words m w1) (finish libc junk junk_words m.kind)
              (subst (Ends (IsCreated o signed libc junk junk_words id))
                (sym (
                  process_init o signed libc junk junk_words m w1 out.1.0
                  ∙ ap
                      (λ i.
                        on_init libc junk junk_words i (begun o signed libc junk junk_words m w1))
                      out.0))
                (on_init-Ends o signed libc junk junk_words id
                  (begun o signed libc junk junk_words m w1)
                  (no-IsAgenda id w1.queue g.1.0 out.1.1)))
              (λ a w2 c.
                subst (λ k. Ends (λ _ w'. IsBusy id w' 1) (finish libc junk junk_words k a w2))
                  (sym out.1.0) (created-Busy id a w2 c)))

  -- From any memory, a fiber that makes its queue and its first event and then runs its loop
  -- for any number of rounds meets no abort, no exit and no fault: it leaves a cell whose bits,
  -- list and counter agree, and in its queue one start of a call and the end of the call on
  -- each channel that is taken, and no other event; or it stops at a negative bucket number,
  -- and then the cast of some quotient is negative. It supposes that no constant of the code
  -- and no product of numbers that are not negative is negative, and of < that nothing is below
  -- itself, and that what is not below y is not below any x that is below y.
  pub fiber_runs :
      (rounds id : ℕ) (w : World D)
      → Ends
          (λ _ w'. IsBusy id w' 1)
          ((main_start libc junk junk_words id >> main_loop libc junk junk_words (suc rounds) id) w)
  unfolding main_loop
  fiber_runs rounds id w =
      Ends-and_then (λ _. IsFirst id) (λ _ w'. IsBusy id w' 1)
        (main_start libc junk junk_words id w) (λ _. main_loop libc junk junk_words (suc rounds) id)
        (main_start-Ends id w)
        (λ _ w1 first.
          Ends-and_then (λ _ w'. IsBusy id w' 1) (λ _ w'. IsBusy id w' 1)
            (main_step libc junk junk_words id w1)
            (λ more. if more then main_loop libc junk junk_words rounds id else pure false)
            (first_step-Ends id w1 first)
            (λ more w2 b.
              Ends-if (λ _ w'. IsBusy id w' 1) more (main_loop libc junk junk_words rounds id)
                (pure false) w2 (λ _. main_loop-Ends o signed libc junk junk_words rounds id w2 b)
                (λ _. b)))
