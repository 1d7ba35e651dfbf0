-- ===== src/Cell/Loop.antt =====
-- The loop of a fiber never ends in an abort, an exit or a fault.
use linux_fibers.Common.{
  ℕ, zero, suc, ◌<◌, ◌≡◌, ◌⊎◌, refl, sym, subst, ap, ◌∙◌, Bool, true, false, ◌==◌, arith,
  Bool-cases, Option, none, some, ℤ, pos, negsuc, inl, inr, if◌then◌else◌, ==→eq,
}
use mathlib.Core.Option.{map as map_option}
use linux_fibers.Doubles.{Doubles, IsOrder, IsSigned}
use linux_fibers.Calendar.Machine.{Queue}
use linux_fibers.Calendar.{calqueue_get}
use linux_fibers.Calendar.Counts.{events}
use linux_fibers.Calendar.Valid.{HasMore}
use linux_fibers.Calendar.Steps.{event}
use linux_fibers.Calendar.Laws.{IsQueue}
use linux_fibers.Calendar.Bag.{IsGot, calqueue_get-Ends}
use linux_fibers.Cell.Machine.{Message, Cell, World, and_then, pure, on_queue}
use linux_fibers.Cell.Radio.{channels_in_cell, has_id}
use linux_fibers.Cell.{
  Return, state, number, init_event, start_call, end_call, started, process_event, on_init,
  on_start_call, on_end_call, finish, serve, main_step, main_loop,
}
use linux_fibers.Cell.Valid.{IsCell}
use linux_fibers.Cell.Effects.{Ends, Ends-and_then, Ends-if}
use linux_fibers.Cell.Events.{IsAgenda, is_start, is_end, is_bad, on_queue-Ends, events_none}
use linux_fibers.Cell.Steps.{taken, IsBusy, blocked-IsCell}
use linux_fibers.Cell.Handlers.{IsServing, on_start_call-Ends, on_end_call-Ends}

module _ {D : Type 0} ⦃d : Doubles D⦄ (o : IsOrder D) (signed : IsSigned D) (libc : ℕ → ℕ × ℕ)
    (junk : D) (junk_words : ℕ → ℕ → Bool) where
  -- The kinds of a good event.
  is_good-kinds :
      (id : ℕ) (p : D) (m : Message D)
      → is_bad id (event p m) ≡ false
      → (m.receiver ≡ id)
        × ((m.kind ≡ start_call)
            ⊎ ((m.kind ≡ end_call)
                × ((k : ℕ) × ((m.channel_number ≡ pos k) × (k < channels_in_cell)))))
  is_good-kinds id p m h = by_number m.channel_number refl
    where
      by_number :
          (z : ℤ)
          → m.channel_number ≡ z
          → (m.receiver ≡ id)
            × ((m.kind ≡ start_call)
                ⊎ ((m.kind ≡ end_call)
                    × ((k : ℕ) × ((m.channel_number ≡ pos k) × (k < channels_in_cell)))))
      by_number (negsuc i) e = (ground (arith, h, e), inl (ground (arith, h, e)))
      by_number (pos k) e = elim (Bool-cases (m.kind == start_call)) [
        | inl b ↦ (ground (arith, h, e, b), inl (==→eq m.kind start_call b))
        | inr b ↦ (
          ground (arith, h, e, b),
          inr (ground (arith, h, e, b), (k, (e, ground (arith, h, e, b)))),
        )
      ]

  -- The handler that is chosen.
  abbrev pub begun : Message D → World D → World D
  begun m w = record w { cell = map_option (started libc junk junk_words m.timestamp) w.cell }

  process_start :
      (m : Message D) (w : World D)
      → m.kind ≡ start_call
      → process_event libc junk junk_words m w
        ≡ on_start_call libc junk junk_words m.receiver m.timestamp (begun m w)
  unfolding process_event
  process_start m w e = ground (arith, e)

  process_end :
      (m : Message D) (w : World D)
      → m.kind ≡ end_call
      → process_event libc junk junk_words m w
        ≡ on_end_call libc junk junk_words m.channel_number (begun m w)
  unfolding process_event
  process_end m w e = ground (arith, e)

  pub process_init :
      (m : Message D) (w : World D)
      → m.kind ≡ init_event
      → process_event libc junk junk_words m w ≡ on_init libc junk junk_words m.receiver (begun m w)
  unfolding process_event
  process_init m w e = ground (arith, e)

  begun_cell :
      (m : Message D) (w : World D) (s : Cell D)
      → w.cell ≡ some s
      → (begun m w).cell ≡ some (started libc junk junk_words m.timestamp s)
  begun_cell m w s e = ap (map_option (started libc junk junk_words m.timestamp)) e

  started-IsCell : (t : D) (s : Cell D) → IsCell s → IsCell (started libc junk junk_words t s)
  started-IsCell t s v =
      blocked-IsCell o signed libc junk junk_words s (started libc junk junk_words t) v refl

  -- The queue has lost a start, or the end of the call on a channel that is taken.
  without_start :
      (id : ℕ) (p : D) (m : Message D) (q q' : Queue D (Message D)) (ends : ℕ → ℕ)
      → m.receiver ≡ id
      → m.kind ≡ start_call
      → IsAgenda id q 1 ends
      → IsQueue q'
      → HasMore (event p m) q' q
      → IsAgenda id q' 0 ends
  without_start id p m q q' ends r k a queue h = record {
    queue = queue;
    started = let e = h (is_start id) in let n = a.started in ground (arith, e, n, r, k);
    ended = λ j b. let e = h (is_end j) in let n = a.ended j b in ground (arith, e, n, k);
    clean = omega (arith, h (is_bad id), a.clean);
  }

  without_end :
      (id c : ℕ) (p : D) (m : Message D) (q q' : Queue D (Message D)) (s : Cell D)
      → m.kind ≡ end_call
      → m.channel_number ≡ pos c
      → c < channels_in_cell
      → IsAgenda id q 1 (taken s)
      → IsQueue q'
      → HasMore (event p m) q' q
      → (has_id c s.channels ≡ true) × IsAgenda id q' 1 (λ j. if j == c then 0 else taken s j)
  without_end id c p m q q' s k n small a queue h = (
    is_taken,
    record {
      queue = queue;
      started = let e = h (is_start id) in let n = a.started in ground (arith, e, n, k);
      ended = λ j b. let e = h (is_end j) in let t = a.ended j b in ground (arith, e, t, k, n);
      clean = omega (arith, h (is_bad id), a.clean);
    },
  )
    where
      is_taken : has_id c s.channels ≡ true
      is_taken = let e = h (is_end c) in let t = a.ended c small in ground (arith, e, t, k, n)

  process_event-Ends :
      (id : ℕ) (p : D) (m : Message D) (w w1 : World D) (b : IsBusy id w 1)
      → w1.cell ≡ w.cell
      → IsQueue w1.queue
      → HasMore (event p m) w1.queue w.queue
      → Ends (IsServing o signed libc junk junk_words id) (process_event libc junk junk_words m w1)
  process_event-Ends id p m w w1 b e queue h =
      let bad = h (is_bad id) in
      let clean = b.agenda.clean in
      let kinds = is_good-kinds id p m (ground (arith, bad, clean)) in by_kind kinds.0 kinds.1
    where
      now : Cell D
      now = started libc junk junk_words m.timestamp b.state

      by_kind :
          m.receiver ≡ id
          → (m.kind ≡ start_call)
            ⊎ ((m.kind ≡ end_call)
                × ((k : ℕ) × ((m.channel_number ≡ pos k) × (k < channels_in_cell))))
          → Ends
              (IsServing o signed libc junk junk_words id)
              (process_event libc junk junk_words m w1)
      by_kind r (inl k) =
          subst (Ends (IsServing o signed libc junk junk_words id))
            (sym (
              process_start m w1 k
              ∙ ap (λ i. on_start_call libc junk junk_words i m.timestamp (begun m w1)) r))
            (on_start_call-Ends o signed libc junk junk_words id m.timestamp (begun m w1) (record {
              state = now;
              cell = begun_cell m w1 b.state (e ∙ b.cell);
              valid = started-IsCell m.timestamp b.state b.valid;
              agenda = without_start id p m w.queue w1.queue (taken b.state) r k b.agenda queue h;
            }))
      by_kind r (inr (k, (c, (n, small)))) =
          let rest = without_end id c p m w.queue w1.queue b.state k n small b.agenda queue h in
          subst (Ends (IsServing o signed libc junk junk_words id))
            (sym (process_end m w1 k ∙ ap (λ z. on_end_call libc junk junk_words z (begun m w1)) n))
            (on_end_call-Ends o signed libc junk junk_words id c (begun m w1) now
              (begun_cell m w1 b.state (e ∙ b.cell)) (started-IsCell m.timestamp b.state b.valid)
              small rest.0 rest.1)

  pub serve_run :
      (id : ℕ) (m : Message D) (w : World D)
      → m.receiver ≡ id
      → serve libc junk junk_words id (some m) w
        ≡ and_then (process_event libc junk junk_words m w) (finish libc junk junk_words m.kind)
  unfolding serve
  serve_run id m w e = ground (arith, e)

  finish-Ends :
      (id kind : ℕ) (a : Return D) (w : World D)
      → IsServing o signed libc junk junk_words id a w
      → Ends (λ _ w'. IsBusy id w' 1) (finish libc junk junk_words kind a w)
  finish-Ends id kind (state s) w h = elim h [ ]
  finish-Ends id kind (number n) w h = h

  receiver_of :
      (id : ℕ) (p : D) (m : Message D) (q q' : Queue D (Message D))
      → HasMore (event p m) q' q
      → events (is_bad id) q ≡ 0
      → m.receiver ≡ id
  receiver_of id p m q q' h clean =
      let bad = h (is_bad id) in (is_good-kinds id p m (ground (arith, bad, clean))).0

  pub main_step-Ends :
      (id : ℕ) (w : World D)
      → IsBusy id w 1
      → Ends (λ _ w'. IsBusy id w' 1) (main_step libc junk junk_words id w)
  unfolding main_step
  main_step-Ends id w b =
      Ends-and_then (λ v w1. (w1.cell ≡ w.cell) × IsGot o w.queue v w1.queue)
        (λ _ w'. IsBusy id w' 1) (on_queue (calqueue_get 1) w) (serve libc junk junk_words id)
        (on_queue-Ends (IsGot o w.queue) w (calqueue_get 1 w.queue)
          (calqueue_get-Ends o 0 w.queue b.agenda.queue))
        served
    where
      served :
          (v : Option (Message D)) (w1 : World D)
          → (w1.cell ≡ w.cell) × IsGot o w.queue v w1.queue
          → Ends (λ _ w'. IsBusy id w' 1) (serve libc junk junk_words id v w1)
      served none w1 h =
          let zero =
            events_none w.queue (is_start id) (omega (arith, b.agenda.queue.valid.size, h.1.0)) in
          let no_way : ⊥ = omega (arith, zero, b.agenda.started) in elim no_way [ ]
      served (some m) w1 h =
          let more = h.1.1 in
          subst (Ends λ _ w'. IsBusy id w' 1)
            (sym
              (serve_run id m w1 (receiver_of id more.0 m w.queue w1.queue more.1 b.agenda.clean)))
            (Ends-and_then (IsServing o signed libc junk junk_words id) (λ _ w'. IsBusy id w' 1)
              (process_event libc junk junk_words m w1) (finish libc junk junk_words m.kind)
              (process_event-Ends id more.0 m w w1 b h.0 h.1.0 more.1) (finish-Ends id m.kind))

  pub main_loop-Ends :
      (rounds id : ℕ) (w : World D)
      → IsBusy id w 1
      → Ends (λ _ w'. IsBusy id w' 1) (main_loop libc junk junk_words rounds id w)
  unfolding main_loop
  main_loop-Ends zero id w b = b
  main_loop-Ends (suc rounds) id w b =
      Ends-and_then (λ _ w'. IsBusy id w' 1) (λ _ w'. IsBusy id w' 1)
        (main_step libc junk junk_words id w)
        (λ more. if more then main_loop libc junk junk_words rounds id else pure false)
        (main_step-Ends id w b)
        (λ more w1 b1.
          Ends-if (λ _ w'. IsBusy id w' 1) more (main_loop libc junk junk_words rounds id)
            (pure false) w1 (λ _. main_loop-Ends rounds id w1 b1) (λ _. b1))
