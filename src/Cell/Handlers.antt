-- ===== src/Cell/Handlers.antt =====
-- Each event that can be pending is served, and leaves the agenda complete again.
use linux_fibers.Common.{
  ℕ, suc, ◌+◌, ◌%◌, ◌<◌, ◌≡◌, refl, sym, subst, Bool, true, false, ◌==◌, arith, Bool-cases, some,
  pos, negsuc, inl, inr, length, if◌then◌else◌, ==→eq, ==→ne,
}
use linux_fibers.Doubles.{Doubles, IsOrder, IsSigned}
use linux_fibers.Random.{uint, random}
use linux_fibers.Calendar.Counts.{one_if}
use linux_fibers.Cell.Machine.{
  Cell, World, Outcome, ran, and_then, load_cell, modify_cell, expent, ◌>>=◌, ◌>>◌, pure,
}
use linux_fibers.Cell.Radio.{channels_in_cell, has_id, has_bit, recompute_ta, deallocation}
use linux_fibers.Cell.{
  Return, state, number, start_call, complete_limit, schedule_event, accept_call, on_init,
  on_start_call, on_end_call, new_cell,
}
use linux_fibers.Cell.Valid.{IsWired, IsCell}
use linux_fibers.Cell.Effects.{
  Ends, Ends-and_then, load_cell_lem, modify_cell_lem, expent-Ends, IsDrawn,
}
use linux_fibers.Cell.Allocation.{IsDeallocated, deallocation-Ends, rewired}
use linux_fibers.Cell.Events.{IsAgenda, schedule_start}
use linux_fibers.Cell.Rates.{recompute_ta_nonneg}
use linux_fibers.Cell.Steps.{
  taken, IsBusy, modify-Busy, blocked-IsCell, accept_call-Ends, start_again, IsAgenda-ext,
  drawn-Busy,
}

module _ {D : Type 0} ⦃d : Doubles D⦄ (o : IsOrder D) (signed : IsSigned D) (libc : ℕ → ℕ × ℕ)
    (junk : D) (junk_words : ℕ → ℕ → Bool) where
  abbrev arrived : Cell D → Cell D
  arrived s = record s { arriving_calls = (s.arriving_calls + 1) % uint }

  abbrev with_rate : D → Cell D → Cell D
  with_rate now s = record s { ta = recompute_ta s.ref_ta now }

  -- The end of `on_start_call`, with the new rate.
  abbrev reschedule : (me : ℕ) (now : D) → World D → Outcome D (Return D)
  reschedule me now w = and_then (modify_cell (with_rate now) w) λ _ w. and_then (load_cell w) λ s.
      expent libc s.ta >>= λ e.
      schedule_event libc junk junk_words me start_call (d.add now e) (negsuc 0) >> pure (number 0)

  -- The agenda is complete, whatever is returned.
  abbrev pub IsServing : ℕ → Return D → World D → Type 0
  IsServing id (state s) w = ⊥
  IsServing id (number n) w = IsBusy id w 1

  reschedule-Ends :
      (id : ℕ) (now : D) (w : World D) → IsBusy id w 0 → Ends (IsServing id) (reschedule id now w)
  reschedule-Ends id now w b =
      let s = b.state in
      let s1 = with_rate now s in
      let w1 = record w { cell = some s1 } in
      let b1 : IsBusy id w1 0 = record {
        state = s1;
        cell = refl;
        valid = blocked-IsCell o signed libc junk junk_words s (with_rate now) b.valid refl;
        agenda = b.agenda;
      } in
      let ref : d.lt s.ref_ta (d.lit 0 0) ≡ false =
        subst (λ t. d.lt t (d.lit 0 0) ≡ false) (sym b.valid.0.arrivals) (signed.lit_nonneg 16 2) in
      subst
        (λ r. Ends (IsServing id) (
          and_then r λ _ w. and_then (load_cell w) λ s. expent libc s.ta >>= λ e.
          schedule_event libc junk junk_words id start_call (d.add now e) (negsuc 0)
          >> pure (number 0)))
        (sym (modify_cell_lem (with_rate now) w s b.cell))
        (Ends-and_then (λ _. IsDrawn w1) (IsServing id) (expent libc s1.ta w1)
          (λ e.
            schedule_event libc junk junk_words id start_call (d.add now e) (negsuc 0)
            >> pure (number 0))
          (expent-Ends signed libc junk s1.ta w1 (recompute_ta_nonneg signed s.ref_ta now ref))
          (λ e w2 h.
            Ends-and_then (λ _ w'. IsBusy id w' 1) (IsServing id)
              (schedule_event libc junk junk_words id start_call (d.add now e) (negsuc 0) w2)
              (λ _. ran (number 0))
              (start_again o signed libc junk junk_words id (d.add now e) w2
                (drawn-Busy o signed libc junk junk_words id 0 w1 w2 b1 h))
              (λ _ w3 c. c)))

  pub on_start_call-Ends :
      (id : ℕ) (now : D) (w : World D)
      → IsBusy id w 0
      → Ends (IsServing id) (on_start_call libc junk junk_words id now w)
  unfolding on_start_call
  on_start_call-Ends id now w b =
      Ends-and_then (λ _ w'. IsBusy id w' 0) (IsServing id) (modify_cell arrived w)
        (λ _. accept_call libc junk junk_words id now >> reschedule id now)
        (modify-Busy arrived id 0 w b
          (blocked-IsCell o signed libc junk junk_words b.state arrived b.valid refl) refl)
        (λ _ w1 b1.
          Ends-and_then (λ _ w'. IsBusy id w' 0) (IsServing id)
            (accept_call libc junk junk_words id now w1) (λ _. reschedule id now)
            (accept_call-Ends o signed libc junk junk_words id 0 now w1 b1)
            (λ _ w2 b2. reschedule-Ends id now w2 b2))

  -- The end of the call on a channel that is taken, when that event is out of the queue.
  abbrev counted : Cell D → Cell D
  counted s = record s {
    channel_counter = (s.channel_counter + 1) % uint;
    complete_calls = (s.complete_calls + 1) % uint;
  }

  abbrev result_of : World D → Outcome D (Return D)
  result_of w =
      and_then (load_cell w) λ s. ran (number (if s.complete_calls == complete_limit then 1 else 0))

  counted-IsWired : (s : Cell D) → IsWired s → IsWired (counted s)
  counted-IsWired s v = record {
    size = v.size;
    listed = v.listed;
    agrees = v.agrees;
    duration = v.duration;
    arrivals = v.arrivals;
  }

  deallocated-Serving :
      (id k : ℕ) (w w1 : World D) (s : Cell D)
      → IsCell s
      → IsAgenda id w.queue 1 (λ j. if j == k then 0 else taken s j)
      → IsDeallocated signed libc junk w (counted s) k w1
      → Ends (IsServing id) (result_of w1)
  deallocated-Serving id k w w1 s v a f =
      subst
        (λ r.
          Ends (IsServing id)
            (and_then r λ s. ran (number (if s.complete_calls == complete_limit then 1 else 0))))
        (sym (load_cell_lem w1 s1 f.cell))
        (record {
          state = s1;
          cell = f.cell;
          valid = (
            f.wired,
            free s.channel_counter (length s.channels) (length f.channels) v.1 f.shorter,
          );
          agenda =
              subst (λ q. IsAgenda id q 1 (taken s1)) (sym f.queue)
                (IsAgenda-ext id 1 w.queue (λ j. if j == k then 0 else taken s j) (taken s1)
                  (λ j p. same j) a);
        })
    where
      s1 : Cell D
      s1 = rewired k false f.channels (counted s)

      free :
          (n m l : ℕ) → n + m ≡ channels_in_cell → m ≡ suc l → (n + 1) % uint + l ≡ channels_in_cell
      free n m l e g = omega (arith, e, g)

      same : (j : ℕ) → (if j == k then 0 else taken s j) ≡ one_if (has_id j f.channels)
      same j = elim (Bool-cases (j == k)) [
        | inl b ↦
            let gone : has_id j f.channels ≡ false =
              subst (λ i. has_id i f.channels ≡ false) (sym (==→eq j k b)) f.gone in
            ground (arith, b, gone)
        | inr b ↦ let other = f.others j (==→ne j k b) in ground (arith, b, other)
      ]

  pub on_end_call-Ends :
      (id k : ℕ) (w : World D) (s : Cell D)
      → w.cell ≡ some s
      → IsCell s
      → k < channels_in_cell
      → has_id k s.channels ≡ true
      → IsAgenda id w.queue 1 (λ j. if j == k then 0 else taken s j)
      → Ends (IsServing id) (on_end_call libc junk junk_words (pos k) w)
  unfolding on_end_call
  on_end_call-Ends id k w s e v h t a =
      let w1 = record w { cell = some (counted s) } in
      subst (λ r. Ends (IsServing id) (and_then r λ _. deallocation libc junk (pos k) >> result_of))
        (sym (modify_cell_lem counted w s e))
        (Ends-and_then (λ _. IsDeallocated signed libc junk w1 (counted s) k) (IsServing id)
          (deallocation libc junk (pos k) w1) (λ _. result_of)
          (deallocation-Ends signed libc junk k w1 (counted s) refl (counted-IsWired s v.0) h t)
          (λ _ w2 f. deallocated-Serving id k w1 w2 s v a f))

  -- The first event makes the cell, with every channel free.
  pub new_cell-IsCell : IsCell (new_cell libc junk junk_words)
  new_cell-IsCell = (
    record {
      size = refl;
      listed = tt;
      duration = refl;
      arrivals = refl;
      agrees = λ i p. clear i p;
    },
    omega arith,
  )
    where
      clear : (i : ℕ) → i < channels_in_cell → has_bit i (new_cell libc junk junk_words) ≡ false
      clear i p = ground (arith, p)

  -- The new state, and a complete agenda for it.
  abbrev pub IsCreated : ℕ → Return D → World D → Type 0
  IsCreated id (state s) w = IsCell s × IsAgenda id w.queue 1 (taken s)
  IsCreated id (number n) w = ⊥

  pub on_init-Ends :
      (id : ℕ) (w : World D)
      → IsAgenda id w.queue 0 (λ _. 0)
      → Ends (IsCreated id) (on_init libc junk junk_words id w)
  unfolding on_init random
  on_init-Ends id w a =
      Ends-and_then (λ _ w'. (w'.cell ≡ w.cell) × IsAgenda id w'.queue 1 (λ _. 0)) (IsCreated id)
        (schedule_event libc junk junk_words id start_call
          (d.mul (d.lit 20 0) (random libc {D = D} w.generator).0) (negsuc 0)
          (record w { generator = (random libc {D = D} w.generator).1 }))
        (λ _. ran (state (new_cell libc junk junk_words)))
        (schedule_start o libc junk junk_words id
          (d.mul (d.lit 20 0) (random libc {D = D} w.generator).0)
          (record w { generator = (random libc {D = D} w.generator).1 }) (λ _. 0) a)
        (λ _ w1 h. (new_cell-IsCell, h.1))
