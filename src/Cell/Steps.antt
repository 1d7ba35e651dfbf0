-- ===== src/Cell/Steps.antt =====
-- The handlers of the events keep the agenda: one start is pending, and one end for each channel
-- that is taken.
use linux_fibers.Common.{
  ℕ, suc, ◌+◌, ◌-◌, ◌%◌, ◌<◌, ◌≤◌, ◌≡◌, refl, sym, subst, ap, ◌∙◌, Bool, true, false, ◌==◌, arith,
  Bool-cases, some, pos, negsuc, inl, inr, length, if◌then◌else◌, ==→eq, ==→ne,
}
use linux_fibers.Doubles.{Doubles, IsOrder, IsSigned}
use linux_fibers.Random.{uint}
use linux_fibers.Calendar.Machine.{Queue}
use linux_fibers.Calendar.Counts.{one_if}
use linux_fibers.Cell.Machine.{Message, Cell, World, and_then, modify_cell, expent, ◌>>=◌}
use linux_fibers.Cell.Radio.{channels_in_cell, has_id, allocation}
use linux_fibers.Cell.{start_call, end_call, schedule_event, accept_call, connect_call, block_call}
use linux_fibers.Cell.Valid.{IsWired, IsCell}
use linux_fibers.Cell.Effects.{
  Ends, Ends-and_then, Ends-mono, Ends-if, load_cell_lem, modify_cell_lem, expent-Ends, IsDrawn,
}
use linux_fibers.Cell.Allocation.{IsAllocated, allocation-Ends, rewired}
use linux_fibers.Cell.Events.{IsAgenda, schedule_start, schedule_end}

module _ {D : Type 0} ⦃d : Doubles D⦄ where
  -- The channels that are taken.
  abbrev pub taken : Cell D → ℕ → ℕ
  taken s k = one_if (has_id k s.channels)

  -- A fiber with a cell, and in its queue a number of starts and an end for each channel taken.
  pub record IsBusy (id : ℕ) (w : World D) (starts : ℕ) : Type 0 where
    pub state : Cell D
    pub cell : w.cell ≡ some state
    pub valid : IsCell state
    pub agenda : IsAgenda id w.queue starts (taken state)

  pub IsAgenda-ext :
      (id starts : ℕ) (q : Queue D (Message D)) (f g : ℕ → ℕ)
      → ((k : ℕ) → k < channels_in_cell → f k ≡ g k)
      → IsAgenda id q starts f
      → IsAgenda id q starts g
  IsAgenda-ext id starts q f g e a = record {
    queue = a.queue;
    started = a.started;
    clean = a.clean;
    ended = λ k p. a.ended k p ∙ e k p;
  }

  -- A change of the state that no channel sees.
  pub modify-Busy :
      (f : Cell D → Cell D) (id starts : ℕ) (w : World D) (b : IsBusy id w starts)
      → IsCell (f b.state)
      → (f b.state).channels ≡ b.state.channels
      → Ends (λ _ w'. IsBusy id w' starts) (modify_cell f w)
  modify-Busy f id starts w b c e =
      subst (Ends λ _ w'. IsBusy id w' starts) (sym (modify_cell_lem f w b.state b.cell)) (record {
        state = f b.state;
        cell = refl;
        valid = c;
        agenda =
            IsAgenda-ext id starts w.queue (taken b.state) (taken (f b.state))
              (λ k p. ap (λ cs. one_if (has_id k cs)) (sym e)) b.agenda;
      })

module _ {D : Type 0} ⦃d : Doubles D⦄ (o : IsOrder D) (signed : IsSigned D) (libc : ℕ → ℕ × ℕ)
    (junk : D) (junk_words : ℕ → ℕ → Bool) where
  -- A draw changes neither the cell nor the queue.
  pub drawn-Busy :
      (id starts : ℕ) (w w' : World D) → IsBusy id w starts → IsDrawn w w' → IsBusy id w' starts
  drawn-Busy id starts w w' b h = record {
    state = b.state;
    cell = h.0 ∙ b.cell;
    valid = b.valid;
    agenda = subst (λ q. IsAgenda id q starts (taken b.state)) (sym h.1) b.agenda;
  }

  -- The next start is put, after a draw.
  pub start_again :
      (id : ℕ) (stamp : D) (w : World D)
      → IsBusy id w 0
      → Ends
          (λ _ w'. IsBusy id w' 1)
          (schedule_event libc junk junk_words id start_call stamp (negsuc 0) w)
  start_again id stamp w b =
      Ends-mono (λ _ w'. (w'.cell ≡ w.cell) × IsAgenda id w'.queue 1 (taken b.state))
        (λ _ w'. IsBusy id w' 1)
        (schedule_event libc junk junk_words id start_call stamp (negsuc 0) w)
        (λ _ w' h. record { state = b.state; cell = h.0 ∙ b.cell; valid = b.valid; agenda = h.1 })
        (schedule_start o libc junk junk_words id stamp w (taken b.state) b.agenda)

  -- The state after a call has its channel.
  allocated-Busy :
      (id starts k : ℕ) (stamp : D) (w w1 : World D) (s : Cell D)
      → w.cell ≡ some s
      → s.channel_counter + suc (length s.channels) ≡ channels_in_cell
      → IsAgenda id w.queue starts (taken s)
      → IsAllocated signed libc junk w s k w1
      → Ends
          (λ _ w'. IsBusy id w' starts)
          (schedule_event libc junk junk_words id end_call stamp (pos k) w1)
  allocated-Busy id starts k stamp w w1 s e n agenda a =
      let s1 = rewired k true a.channels s in
      Ends-mono
        (λ _ w'.
          (w'.cell ≡ w1.cell) × IsAgenda id w'.queue starts (λ j. one_if (k == j) + taken s j))
        (λ _ w'. IsBusy id w' starts)
        (schedule_event libc junk junk_words id end_call stamp (pos k) w1)
        (λ _ w2 h. record {
          state = s1;
          cell = h.0 ∙ a.cell;
          valid = (a.wired, omega (arith, n, a.longer));
          agenda =
              IsAgenda-ext id starts w2.queue (λ j. one_if (k == j) + taken s j) (taken s1)
                (λ j p. both j) h.1;
        })
        (schedule_end o libc junk junk_words id k starts stamp w1 (taken s) a.below
          (subst (λ q. IsAgenda id q starts (taken s)) (sym a.queue) agenda))
    where
      both : (j : ℕ) → one_if (k == j) + taken s j ≡ one_if (has_id j a.channels)
      both j = elim (Bool-cases (k == j)) [
        | inl b ↦
            let unused : has_id j s.channels ≡ false =
              subst (λ i. has_id i s.channels ≡ false) (==→eq k j b) a.free in
            ground (arith, b, unused, a.more j)
        | inr b ↦ ground (arith, b, a.more j)
      ]

  abbrev one_less : Cell D → Cell D
  one_less s = record s { channel_counter = s.channel_counter - 1 }

  connect_call_run :
      (me : ℕ) (now mean : D) (w : World D) (s : Cell D)
      → w.cell ≡ some s
      → connect_call libc junk junk_words me now mean w
        ≡ and_then (expent libc mean (record w { cell = some (one_less s) })) λ e.
          allocation libc junk >>= λ ch.
          schedule_event libc junk junk_words me end_call (d.add now e) (pos ch)
  unfolding connect_call
  connect_call_run me now mean w s e =
      ap
        (λ r. and_then r λ _. expent libc mean >>= λ e. allocation libc junk >>= λ ch.
          schedule_event libc junk junk_words me end_call (d.add now e) (pos ch))
        (modify_cell_lem one_less w s e)

  connect_call-Ends :
      (id starts : ℕ) (now mean : D) (w : World D) (b : IsBusy id w starts)
      → (b.state.channel_counter == 0) ≡ false
      → d.lt mean (d.lit 0 0) ≡ false
      → Ends (λ _ w'. IsBusy id w' starts) (connect_call libc junk junk_words id now mean w)
  connect_call-Ends id starts now mean w b some_free h =
      let s = b.state in
      let s1 = one_less s in
      let w1 = record w { cell = some s1 } in
      let free : suc (length s.channels) ≤ channels_in_cell =
        ground (arith, b.valid.1, ==→ne s.channel_counter 0 some_free) in
      subst (Ends λ _ w'. IsBusy id w' starts) (sym (connect_call_run id now mean w s b.cell)) (
        Ends-and_then (λ _. IsDrawn w1) (λ _ w'. IsBusy id w' starts) (expent libc mean w1)
          (λ e. allocation libc junk >>= λ ch.
            schedule_event libc junk junk_words id end_call (d.add now e) (pos ch))
          (expent-Ends signed libc junk mean w1 h)
          (λ e w2 g.
            Ends-and_then (IsAllocated signed libc junk w2 s1) (λ _ w'. IsBusy id w' starts)
              (allocation libc junk w2)
              (λ ch. schedule_event libc junk junk_words id end_call (d.add now e) (pos ch))
              (allocation-Ends signed libc junk w2 s1 g.0 (wired_less s b.valid.0) free)
              (λ k w3 a.
                allocated-Busy id starts k (d.add now e) w2 w3 s1 g.0
                  (counted s.channel_counter (length s.channels) b.valid.1 some_free)
                  (subst (λ q. IsAgenda id q starts (taken s)) (sym g.1) b.agenda) a)))
    where
      wired_less : (s : Cell D) → IsWired s → IsWired (one_less s)
      wired_less s v = record {
        size = v.size;
        listed = v.listed;
        agrees = v.agrees;
        duration = v.duration;
        arrivals = v.arrivals;
      }

      counted :
          (n m : ℕ) → n + m ≡ channels_in_cell → (n == 0) ≡ false → n - 1 + suc m ≡ channels_in_cell
      counted n m e h = ground (arith, e, h)

  -- A change of a counter that no invariant reads.
  pub blocked-IsCell :
      (s : Cell D) (f : Cell D → Cell D)
      → IsCell s
      → f s ≡ record s {
        blocked_on_setup = (f s).blocked_on_setup;
        arriving_calls = (f s).arriving_calls;
        ta = (f s).ta;
        lvt = (f s).lvt;
        executed_events = (f s).executed_events;
      }
      → IsCell (f s)
  blocked-IsCell s f v e = subst IsCell (sym e) (
    record {
      size = v.0.size;
      listed = v.0.listed;
      agrees = v.0.agrees;
      duration = v.0.duration;
      arrivals = v.0.arrivals;
    },
    v.1,
  )

  pub accept_call-Ends :
      (id starts : ℕ) (now : D) (w : World D)
      → IsBusy id w starts
      → Ends (λ _ w'. IsBusy id w' starts) (accept_call libc junk junk_words id now w)
  unfolding accept_call
  accept_call-Ends id starts now w b =
      subst
        (λ r.
          Ends (λ _ w'. IsBusy id w' starts)
            (and_then r λ s.
              if s.channel_counter == 0
              then block_call libc junk junk_words
              else connect_call libc junk junk_words id now s.ta_duration))
        (sym (load_cell_lem w b.state b.cell))
        (Ends-if (λ _ w'. IsBusy id w' starts) (b.state.channel_counter == 0)
          (block_call libc junk junk_words)
          (connect_call libc junk junk_words id now b.state.ta_duration) w
          (λ _.
            modify-Busy blocked id starts w b (blocked-IsCell b.state blocked b.valid refl) refl)
          (λ n. connect_call-Ends id starts now b.state.ta_duration w b n (
            subst (λ t. d.lt t (d.lit 0 0) ≡ false) (sym b.valid.0.duration)
              (signed.lit_nonneg 60 0))))
    where
      blocked : Cell D → Cell D
      blocked s = record s { blocked_on_setup = (s.blocked_on_setup + 1) % uint }
