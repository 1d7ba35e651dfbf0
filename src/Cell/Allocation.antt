-- ===== src/Cell/Allocation.antt =====
-- Allocation takes the least free channel, deallocation gives one back, and neither aborts where
-- the state says that it can be done.
use linux_fibers.Common.{
  ℕ, suc, ◌<◌, ◌≤◌, ◌≡◌, ◌≢◌, refl, sym, subst, ap, ◌∙◌, Bool, true, false, ◌||◌, List, ◌∷◌, ◌==◌,
  arith, length, Option, none, some, pos,
}
use native.Mathlib.Decide.{ℕ_discrete}
use linux_fibers.Doubles.{Doubles, IsSigned}
use linux_fibers.Cell.Machine.{Channel, Cell, World, Outcome, ran, and_then, load_cell, modify_cell}
use linux_fibers.Cell.Radio.{
  channels_in_cell, has_bit, put_bit, has_id, unlink, write_channel, free_channel, fading_recheck,
  tune, occupy, allocation, deallocation,
}
use linux_fibers.Cell.Valid.{
  IsListed, IsWired, not_all_in_use, has_bit_same, has_bit_other, has_id-unlink_other,
  has_id-unlink_same, unlink-IsListed, length-unlink,
}
use linux_fibers.Cell.Effects.{
  Ends, Ends-and_then, Ends-mono, IsRetuned, IsRetuned-trans, IsTuned, load_cell_lem,
  fading_recheck-Ends, tune-Ends,
}
use linux_fibers.Cell.Free.{IsFree, free_channel_lem}

module _ {D : Type 0} ⦃d : Doubles D⦄ where
  -- The state after a write of a bit and of the list.
  abbrev pub rewired : ℕ → Bool → List (Channel D) → Cell D → Cell D
  rewired k b cs s = record (put_bit k b s) { channels = cs }

  write_channel_lem :
      (k : ℕ) (b : Bool) (w : World D) (s : Cell D)
      → k < channels_in_cell
      → w.cell ≡ some s
      → write_channel k b w ≡ ran tt (record w { cell = some (put_bit k b s) })
  unfolding write_channel
  write_channel_lem k b w s h e = ground (arith, h, e)

  pub rewired-IsWired :
      (k : ℕ) (b : Bool) (cs : List (Channel D)) (s : Cell D)
      → IsWired s
      → k < channels_in_cell
      → has_id k cs ≡ b
      → ((j : ℕ) → j ≢ k → has_id j cs ≡ has_id j s.channels)
      → IsListed channels_in_cell cs
      → IsWired (rewired k b cs s)
  rewired-IsWired k b cs s wired h e others listed = record {
    size = wired.size;
    listed = listed;
    duration = wired.duration;
    arrivals = wired.arrivals;
    agrees = λ i p. elim (ℕ_discrete i k) [
      | yes q ↦
          subst (λ i. has_bit i (rewired k b cs s) ≡ has_id i cs) (sym q)
            (has_bit_same k b s ∙ sym e)
      | no ne ↦ has_bit_other k i b s ne ∙ (wired.agrees i p ∙ sym (others i ne))
    ];
  }

module _ {D : Type 0} ⦃d : Doubles D⦄ (signed : IsSigned D) (libc : ℕ → ℕ × ℕ) (junk : D) where
  abbrev new_node : ℕ → Channel D
  new_node k = record { channel_id = k; fading = junk; power = junk }

  -- The state has one more channel.
  abbrev IsOccupied : World D → Cell D → ℕ → World D → Type 0
  IsOccupied w s k w' =
      (w'.queue ≡ w.queue)
      × ((cs : List (Channel D)) × ((w'.cell ≡ some (rewired k true cs s))
            × IsRetuned (new_node k ∷ s.channels) cs))

  abbrev with_node : ℕ → Cell D → Cell D
  with_node k s = rewired k true (new_node k ∷ s.channels) s

  abbrev settle : ℕ → World D → Outcome D ℕ
  settle k w = and_then (fading_recheck libc junk w) (λ _. ran k)

  occupy_run :
      (k : ℕ) (w : World D) (s : Cell D)
      → k < channels_in_cell
      → w.cell ≡ some s
      → occupy libc junk (some k) w
        ≡ and_then
            (tune libc junk (new_node k ∷ s.channels) (record w { cell = some (with_node k s) }))
            (λ _. settle k)
  unfolding occupy
  occupy_run k w s h e =
      ap
        (λ r. and_then r λ _ w.
          and_then (modify_cell (λ s. record s { channels = new_node k ∷ s.channels }) w) λ _ w.
            and_then (load_cell w) λ s w. and_then (tune libc junk s.channels w) λ _. settle k)
        (write_channel_lem k true w s h e)

  occupy-Ends :
      (k : ℕ) (w : World D) (s : Cell D)
      → k < channels_in_cell
      → w.cell ≡ some s
      → Ends (λ i w'. (i ≡ k) × IsOccupied w s k w') (occupy libc junk (some k) w)
  occupy-Ends k w s h e =
      let w1 = record w { cell = some (with_node k s) } in
      subst (Ends λ i w'. (i ≡ k) × IsOccupied w s k w') (sym (occupy_run k w s h e)) (
        Ends-and_then (λ _. IsTuned signed libc junk w1 (with_node k s))
          (λ i w'. (i ≡ k) × IsOccupied w s k w') (tune libc junk (new_node k ∷ s.channels) w1)
          (λ _. settle k)
          (tune-Ends signed libc junk w1 (with_node k s) (new_node k) s.channels refl refl)
          (λ _ w2 h2.
            Ends-and_then (λ _. IsTuned signed libc junk w2 (rewired k true h2.1.0 s))
              (λ i w'. (i ≡ k) × IsOccupied w s k w') (fading_recheck libc junk w2) (λ _. ran k)
              (fading_recheck-Ends signed libc junk w2 (rewired k true h2.1.0 s) h2.1.1.0)
              (λ _ w3 h3. (
                refl,
                (
                  h3.0 ∙ h2.0,
                  (
                    h3.1.0,
                    (
                      h3.1.1.0,
                      IsRetuned-trans (new_node k ∷ s.channels) h2.1.0 h3.1.0 h2.1.1.1 h3.1.1.1,
                    ),
                  ),
                ),
              ))))

  -- The least free channel is taken: the list, the bits and their agreement.
  pub record IsAllocated (w : World D) (s : Cell D) (k : ℕ) (w' : World D) : Type 0 where
    pub queue : w'.queue ≡ w.queue
    pub below : k < channels_in_cell
    pub free : has_id k s.channels ≡ false
    pub least : (j : ℕ) → j < k → has_id j s.channels ≡ true
    pub channels : List (Channel D)
    pub cell : w'.cell ≡ some (rewired k true channels s)
    pub wired : IsWired (rewired k true channels s)
    pub longer : length channels ≡ suc (length s.channels)
    pub more : (j : ℕ) → has_id j channels ≡ ((k == j) || has_id j s.channels)

  occupied-Allocated :
      (w : World D) (s : Cell D) (k : ℕ) (w' : World D)
      → IsWired s
      → k < channels_in_cell
      → has_bit k s ≡ false
      → ((j : ℕ) → 0 ≤ j → j < k → has_bit j s ≡ true)
      → IsOccupied w s k w'
      → IsAllocated w s k w'
  occupied-Allocated w s k w' wired h free least o =
      let cs = o.1.0 in
      let r = o.1.1.1 in
      let unused : has_id k s.channels ≡ false = sym (wired.agrees k h) ∙ free in
      record {
        queue = o.0;
        below = h;
        free = unused;
        least = λ j p. sym (wired.agrees j (omega (arith, p, h))) ∙ least j (omega arith) p;
        channels = cs;
        cell = o.1.1.0;
        wired =
            rewired-IsWired k true cs s wired h (r.0 k ∙ first) (λ j ne. r.0 j ∙ ground (arith, ne))
              (r.1.1 channels_in_cell (h, (unused, wired.listed)));
        longer = r.1.0;
        more = r.0;
      }
    where
      first : has_id k (new_node k ∷ s.channels) ≡ true
      first = ground arith

  allocation_run :
      (w : World D) (s : Cell D) (o : Option ℕ)
      → w.cell ≡ some s
      → free_channel s.channels_per_cell 0 w ≡ ran o w
      → allocation libc junk w ≡ occupy libc junk o w
  unfolding allocation
  allocation_run w s o e f =
      ap (λ r. and_then r λ s w. and_then (free_channel s.channels_per_cell 0 w) (occupy libc junk))
        (load_cell_lem w s e)
      ∙ ap (λ r. and_then r (occupy libc junk)) f

  occupy_found :
      (w : World D) (s : Cell D)
      → w.cell ≡ some s
      → IsWired s
      → length s.channels < channels_in_cell
      → (o : Option ℕ) → IsFree s s.channels_per_cell 0 o
      → Ends (IsAllocated w s) (occupy libc junk o w)
  occupy_found w s e wired h none all =
      elim (not_all_in_use channels_in_cell s.channels wired.listed h
        (λ j p. sym (wired.agrees j p) ∙ all j (omega arith) (omega (arith, p, wired.size)))) [ ]
  occupy_found w s e wired h (some k) f =
      let below : k < channels_in_cell = omega (arith, f.1.0, wired.size) in
      Ends-mono (λ i w'. (i ≡ k) × IsOccupied w s k w') (IsAllocated w s)
        (occupy libc junk (some k) w)
        (λ i w' o.
          subst (λ i. IsAllocated w s i w') (sym o.0)
            (occupied-Allocated w s k w' wired below f.1.1.0 f.1.1.1 o.1))
        (occupy-Ends k w s below e)

  -- In a cell whose bits and list agree and with fewer than 1000 channels taken, allocation
  -- returns the least free channel, without abort, and adds it to the bits and to the list,
  -- which agree again; the queue is as it was. No constant of the code is supposed to be
  -- negative.
  pub allocation-Ends :
      (w : World D) (s : Cell D)
      → w.cell ≡ some s
      → IsWired s
      → length s.channels < channels_in_cell
      → Ends (IsAllocated w s) (allocation libc junk w)
  allocation-Ends w s e wired h =
      let found = free_channel_lem s.channels_per_cell 0 w s e (omega (arith, wired.size)) in
      subst (Ends (IsAllocated w s)) (sym (allocation_run w s found.0 e found.1.0))
        (occupy_found w s e wired h found.0 found.1.1)

  -- The channel is given back.
  pub record IsDeallocated (w : World D) (s : Cell D) (k : ℕ) (w' : World D) : Type 0 where
    pub queue : w'.queue ≡ w.queue
    pub channels : List (Channel D)
    pub cell : w'.cell ≡ some (rewired k false channels s)
    pub wired : IsWired (rewired k false channels s)
    pub shorter : length s.channels ≡ suc (length channels)
    pub gone : has_id k channels ≡ false
    pub others : (j : ℕ) → j ≢ k → has_id j channels ≡ has_id j s.channels

  abbrev removed : ℕ → Cell D → Cell D
  removed k s = record s { channels = unlink k s.channels }

  deallocation_run :
      (k : ℕ) (w : World D) (s : Cell D)
      → w.cell ≡ some s
      → has_id k s.channels ≡ true
      → k < channels_in_cell
      → deallocation libc junk (pos k) w
        ≡ fading_recheck libc junk (record w { cell = some (put_bit k false (removed k s)) })
  unfolding deallocation write_channel
  deallocation_run k w s e h b = ground (arith, e, h, b)

  -- In a cell whose bits and list agree, deallocation of a channel that is taken takes it out
  -- of the bits and of the list, which agree again, without abort; the others stay as they
  -- were, and so does the queue. No constant of the code is supposed to be negative.
  pub deallocation-Ends :
      (k : ℕ) (w : World D) (s : Cell D)
      → w.cell ≡ some s
      → IsWired s
      → k < channels_in_cell
      → has_id k s.channels ≡ true
      → Ends (λ _. IsDeallocated w s k) (deallocation libc junk (pos k) w)
  deallocation-Ends k w s e wired b h =
      let w1 = record w { cell = some (put_bit k false (removed k s)) } in
      subst (Ends λ _. IsDeallocated w s k) (sym (deallocation_run k w s e h b)) (
        Ends-mono (λ _. IsTuned signed libc junk w1 (put_bit k false (removed k s)))
          (λ _. IsDeallocated w s k) (fading_recheck libc junk w1)
          (λ _ w2 t.
            let cs = t.1.0 in
            let r = t.1.1.1 in
            let gone : has_id k cs ≡ false =
              r.0 k ∙ has_id-unlink_same channels_in_cell k s.channels wired.listed in
            let others : (j : ℕ) → j ≢ k → has_id j cs ≡ has_id j s.channels =
              λ j ne. r.0 j ∙ has_id-unlink_other k j s.channels ne in
            record {
              queue = t.0;
              channels = cs;
              cell = t.1.1.0;
              gone = gone;
              others = others;
              wired = rewired-IsWired k false cs s wired b gone others (
                  r.1.1 channels_in_cell
                    (unlink-IsListed channels_in_cell k s.channels wired.listed));
              shorter = length-unlink k s.channels h ∙ ap suc (sym r.1.0);
            })
          (fading_recheck-Ends signed libc junk w1 (put_bit k false (removed k s)) refl))
