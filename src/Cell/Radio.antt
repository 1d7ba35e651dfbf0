-- ===== src/Cell/Radio.antt =====
-- The channels of a cell: 2018-fibers/src/channel.c.
use linux_fibers.Common.{
  ℕ, zero, suc, ◌+◌, ◌*◌, ◌/◌, ◌%◌, ◌==◌, Bool, true, false, ◌||◌, List, [], ◌∷◌, Option, none,
  some, ℤ, pos, negsuc, ltb, if◌then◌else◌, update,
}
use linux_fibers.Doubles.{Doubles}
use linux_fibers.Cell.Machine.{
  Channel, Cell, Act, ◌>>=◌, ◌>>◌, pure, crash, abort, load_cell, store_cell, modify_cell, draw,
  expent,
}

-- The bits of an `unsigned int`, and the words of `channel_state`.
abbrev pub bits : ℕ
bits = 32

abbrev pub channels_in_cell : ℕ
channels_in_cell = 1000

abbrev pub state_words : ℕ
state_words = 2 * (channels_in_cell / bits + 1)

-- The rates of a day, by its second, and of the weekend.
module _ {D : Type 0} ⦃d : Doubles D⦄ where
  abbrev pub day_rate : D → ℕ → D
  day_rate ref_ta now =
      if ltb now 30600
      then d.mul ref_ta (d.lit 4 0)
      else if ltb now 46800
      then d.mul ref_ta (d.lit 8 1)
      else if ltb now 54000
      then d.mul ref_ta (d.lit 25 1)
      else if ltb now 68400
      then d.mul ref_ta (d.lit 2 0)
      else if ltb now 75600
      then d.mul ref_ta (d.lit 22 1)
      else d.mul ref_ta (d.lit 45 1)

  -- The remainders of a negative time are not positive: they are before the end of the morning.
  abbrev pub rate_at : D → ℤ → D
  rate_at ref_ta (pos now) =
      if ltb 432000 (now % 604800)
      then d.mul ref_ta (d.lit 5 0)
      else day_rate ref_ta (now % 604800 % 86400)
  rate_at ref_ta (negsuc now) = d.mul ref_ta (d.lit 4 0)

  unfoldable pub recompute_ta : (ref_ta time_now : D) → D
  recompute_ta ref_ta time_now = rate_at ref_ta (d.to_int time_now)

module _ {D : Type 0} where
  abbrev pub has_bit : ℕ → Cell D → Bool
  has_bit i s = s.channel_state (i / bits) (i % bits)

  abbrev pub put_bit : ℕ → Bool → Cell D → Cell D
  put_bit i b s = record s {
    channel_state =
        update s.channel_state (i / bits) (update (s.channel_state (i / bits)) (i % bits) b);
  }

  -- `CHECK_CHANNEL`, `SET_CHANNEL` and `RESET_CHANNEL`: an index outside the words is a fault.
  unfoldable pub check_channel : ℕ → Act D Bool
  check_channel i =
      if ltb (i / bits) state_words then load_cell >>= (λ s. pure (has_bit i s)) else crash

  unfoldable pub write_channel : ℕ → Bool → Act D (Unit {0})
  write_channel i b = if ltb (i / bits) state_words then modify_cell (put_bit i b) else crash

  -- The first of n channels from i on that is free.
  unfoldable pub free_channel : (n i : ℕ) → Act D (Option ℕ)
  unfolding check_channel
  free_channel zero i = pure none
  free_channel (suc n) i = do
    busy ← check_channel i
    if busy then free_channel n (suc i) else pure (some i)

  abbrev pub has_id : ℕ → List (Channel D) → Bool
  has_id i [] = false
  has_id i (c ∷ cs) = (c.channel_id == i) || has_id i cs

  abbrev pub unlink : ℕ → List (Channel D) → List (Channel D)
  unlink i [] = []
  unlink i (c ∷ cs) = let rest = unlink i cs in if c.channel_id == i then cs else c ∷ rest

  -- The node at the head has another power.
  abbrev pub set_power : D → List (Channel D) → List (Channel D)
  set_power p [] = []
  set_power p (c ∷ cs) = record c { power = p } ∷ cs

  abbrev pub set_fading : D → List (Channel D) → List (Channel D)
  set_fading f [] = []
  set_fading f (c ∷ cs) = record c { fading = f } ∷ cs

-- `junk` is what malloc leaves in a block.
module _ {D : Type 0} ⦃d : Doubles D⦄ (libc : ℕ → ℕ × ℕ) (junk : D) where
  unfoldable pub refade : List (Channel D) → Act D (List (Channel D))
  unfolding expent
  refade [] = pure []
  refade (c ∷ cs) = do
    f ← expent libc (d.lit 1 0)
    cs ← refade cs
    pure (record c { fading = f } ∷ cs)

  unfoldable pub fading_recheck : Act D (Unit {0})
  unfolding refade
  fading_recheck = do s ← load_cell; cs ← refade s.channels; store_cell (record s { channels = cs })

  -- `generate_cross_path_gain` and `generate_path_gain`, by the constant.
  unfoldable pub generate_gain : D → Act D D
  generate_gain gain = do
    r ← draw libc
    pure (d.mul gain (d.pow (d.lit 10 0) (d.div (d.mul (d.lit 10 0) r) (d.lit 10 0))))

  -- The other channels: a new fading, and the sum of their interference.
  unfoldable pub interfere : List (Channel D) → D → Act D (List (Channel D) × D)
  unfolding expent generate_gain
  interfere [] summ = pure ([], summ)
  interfere (c ∷ cs) summ = do
    f ← expent libc (d.lit 1 0)
    gain ← generate_gain (d.lit 5 14)
    (cs, summ) ← interfere cs (d.add summ (d.mul (d.mul gain c.power) f))
    pure (record c { fading = f } ∷ cs, summ)

  abbrev pub clamped : D → D
  clamped p =
      let low = if d.lt p (d.lit 3 0) then d.lit 3 0 else p in
      if d.lt (d.lit 3000 0) low then d.lit 3000 0 else low

  abbrev pub power_of : (summ gain f : D) → D
  power_of summ gain f = clamped (d.div (d.mul (d.lit 10 0) summ) (d.mul gain f))

  -- The power of the new channel at the head of the list, against the sum of the interference.
  unfoldable pub set_against : D → List (Channel D) → Act D (Unit {0})
  unfolding expent generate_gain
  set_against summ cs = do
    f ← expent libc (d.lit 1 0)
    gain ← generate_gain (d.lit 1 10)
    modify_cell λ s. record s { channels = set_power (power_of summ gain f) (set_fading f cs) }

  abbrev pub set_minimal : List (Channel D) → Act D (Unit {0})
  set_minimal cs = modify_cell λ s. record s { channels = set_power (d.lit 3 0) cs }

  unfoldable pub tune : List (Channel D) → Act D (Unit {0})
  unfolding interfere set_against
  tune [] = crash
  tune (c ∷ cs) = do
    (cs, summ) ← interfere cs (d.lit 0 0)
    if d.is_zero summ then set_minimal (c ∷ cs) else set_against summ (c ∷ cs)

  -- With the index that is free; no index is an abort.
  unfoldable pub occupy : Option ℕ → Act D ℕ
  unfolding write_channel tune fading_recheck
  occupy none = abort
  occupy (some index) = do
    write_channel index true
    modify_cell λ s. record s {
      channels = record { channel_id = index; fading = junk; power = junk } ∷ s.channels;
    }
    s ← load_cell
    tune s.channels
    fading_recheck
    pure index

  unfoldable pub allocation : Act D ℕ
  unfolding free_channel occupy
  allocation = do s ← load_cell; index ← free_channel s.channels_per_cell 0; occupy index

  -- A number that no node has is an abort.
  unfoldable pub deallocation : ℤ → Act D (Unit {0})
  unfolding write_channel fading_recheck
  deallocation (negsuc ch) = do s ← load_cell; abort
  deallocation (pos ch) = do
    s ← load_cell
    if has_id ch s.channels
        then store_cell (record s { channels = unlink ch s.channels })
        else abort
    write_channel ch false
    fading_recheck
