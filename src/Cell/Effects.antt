-- ===== src/Cell/Effects.antt =====
-- What the functions of channel.c do to the state of a cell: they end, and the numbers, fadings
-- and powers that they draw change no channel.
use linux_fibers.Common.{
  ℕ, suc, ◌≡◌, refl, sym, subst, ap, ◌∙◌, Bool, true, false, List, [], ◌∷◌, if◌then◌else◌, arith,
  length, some,
}
use linux_fibers.Doubles.{Doubles, IsSigned, NegativeCast}
use linux_fibers.Random.{random}
use linux_fibers.Cell.Machine.{
  Channel, Cell, World, Outcome, ran, aborted, exited, fault, negative, stuck, Act, and_then,
  expent, load_cell, modify_cell,
}
use linux_fibers.Cell.Radio.{
  has_id, set_power, set_fading, set_against, set_minimal, power_of, refade, fading_recheck,
  interfere, generate_gain, tune,
}
use linux_fibers.Cell.Valid.{IsListed}

module _ {D : Type 0} ⦃d : Doubles D⦄ where
  -- A run ends in a state with the property, or at a negative bucket number of the queue,
  -- from a negative cast.
  abbrev pub Ends : {A : Type 0} → (A → World D → Type 0) → Outcome D A → Type 0
  Ends Φ (ran a w) = Φ a w
  Ends Φ aborted = ⊥
  Ends Φ exited = ⊥
  Ends Φ fault = ⊥
  Ends Φ negative = NegativeCast D
  Ends Φ stuck = ⊥

  pub Ends-and_then :
      {A B : Type 0} (Φ : A → World D → Type 0) (Ψ : B → World D → Type 0) (r : Outcome D A)
      (f : A → World D → Outcome D B)
      → Ends Φ r
      → ((a : A) (w : World D) → Φ a w → Ends Ψ (f a w))
      → Ends Ψ (and_then r f)
  Ends-and_then Φ Ψ (ran a w) f h g = g a w h
  Ends-and_then Φ Ψ aborted f h g = h
  Ends-and_then Φ Ψ exited f h g = h
  Ends-and_then Φ Ψ fault f h g = h
  Ends-and_then Φ Ψ negative f h g = h
  Ends-and_then Φ Ψ stuck f h g = h

  pub Ends-mono :
      {A : Type 0} (Φ Ψ : A → World D → Type 0) (r : Outcome D A)
      → ((a : A) (w : World D) → Φ a w → Ψ a w)
      → Ends Φ r
      → Ends Ψ r
  Ends-mono Φ Ψ (ran a w) f h = f a w h
  Ends-mono Φ Ψ aborted f h = h
  Ends-mono Φ Ψ exited f h = h
  Ends-mono Φ Ψ fault f h = h
  Ends-mono Φ Ψ negative f h = h
  Ends-mono Φ Ψ stuck f h = h

  pub Ends-if :
      {A : Type 0} (Φ : A → World D → Type 0) (b : Bool) (m n : Act D A) (w : World D)
      → (b ≡ true → Ends Φ (m w))
      → (b ≡ false → Ends Φ (n w))
      → Ends Φ ((if b then m else n) w)
  Ends-if Φ true m n w h g = h refl
  Ends-if Φ false m n w h g = g refl

  -- Only the generator has changed.
  abbrev pub IsDrawn : World D → World D → Type 0
  IsDrawn w w' = (w'.cell ≡ w.cell) × (w'.queue ≡ w.queue)

  pub IsDrawn-trans : (w w' w'' : World D) → IsDrawn w w' → IsDrawn w' w'' → IsDrawn w w''
  IsDrawn-trans w w' w'' h g = (g.0 ∙ h.0, g.1 ∙ h.1)

  -- The same channels, with other fadings and powers.
  abbrev pub IsRetuned : List (Channel D) → List (Channel D) → Type 0
  IsRetuned cs cs' =
      ((i : ℕ) → has_id i cs' ≡ has_id i cs)
      × ((length cs' ≡ length cs) × ((n : ℕ) → IsListed n cs → IsListed n cs'))

  pub IsRetuned-refl : (cs : List (Channel D)) → IsRetuned cs cs
  IsRetuned-refl cs = (λ i. refl, (refl, λ n h. h))

  pub IsRetuned-trans :
      (cs ds es : List (Channel D)) → IsRetuned cs ds → IsRetuned ds es → IsRetuned cs es
  IsRetuned-trans cs ds es h g = (λ i. g.0 i ∙ h.0 i, (g.1.0 ∙ h.1.0, λ n l. g.1.1 n (h.1.1 n l)))

  pub IsRetuned-cons :
      (c c' : Channel D) (cs cs' : List (Channel D))
      → c'.channel_id ≡ c.channel_id
      → IsRetuned cs cs'
      → IsRetuned (c ∷ cs) (c' ∷ cs')
  IsRetuned-cons c c' cs cs' e h = (
    λ i. ground (arith, e, h.0 i),
    (
      ap suc h.1.0,
      λ n l. (
        omega (arith, e, l.0),
        (subst (λ k. has_id k cs' ≡ false) (sym e) (h.0 c.channel_id ∙ l.1.0), h.1.1 n l.1.1),
      ),
    ),
  )

  pub load_cell_lem : (w : World D) (s : Cell D) → w.cell ≡ some s → load_cell w ≡ ran s w
  load_cell_lem w s e = ground (arith, e)

  pub modify_cell_lem :
      (f : Cell D → Cell D) (w : World D) (s : Cell D)
      → w.cell ≡ some s
      → modify_cell f w ≡ ran tt (record w { cell = some (f s) })
  modify_cell_lem f w s e = ground (arith, e)

module _ {D : Type 0} ⦃d : Doubles D⦄ (signed : IsSigned D) (libc : ℕ → ℕ × ℕ) (junk : D) where
  pub expent-Ends :
      (mean : D) (w : World D)
      → d.lt mean (d.lit 0 0) ≡ false
      → Ends (λ _. IsDrawn w) (expent libc mean w)
  unfolding expent
  expent-Ends mean w h =
      let run : expent libc mean w
          ≡ ran (d.mul (d.neg mean) (d.log (d.sub (d.lit 1 0) (random libc {D = D} w.generator).0)))
              (record w { generator = (random libc {D = D} w.generator).1 }) =
        ground (arith, h) in
      subst (Ends λ _. IsDrawn w) (sym run) (refl, refl)

  generate_gain-Ends :
      (gain : D) (w : World D) → Ends (λ _. IsDrawn w) (generate_gain libc junk gain w)
  unfolding generate_gain random
  generate_gain-Ends gain w = (refl, refl)

  refade-Ends :
      (cs : List (Channel D)) (w : World D)
      → Ends (λ cs' w'. IsDrawn w w' × IsRetuned cs cs') (refade libc junk cs w)
  unfolding refade
  refade-Ends [] w = ((refl, refl), IsRetuned-refl {D = D} [])
  refade-Ends (c ∷ cs) w =
      Ends-and_then (λ _. IsDrawn w) (λ cs' w'. IsDrawn w w' × IsRetuned (c ∷ cs) cs')
        (expent libc (d.lit 1 0) w) _ (expent-Ends (d.lit 1 0) w (signed.lit_nonneg 1 0))
        (λ f w1 h1.
          Ends-and_then (λ cs' w'. IsDrawn w1 w' × IsRetuned cs cs')
            (λ cs' w'. IsDrawn w w' × IsRetuned (c ∷ cs) cs') (refade libc junk cs w1) _
            (refade-Ends cs w1)
            (λ cs' w2 h2. (
              IsDrawn-trans w w1 w2 h1 h2.0,
              IsRetuned-cons c (record c { fading = f }) cs cs' refl h2.1,
            )))

  abbrev IsInterfered : List (Channel D) → World D → List (Channel D) × D → World D → Type 0
  IsInterfered cs w r w' = IsDrawn w w' × IsRetuned cs r.0

  abbrev faded : Channel D → D → List (Channel D) × D → World D → Outcome D (List (Channel D) × D)
  faded c f r = ran (record c { fading = f } ∷ r.0, r.1)

  interfere-Ends :
      (cs : List (Channel D)) (summ : D) (w : World D)
      → Ends (IsInterfered cs w) (interfere libc junk cs summ w)
  unfolding interfere
  interfere-Ends [] summ w = ((refl, refl), IsRetuned-refl {D = D} [])
  interfere-Ends (c ∷ cs) summ w =
      Ends-and_then (λ _. IsDrawn w) (IsInterfered (c ∷ cs) w) (expent libc (d.lit 1 0) w) _
        (expent-Ends (d.lit 1 0) w (signed.lit_nonneg 1 0))
        (λ f w1 h1.
          Ends-and_then (λ _. IsDrawn w1) (IsInterfered (c ∷ cs) w)
            (generate_gain libc junk (d.lit 5 14) w1) _ (generate_gain-Ends (d.lit 5 14) w1)
            (λ gain w2 h2.
              Ends-and_then (IsInterfered cs w2) (IsInterfered (c ∷ cs) w)
                (interfere libc junk cs (d.add summ (d.mul (d.mul gain c.power) f)) w2) (faded c f)
                (interfere-Ends cs (d.add summ (d.mul (d.mul gain c.power) f)) w2)
                (λ r w3 h3. (
                  IsDrawn-trans w w1 w3 h1 (IsDrawn-trans w1 w2 w3 h2 h3.0),
                  IsRetuned-cons c (record c { fading = f }) cs r.0 refl h3.1,
                ))))

  -- The state has other fadings and powers.
  abbrev pub IsTuned : World D → Cell D → World D → Type 0
  IsTuned w s w' =
      (w'.queue ≡ w.queue)
      × ((cs : List (Channel D)) × ((w'.cell ≡ some (record s { channels = cs }))
            × IsRetuned s.channels cs))

  abbrev refaded : Cell D → List (Channel D) → World D → Outcome D (Unit {0})
  refaded s cs w = ran tt (record w { cell = some (record s { channels = cs }) })

  fading_recheck_run :
      (w : World D) (s : Cell D)
      → w.cell ≡ some s
      → fading_recheck libc junk w ≡ and_then (refade libc junk s.channels w) (refaded s)
  unfolding fading_recheck
  fading_recheck_run w s e =
      ap (λ r. and_then r λ s. λ w. and_then (refade libc junk s.channels w) (refaded s))
        (load_cell_lem w s e)

  pub fading_recheck-Ends :
      (w : World D) (s : Cell D)
      → w.cell ≡ some s
      → Ends (λ _. IsTuned w s) (fading_recheck libc junk w)
  fading_recheck-Ends w s e = subst (Ends λ _. IsTuned w s) (sym (fading_recheck_run w s e)) (
      Ends-and_then (λ cs' w'. IsDrawn w w' × IsRetuned s.channels cs') (λ _. IsTuned w s)
        (refade libc junk s.channels w) (refaded s) (refade-Ends s.channels w)
        (λ cs' w' h. (h.0.1, (cs', (refl, h.1)))))

  set_power-Retuned : (p : D) (cs : List (Channel D)) → IsRetuned cs (set_power p cs)
  set_power-Retuned p [] = IsRetuned-refl {D = D} []
  set_power-Retuned p (c ∷ cs) =
      IsRetuned-cons c (record c { power = p }) cs cs refl (IsRetuned-refl cs)

  set_fading-Retuned : (f : D) (cs : List (Channel D)) → IsRetuned cs (set_fading f cs)
  set_fading-Retuned f [] = IsRetuned-refl {D = D} []
  set_fading-Retuned f (c ∷ cs) =
      IsRetuned-cons c (record c { fading = f }) cs cs refl (IsRetuned-refl cs)

  -- A write of a list that is retuned.
  stored-Tuned :
      (w w' : World D) (s : Cell D) (cs : List (Channel D))
      → w.cell ≡ some s
      → IsDrawn w w'
      → IsRetuned s.channels cs
      → Ends (λ _. IsTuned w s) (modify_cell (λ s. record s { channels = cs }) w')
  stored-Tuned w w' s cs e h r =
      subst (Ends λ _. IsTuned w s)
        (sym (modify_cell_lem (λ s. record s { channels = cs }) w' s (h.0 ∙ e)))
        (h.1, (cs, (refl, r)))

  set_against-Ends :
      (w w1 : World D) (s : Cell D) (summ : D) (cs : List (Channel D))
      → w.cell ≡ some s
      → IsDrawn w w1
      → IsRetuned s.channels cs
      → Ends (λ _. IsTuned w s) (set_against libc junk summ cs w1)
  unfolding set_against
  set_against-Ends w w1 s summ cs e h1 r =
      Ends-and_then (λ _. IsDrawn w1) (λ _. IsTuned w s) (expent libc (d.lit 1 0) w1) _
        (expent-Ends (d.lit 1 0) w1 (signed.lit_nonneg 1 0))
        (λ f w2 h2.
          Ends-and_then (λ _. IsDrawn w2) (λ _. IsTuned w s)
            (generate_gain libc junk (d.lit 1 10) w2)
            (λ gain. modify_cell λ s. record s {
              channels = set_power (power_of libc junk summ gain f) (set_fading f cs);
            })
            (generate_gain-Ends (d.lit 1 10) w2)
            (λ gain w3 h3.
              stored-Tuned w w3 s (set_power (power_of libc junk summ gain f) (set_fading f cs)) e
                (IsDrawn-trans w w1 w3 h1 (IsDrawn-trans w1 w2 w3 h2 h3))
                (IsRetuned-trans s.channels cs _ r (
                  IsRetuned-trans cs (set_fading f cs) _ (set_fading-Retuned f cs)
                    (set_power-Retuned (power_of libc junk summ gain f) (set_fading f cs))))))

  pub tune-Ends :
      (w : World D) (s : Cell D) (c : Channel D) (cs : List (Channel D))
      → w.cell ≡ some s
      → s.channels ≡ c ∷ cs
      → Ends (λ _. IsTuned w s) (tune libc junk (c ∷ cs) w)
  unfolding tune
  tune-Ends w s c cs e l =
      Ends-and_then (IsInterfered cs w) (λ _. IsTuned w s) (interfere libc junk cs (d.lit 0 0) w) _
        (interfere-Ends cs (d.lit 0 0) w)
        (λ r w1 h1.
          let old : IsRetuned s.channels (c ∷ r.0) =
            subst (λ l. IsRetuned l (c ∷ r.0)) (sym l) (IsRetuned-cons c c cs r.0 refl h1.1) in
          Ends-if (λ _. IsTuned w s) (d.is_zero r.1) (set_minimal libc junk (c ∷ r.0))
            (set_against libc junk r.1 (c ∷ r.0)) w1
            (λ _. stored-Tuned w w1 s (set_power (d.lit 3 0) (c ∷ r.0)) e h1.0 (
              IsRetuned-trans s.channels (c ∷ r.0) (set_power (d.lit 3 0) (c ∷ r.0)) old
                (set_power-Retuned (d.lit 3 0) (c ∷ r.0))))
            (λ _. set_against-Ends w w1 s r.1 (c ∷ r.0) e h1.0 old))
