-- ===== src/Cell/Valid.antt =====
-- The invariant of a cell: the bits, the list and the counter agree.
use linux_fibers.Common.{
  ℕ, zero, suc, ◌+◌, ◌<◌, ◌≡◌, ◌≢◌, refl, sym, subst, ap, ◌∙◌, Bool, true, false, List, [], ◌∷◌,
  ◌==◌, if◌then◌else◌, arith, inl, inr, Bool-cases, ==→eq, ==→ne, length,
}
use linux_fibers.Doubles.{Doubles}
use linux_fibers.Calendar.Counts.{sum_to, sum_change, sum_zero, one_if}
use linux_fibers.Cell.Machine.{Channel, Cell}
use linux_fibers.Cell.Radio.{channels_in_cell, has_bit, put_bit, has_id, unlink}

module _ {D : Type 0} where
  -- The numbers of the nodes, each below n and once.
  abbrev pub IsListed : ℕ → List (Channel D) → Type 0
  IsListed n [] = Unit
  IsListed n (c ∷ cs) = (c.channel_id < n) × ((has_id c.channel_id cs ≡ false) × IsListed n cs)

  -- The bits and the list agree.
  pub record IsWired ⦃d : Doubles D⦄ (s : Cell D) : Type 0 where
    pub size : s.channels_per_cell ≡ channels_in_cell
    pub listed : IsListed channels_in_cell s.channels
    pub agrees : (i : ℕ) → i < channels_in_cell → has_bit i s ≡ has_id i s.channels
    pub duration : s.ta_duration ≡ d.lit 60 0
    pub arrivals : s.ref_ta ≡ d.lit 16 2

  -- And the counter is the number of the free channels.
  abbrev pub IsCell : ⦃d : Doubles D⦄ → Cell D → Type 0
  IsCell s = IsWired s × (s.channel_counter + length s.channels ≡ channels_in_cell)

  -- The numbers in use, counted.
  abbrev in_use : List (Channel D) → ℕ → ℕ
  in_use cs n = sum_to (λ i. one_if (has_id i cs)) n

  in_use_lem : (n : ℕ) (cs : List (Channel D)) → IsListed n cs → in_use cs n ≡ length cs
  in_use_lem n [] h = sum_zero (λ i. one_if (has_id {D = D} i [])) n (λ i p. refl)
  in_use_lem n (c ∷ cs) h =
      let rest = in_use_lem n cs h.1.1 in
      let change =
        sum_change (λ i. one_if (has_id i (c ∷ cs))) (λ i. one_if (has_id i cs)) n c.channel_id h.0
          (λ j p ne. ap one_if (ground (arith, ne))) in
      let here : one_if (has_id c.channel_id (c ∷ cs)) ≡ 1 = ground arith in
      let there : one_if (has_id c.channel_id cs) ≡ 0 = ap one_if h.1.0 in
      omega (arith, rest, change, here, there)

  all_in_use :
      (n : ℕ) (cs : List (Channel D)) → ((i : ℕ) → i < n → has_id i cs ≡ true) → in_use cs n ≡ n
  all_in_use zero cs h = refl
  all_in_use (suc n) cs h =
      let last : one_if (has_id n cs) ≡ 1 = ap one_if (h n (omega arith)) in
      omega (arith, all_in_use n cs (λ i p. h i (omega (arith, p))), last)

  -- With fewer nodes than numbers, some number is free.
  pub not_all_in_use :
      (n : ℕ) (cs : List (Channel D))
      → IsListed n cs
      → length cs < n
      → ((i : ℕ) → i < n → has_id i cs ≡ true)
      → ⊥
  not_all_in_use n cs l h all = omega (arith, in_use_lem n cs l, all_in_use n cs all, h)

  -- Two numbers with the same word and bit are the same.
  pub has_bit_same : (i : ℕ) (b : Bool) (s : Cell D) → has_bit i (put_bit i b s) ≡ b
  has_bit_same i b s = ground arith

  pub has_bit_other :
      (i j : ℕ) (b : Bool) (s : Cell D) → j ≢ i → has_bit j (put_bit i b s) ≡ has_bit j s
  has_bit_other i j b s ne = ground (arith, ne)

  pub has_id-unlink_other :
      (i j : ℕ) (cs : List (Channel D)) → j ≢ i → has_id j (unlink i cs) ≡ has_id j cs
  has_id-unlink_other i j [] ne = refl
  has_id-unlink_other i j (c ∷ cs) ne = ground (arith, ne, has_id-unlink_other i j cs ne)

  pub has_id-unlink_same :
      (n i : ℕ) (cs : List (Channel D)) → IsListed n cs → has_id i (unlink i cs) ≡ false
  has_id-unlink_same n i [] l = refl
  has_id-unlink_same n i (c ∷ cs) l = elim (Bool-cases (c.channel_id == i)) [
    | inl e ↦
        let same = ==→eq c.channel_id i e in
        let gone : has_id i cs ≡ false = subst (λ k. has_id k cs ≡ false) same l.1.0 in
        ground (arith, e, gone)
    | inr e ↦ ground (arith, e, has_id-unlink_same n i cs l.1.1)
  ]

  pub unlink-IsListed : (n i : ℕ) (cs : List (Channel D)) → IsListed n cs → IsListed n (unlink i cs)
  unlink-IsListed n i [] l = tt
  unlink-IsListed n i (c ∷ cs) l = elim (Bool-cases (c.channel_id == i)) [
    | inl e ↦ subst (λ b. IsListed n (if b then cs else c ∷ unlink i cs)) (sym e) l.1.1
    | inr e ↦
        subst (λ b. IsListed n (if b then cs else c ∷ unlink i cs)) (sym e)
          (
            l.0,
            (
              has_id-unlink_other i c.channel_id cs (==→ne c.channel_id i e) ∙ l.1.0,
              unlink-IsListed n i cs l.1.1,
            ),
          )
  ]

  pub length-unlink :
      (i : ℕ) (cs : List (Channel D)) → has_id i cs ≡ true → length cs ≡ suc (length (unlink i cs))
  length-unlink i [] h = cc
  length-unlink i (c ∷ cs) h = elim (Bool-cases (c.channel_id == i)) [
    | inl e ↦ ground (arith, e)
    | inr e ↦ let rest = length-unlink i cs (ground (arith, e, h)) in ground (arith, e, rest)
  ]
