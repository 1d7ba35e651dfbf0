-- ===== src/Cell/Free.antt =====
-- The search for the least free channel.
use linux_fibers.Common.{
  ℕ, zero, suc, ◌+◌, ◌<◌, ◌≤◌, ◌≡◌, refl, subst, ◌∙◌, true, false, arith, inl, inr, Bool-cases,
  Option, none, some,
}
use native.Mathlib.Decide.{ℕ_discrete}
use linux_fibers.Cell.Machine.{Cell, World, ran}
use linux_fibers.Cell.Radio.{channels_in_cell, has_bit, check_channel, free_channel}

from_suc : (Q : ℕ → Type 0) (i : ℕ) → Q i → ((j : ℕ) → suc i ≤ j → Q j) → (j : ℕ) → i ≤ j → Q j
from_suc Q i q f j h = elim (ℕ_discrete i j) [
  | yes e ↦ subst Q e q
  | no ne ↦ f j (omega (arith, ne, h))
]

module _ {D : Type 0} where
  -- The search for a free channel.
  abbrev pub IsFree : Cell D → (n i : ℕ) → Option ℕ → Type 0
  IsFree s n i none = (j : ℕ) → i ≤ j → j < i + n → has_bit j s ≡ true
  IsFree s n i (some k) =
      (i ≤ k)
      × ((k < i + n) × ((has_bit k s ≡ false) × ((j : ℕ) → i ≤ j → j < k → has_bit j s ≡ true)))

  free_channel_busy :
      (n i : ℕ) (w : World D) (s : Cell D)
      → w.cell ≡ some s
      → i < channels_in_cell
      → has_bit i s ≡ true
      → free_channel (suc n) i w ≡ free_channel n (suc i) w
  unfolding free_channel check_channel
  free_channel_busy n i w s e h b = ground (arith, e, h, b)

  free_channel_free :
      (n i : ℕ) (w : World D) (s : Cell D)
      → w.cell ≡ some s
      → i < channels_in_cell
      → has_bit i s ≡ false
      → free_channel (suc n) i w ≡ ran (some i) w
  unfolding free_channel check_channel
  free_channel_free n i w s e h b = ground (arith, e, h, b)

  later-IsFree :
      (s : Cell D) (n i : ℕ) (o : Option ℕ)
      → has_bit i s ≡ true
      → IsFree s n (suc i) o
      → IsFree s (suc n) i o
  later-IsFree s n i none b h =
      from_suc (λ j. j < i + suc n → has_bit j s ≡ true) i (λ _. b)
        (λ j p q. h j p (omega (arith, q)))
  later-IsFree s n i (some k) b h = (
    omega (arith, h.0),
    (
      omega (arith, h.1.0),
      (h.1.1.0, λ j p. from_suc (λ j. j < k → has_bit j s ≡ true) i (λ _. b) h.1.1.1 j p),
    ),
  )

  pub free_channel_lem :
      (n i : ℕ) (w : World D) (s : Cell D)
      → w.cell ≡ some s
      → i + n ≤ channels_in_cell
      → (o : Option ℕ) × ((free_channel n i w ≡ ran o w) × IsFree s n i o)
  unfolding free_channel
  free_channel_lem zero i w s e h =
      (none, (refl, λ j p q. let no_way : ⊥ = omega (arith, p, q) in elim no_way [ ]))
  free_channel_lem (suc n) i w s e h = elim (Bool-cases (has_bit i s)) [
    | inl b ↦
        let rest = free_channel_lem n (suc i) w s e (omega (arith, h)) in
        (
          rest.0,
          (
            free_channel_busy n i w s e (omega (arith, h)) b ∙ rest.1.0,
            later-IsFree s n i rest.0 b rest.1.1,
          ),
        )
    | inr b ↦ (
      some i,
      (
        free_channel_free n i w s e (omega (arith, h)) b,
        (
          omega arith,
          (omega arith, (b, λ j p q. let no_way : ⊥ = omega (arith, p, q) in elim no_way [ ])),
        ),
      ),
    )
  ]
