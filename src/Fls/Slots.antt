-- ===== src/Fls/Slots.antt =====
-- The storage of one fiber by itself: the search for a free slot, and the slots seen as a partial map.
use linux_fibers.Common.{
  ℕ, zero, suc, ◌+◌, ◌≤◌, ◌<◌, ◌≡◌, ◌≢◌, refl, true, false, sym, ap, subst, arith, eq→==, ne→==,
  ◌==◌, ℤ, pos,
}
use native.Mathlib.Decide.{dec_le}
use linux_fibers.Fls.{find_free}

-- `i` is the least slot from `from` on whose bit is clear.
pub record IsFirstFree (bits : ℕ → ℕ) (from i : ℕ) : Type 0 where
  pub from_le : from ≤ i
  pub free : bits i ≡ 0
  pub least : (j : ℕ) → from ≤ j → j < i → bits j ≢ 0

pub find_free-first :
    (rounds from : ℕ) (bits : ℕ → ℕ) (index : ℤ) (i : ℕ)
    → IsFirstFree bits from i
    → i < from + rounds
    → find_free rounds from bits index ≡ pos i
unfolding find_free
find_free-first zero from bits index i h lt = absurd (omega (arith, h.from_le))
find_free-first (suc rounds) from bits index i h lt = elim (dec_le i from) [
  | yes le ↦
      let e : i ≡ from = omega (arith, h.from_le) in
      let z : (bits from == 0) ≡ true = eq→== _ _ (subst (λ j. bits j ≡ 0) e h.free) in
      rw z (ap pos (sym e))
  | no lt' ↦
      let z : (bits from == 0) ≡ false = ne→== _ _ (h.least from (omega arith) (omega arith)) in
      rw z (
        find_free-first rounds (from + 1) bits index i
          (record {
            from_le = omega arith;
            free = h.free;
            least = λ j a b. h.least j (omega arith) b;
          })
          (omega arith))
]

pub find_free-none :
    (rounds from : ℕ) (bits : ℕ → ℕ) (index : ℤ)
    → ((j : ℕ) → from ≤ j → j < from + rounds → bits j ≢ 0)
    → find_free rounds from bits index ≡ index
unfolding find_free
find_free-none zero from bits index h = refl
find_free-none (suc rounds) from bits index h = ground (
  arith,
  h from,
  find_free-none rounds (from + 1) bits index (λ j a b. h j (omega arith) (omega arith)),
)
