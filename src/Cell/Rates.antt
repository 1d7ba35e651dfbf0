-- ===== src/Cell/Rates.antt =====
-- The rate of the calls: recompute_ta.
use linux_fibers.Common.{ℕ, ◌%◌, ◌≡◌, Bool, true, false, ℤ, pos, negsuc, ltb, if◌then◌else◌}
use linux_fibers.Doubles.{Doubles, IsSigned}
use linux_fibers.Cell.Radio.{recompute_ta, rate_at, day_rate}

module _ {D : Type 0} ⦃d : Doubles D⦄ where
  -- The rates are not negative.
  times_nonneg :
      IsSigned D
      → (r : D) (m e : ℕ) → d.lt r (d.lit 0 0) ≡ false
      → d.lt (d.mul r (d.lit m e)) (d.lit 0 0) ≡ false
  times_nonneg g r m e h = g.mul_nonneg r (d.lit m e) h (g.lit_nonneg m e)

  either_nonneg :
      (b : Bool) (x y : D)
      → d.lt x (d.lit 0 0) ≡ false
      → d.lt y (d.lit 0 0) ≡ false
      → d.lt (if b then x else y) (d.lit 0 0) ≡ false
  either_nonneg true x y hx hy = hx
  either_nonneg false x y hx hy = hy

  day_rate_nonneg :
      IsSigned D
      → (r : D) (now : ℕ) → d.lt r (d.lit 0 0) ≡ false
      → d.lt (day_rate r now) (d.lit 0 0) ≡ false
  day_rate_nonneg g r now h = either_nonneg (ltb now 30600) _ _ (times_nonneg g r 4 0 h) (
      either_nonneg (ltb now 46800) _ _ (times_nonneg g r 8 1 h) (
        either_nonneg (ltb now 54000) _ _ (times_nonneg g r 25 1 h) (
          either_nonneg (ltb now 68400) _ _ (times_nonneg g r 2 0 h) (
            either_nonneg (ltb now 75600) _ _ (times_nonneg g r 22 1 h)
              (times_nonneg g r 45 1 h)))))

  rate_at_nonneg :
      IsSigned D
      → (r : D) (now : ℤ) → d.lt r (d.lit 0 0) ≡ false
      → d.lt (rate_at r now) (d.lit 0 0) ≡ false
  rate_at_nonneg g r (pos now) h =
      either_nonneg (ltb 432000 (now % 604800)) _ _ (times_nonneg g r 5 0 h)
        (day_rate_nonneg g r (now % 604800 % 86400) h)
  rate_at_nonneg g r (negsuc now) h = times_nonneg g r 4 0 h

  pub recompute_ta_nonneg :
      IsSigned D
      → (r t : D) → d.lt r (d.lit 0 0) ≡ false
      → d.lt (recompute_ta r t) (d.lit 0 0) ≡ false
  unfolding recompute_ta
  recompute_ta_nonneg g r t h = rate_at_nonneg g r (d.to_int t) h
