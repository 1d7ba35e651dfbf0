-- ===== src/Doubles.antt =====
-- What the programs of 2018-fibers do with a `double`: calqueue.c, channel.c, model.c and
-- numerical.c. The arithmetic of the machine is a parameter.
use linux_fibers.Common.{ℕ, ◌≡◌, Bool, true, false, ℤ, ◌⊎◌, is_nonneg}

-- `lit m e` is the constant m / 10^e, `to_int` and `to_long` are the casts.
pub record Doubles (D : Type 0) : Type 0 where
  pub lit : (m e : ℕ) → D
  pub of_int : ℕ → D
  pub add : D → D → D
  pub sub : D → D → D
  pub mul : D → D → D
  pub div : D → D → D
  pub neg : D → D
  pub log : D → D
  pub pow : D → D → D
  pub lt : D → D → Bool
  pub le : D → D → Bool
  pub is_zero : D → Bool
  pub to_int : D → ℤ
  pub to_long : D → ℤ

-- The cast of some quotient to int or to long is negative.
abbrev pub NegativeCast : (D : Type 0) ⦃d : Doubles D⦄ → Type 0
NegativeCast D ⦃d⦄ =
    (a : D) × ((b : D) × ((is_nonneg (d.to_int (d.div a b)) ≡ false)
        ⊎ (is_nonneg (d.to_long (d.div a b)) ≡ false)))

-- Laws of the comparison that all doubles have, NaN among them.
pub record IsOrder (D : Type 0) ⦃d : Doubles D⦄ : Type 0 where
  pub lt_irrefl : (x : D) → d.lt x x ≡ false
  pub lt_below : (x y z : D) → d.lt x y ≡ true → d.lt z y ≡ false → d.lt z x ≡ false

-- Laws of the numbers among them: a NaN is not `<=` itself.
pub record IsTotal (D : Type 0) ⦃d : Doubles D⦄ : Type 0 where
  pub lt_of_not_le :
      (x y : D) → d.le x x ≡ true → d.le y y ≡ true → d.le x y ≡ false → d.lt y x ≡ true
  pub not_lt_of_le : (x y : D) → d.le x y ≡ true → d.lt y x ≡ false
  pub not_lt_trans :
      (x y z : D) → d.le y y ≡ true → d.lt x y ≡ false → d.lt y z ≡ false → d.lt x z ≡ false

-- Laws of the sign: a constant is not negative, nor is a product of such numbers.
pub record IsSigned (D : Type 0) ⦃d : Doubles D⦄ : Type 0 where
  pub lit_nonneg : (m e : ℕ) → d.lt (d.lit m e) (d.lit 0 0) ≡ false
  pub mul_nonneg :
      (x y : D)
      → d.lt x (d.lit 0 0) ≡ false
      → d.lt y (d.lit 0 0) ≡ false
      → d.lt (d.mul x y) (d.lit 0 0) ≡ false
