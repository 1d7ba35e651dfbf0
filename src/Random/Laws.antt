-- ===== src/Random/Laws.antt =====
-- The seeds do not wrap, they are drawn once, and the second one stays 0.
use linux_fibers.Common.{ℕ, zero, suc, ◌+◌, ◌*◌, ◌/◌, ◌%◌, ◌<◌, ◌≡◌, ◌≢◌, arith, refl, subst, sym}
use linux_fibers.Random.{Generator, uint, next_seed1, next_seed2, libc_max, seeded, stepped}

-- The 32-bit arithmetic of a step does not wrap, and a seed that is not 0 does not become 0.
next_seed1_exact : (s : ℕ) → s < uint → next_seed1 s ≡ 36969 * (s % 65536) + s / 65536
next_seed1_exact s h = omega (arith, h)

next_seed1_alive : (s : ℕ) → s < uint → s ≢ 0 → next_seed1 s ≢ 0
next_seed1_alive s h n = omega (arith, h, n)

-- A generator that is under way: the first seed is a number below 2^32 and not 0, the second is 0.
pub record IsRunning (g : Generator) : Type 0 where
  pub small : g.seed1 < uint
  pub alive : g.seed1 ≢ 0
  pub second : g.seed2 ≡ 0

module _ (libc : ℕ → ℕ × ℕ) where
  abbrev pub draws : ℕ → Generator → Generator
  draws zero g = g
  draws (suc n) g = stepped libc (draws n g)

  seeded_running : (g : Generator) → g.seed1 ≢ 0 → seeded libc g ≡ g
  unfolding seeded
  seeded_running g n = ground (arith, n)

  seeded_zero :
      (g : Generator)
      → g.seed1 ≡ 0
      → g.seed2 ≡ 0
      → seeded libc g ≡ record {
        seed1 = (libc g.libc_state).0 % uint;
        seed2 = (libc g.libc_state).0 / uint;
        libc_state = (libc g.libc_state).1;
      }
  unfolding seeded
  seeded_zero g a b = ground (arith, a, b)

  abbrev advanced : Generator → Generator
  advanced g = record g { seed1 = next_seed1 g.seed1; seed2 = next_seed2 g.seed2 }

  advanced-IsRunning : (g : Generator) → IsRunning g → IsRunning (advanced g)
  advanced-IsRunning g r = record {
    small = omega arith;
    alive = next_seed1_alive g.seed1 r.small r.alive;
    second = omega (arith, r.second);
  }

  -- From cleared seeds, when random() of the C library gives a first value that is not 0 and
  -- below 2^31, then after any number of draws, one or more: that value was the only one drawn,
  -- the first seed is not 0 and below 2^32, and the second seed is 0.
  pub draws-IsRunning :
      (g : Generator)
      → g.seed1 ≡ 0
      → g.seed2 ≡ 0
      → (libc g.libc_state).0 ≢ 0
      → (libc g.libc_state).0 < libc_max
      → (n : ℕ)
      → IsRunning (draws (suc n) g) × ((draws (suc n) g).libc_state ≡ (libc g.libc_state).1)
  unfolding stepped
  draws-IsRunning g a b nz small zero =
      let start : Generator = record {
        seed1 = (libc g.libc_state).0 % uint;
        seed2 = (libc g.libc_state).0 / uint;
        libc_state = (libc g.libc_state).1;
      } in
      let running : IsRunning start = record {
        small = omega arith;
        alive = omega (arith, nz, small);
        second = omega (arith, small);
      } in
      (
        subst (λ s. IsRunning (advanced s)) (sym (seeded_zero g a b))
            (advanced-IsRunning start running),
        subst (λ s. s.libc_state ≡ (libc g.libc_state).1) (sym (seeded_zero g a b)) refl,
      )
  draws-IsRunning g a b nz small (suc n) =
      let before = draws-IsRunning g a b nz small n in
      (
        subst (λ s. IsRunning (advanced s)) (sym (seeded_running (draws (suc n) g) before.0.alive))
            (advanced-IsRunning (draws (suc n) g) before.0),
        subst (λ s. s.libc_state ≡ (libc g.libc_state).1)
            (sym (seeded_running (draws (suc n) g) before.0.alive)) before.1,
      )
