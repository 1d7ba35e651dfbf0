-- ===== src/Random.antt =====
-- The generator of 2018-fibers/src/numerical.c: two 32-bit seeds, in one word of 64 bits. `libc`
-- is random() of the C library, on a state of its own: its value and its next state.
pub mod Laws
use linux_fibers.Common.{ℕ, ◌+◌, ◌*◌, ◌/◌, ◌%◌, ◌^◌, ◌==◌, ◌&&◌, if◌then◌else◌}
use linux_fibers.Doubles.{Doubles}

pub record Generator : Type 0 where
  pub seed1 : ℕ
  pub seed2 : ℕ
  pub libc_state : ℕ

-- The range of `uint32_t`.
abbrev pub uint : ℕ
uint = 4294967296

-- `36969u * (*seed1 & 0xFFFFu) + (*seed1 >> 16u)`, and the same with 18000.
abbrev pub next_seed1 : ℕ → ℕ
next_seed1 s = (36969 * (s % 65536) + s / 65536) % uint

abbrev pub next_seed2 : ℕ → ℕ
next_seed2 s = (18000 * (s % 65536) + s / 65536) % uint

-- `(*seed1 << 16u) + (*seed1 >> 16u) + *seed2`
abbrev pub mixed : Generator → ℕ
mixed g = (g.seed1 * 65536 % uint + g.seed1 / 65536 + g.seed2) % uint

abbrev pub libc_max : ℕ
libc_max = 2147483648

module _ (libc : ℕ → ℕ × ℕ) where
  unfoldable pub seeded : Generator → Generator
  seeded g =
      if g.seed1 == 0 && g.seed2 == 0
      then (record {
        seed1 = (libc g.libc_state).0 % uint;
        seed2 = (libc g.libc_state).0 / uint;
        libc_state = (libc g.libc_state).1;
      })
      else g

  unfoldable pub stepped : Generator → Generator
  unfolding seeded
  stepped g = record (seeded g) {
    seed1 = next_seed1 (seeded g).seed1;
    seed2 = next_seed2 (seeded g).seed2;
  }

  -- `Random`: the factor is 2.328306435454494e-10.
  unfoldable pub random : {D : Type 0} ⦃d : Doubles D⦄ → Generator → D × Generator
  unfolding stepped
  random ⦃d⦄ g = (
    d.mul (d.add (d.of_int (mixed (stepped g))) (d.lit 1 0)) (d.lit 2328306435454494 25),
    stepped g,
  )
