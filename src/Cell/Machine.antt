-- ===== src/Cell/Machine.antt =====
-- The state of a simulated cell (2018-fibers/src/model.h) beside the generator and the queue of its
-- fiber, and commands on them.
use linux_fibers.Common.{ℕ, Bool, List, Option, none, some, ℤ, if◌then◌else◌}
use linux_fibers.Doubles.{Doubles}
use linux_fibers.Random.{Generator, random}
use linux_fibers.Calendar.Machine.{Queue}
use linux_fibers.Calendar.Machine

pub record Message (D : Type 0) : Type 0 where
  pub sender : ℕ
  pub receiver : ℕ
  pub kind : ℕ
  pub timestamp : D
  pub channel_number : ℤ

-- A node of the list of channels with its `sir_data`.
pub record Channel (D : Type 0) : Type 0 where
  pub channel_id : ℕ
  pub fading : D
  pub power : D

-- `lp_state_type`, without the fields that no code uses. An `unsigned int` of `channel_state` is its
-- 32 bits; `channels` is from the last node on, along `prev`.
pub record Cell (D : Type 0) : Type 0 where
  pub channel_counter : ℕ
  pub arriving_calls : ℕ
  pub complete_calls : ℕ
  pub blocked_on_setup : ℕ
  pub executed_events : ℕ
  pub lvt : D
  pub ta : D
  pub ref_ta : D
  pub ta_duration : D
  pub ta_change : D
  pub channels_per_cell : ℕ
  pub channel_state : ℕ → ℕ → Bool
  pub channels : List (Channel D)

-- What a fiber works on: the state that its storage points to, if any, and its queue.
pub record World (D : Type 0) : Type 0 where
  pub generator : Generator
  pub cell : Option (Cell D)
  pub queue : Queue D (Message D)

-- A result, an abort(), an exit(), a fault, or what the queue ends in.
pub data Outcome (D A : Type 0) : Type 0 where
  ran : A → World D → Outcome D A
  aborted : Outcome D A
  exited : Outcome D A
  fault : Outcome D A
  negative : Outcome D A
  stuck : Outcome D A

abbrev pub Act : Type 0 → Type 0 → Type 0
Act D A = World D → Outcome D A

module _ {D A B : Type 0} where
  abbrev pub and_then : Outcome D A → (A → World D → Outcome D B) → Outcome D B
  and_then (ran a w) f = f a w
  and_then aborted f = aborted
  and_then exited f = exited
  and_then fault f = fault
  and_then negative f = negative
  and_then stuck f = stuck

  infixl 5 ◌>>=◌ ◌>>◌
  abbrev pub ◌>>=◌ : Act D A → (A → Act D B) → Act D B
  m >>= f = λ w. and_then (m w) f

  abbrev pub ◌>>◌ : Act D A → Act D B → Act D B
  m >> n = m >>= λ _. n

module _ {D A : Type 0} where
  abbrev pub pure : A → Act D A
  pure = ran

  abbrev pub crash : Act D A
  crash w = fault

  abbrev pub abort : Act D A
  abort w = aborted

  abbrev pub exit : Act D A
  exit w = exited

  abbrev pub get : (World D → A) → Act D A
  get f w = ran (f w) w

  -- A call on the queue of the fiber.
  abbrev pub on_queue_result : World D → Machine.Run (Queue D (Message D)) A → Outcome D A
  on_queue_result w (Machine.Run.ran a q) = ran a (record w { queue = q })
  on_queue_result w Machine.Run.negative = negative
  on_queue_result w Machine.Run.fault = fault
  on_queue_result w Machine.Run.stuck = stuck

  abbrev pub on_queue : (Queue D (Message D) → Machine.Run (Queue D (Message D)) A) → Act D A
  on_queue m w = on_queue_result w (m w.queue)

module _ {D : Type 0} where
  -- Through the pointer to the state: NULL is a fault.
  abbrev pub cell_or_fault : Option (Cell D) → Act D (Cell D)
  cell_or_fault none = crash
  cell_or_fault (some s) = pure s

  abbrev pub load_cell : Act D (Cell D)
  load_cell w = cell_or_fault w.cell w

  abbrev pub store_cell : Cell D → Act D (Unit {0})
  store_cell s w = ran tt (record w { cell = some s })

  abbrev pub modify_cell : (Cell D → Cell D) → Act D (Unit {0})
  modify_cell f = load_cell >>= λ s. store_cell (f s)

module _ {D : Type 0} ⦃d : Doubles D⦄ (libc : ℕ → ℕ × ℕ) where
  abbrev pub draw : Act D D
  draw w =
      ran (random libc {D = D} w.generator).0
        (record w { generator = (random libc {D = D} w.generator).1 })

  -- `Expent`
  unfoldable pub expent : D → Act D D
  unfolding random
  expent mean =
      if d.lt mean (d.lit 0 0)
      then exit
      else draw >>= λ r. pure (d.mul (d.neg mean) (d.log (d.sub (d.lit 1 0) r)))
