-- ===== src/Cell.antt =====
-- The cells of 2018-fibers: the events of model.c, and the loop of main.c that serves them.
pub mod Machine
pub mod Radio
pub mod Valid
pub mod Effects
pub mod Free
pub mod Allocation
pub mod Events
pub mod Rates
pub mod Steps
pub mod Handlers
pub mod Loop
pub mod Start
use linux_fibers.Common.{
  ℕ, zero, suc, ◌+◌, ◌-◌, ◌*◌, ◌/◌, ◌%◌, ◌==◌, Bool, true, false, not, ◌||◌, List, [], ◌∷◌, Option,
  none, some, ℤ, pos, negsuc, minus_one, ltb, leb, if◌then◌else◌, update,
}
use mathlib.Core.Option
use linux_fibers.Doubles.{Doubles}
use linux_fibers.Random.{uint, random}
use linux_fibers.Calendar.{calqueue_init, calqueue_put, calqueue_get}
use Radio.{bits, channels_in_cell, recompute_ta, allocation, deallocation}
use Machine.{
  Message, Channel, Cell, World, Act, ran, ◌>>=◌, ◌>>◌, pure, crash, abort, exit, get, on_queue,
  load_cell, store_cell, modify_cell, draw, expent,
}

abbrev pub init_event : ℕ
init_event = 0

abbrev pub start_call : ℕ
start_call = 20

abbrev pub end_call : ℕ
end_call = 21

abbrev pub complete_limit : ℕ
complete_limit = 15000

-- What `ProcessEvent` returns: the address of a new state, or a number.
pub data Return (D : Type 0) : Type 0 where
  state : Cell D → Return D
  number : ℕ → Return D

-- `junk` and `junk_words` are what malloc leaves in its blocks.
module _ {D : Type 0} ⦃d : Doubles D⦄ (libc : ℕ → ℕ × ℕ) (junk : D)
    (junk_words : ℕ → ℕ → Bool) where
  abbrev pub pack_event : (cell kind : ℕ) (stamp : D) (ch : ℤ) → Message D
  pack_event cell kind stamp ch = record {
    sender = cell;
    receiver = cell;
    kind = kind;
    timestamp = stamp;
    channel_number = ch;
  }

  unfoldable pub schedule_event : (cell kind : ℕ) (stamp : D) (ch : ℤ) → Act D (Unit {0})
  unfolding calqueue_put
  schedule_event cell kind stamp ch =
      on_queue (calqueue_put 1 stamp (pack_event cell kind stamp ch))

  abbrev pub started : D → Cell D → Cell D
  started now s = record s { lvt = now; executed_events = (s.executed_events + 1) % uint }

  -- The words that are cleared: `channel_counter / 32 + 1` of them.
  abbrev pub cleared_words : ℕ → ℕ → Bool
  cleared_words w k = if ltb w (channels_in_cell / bits + 1) then false else junk_words w k

  abbrev pub new_cell : Cell D
  new_cell = record {
    channel_counter = channels_in_cell;
    arriving_calls = 0;
    complete_calls = 0;
    blocked_on_setup = 0;
    executed_events = 0;
    lvt = d.lit 0 0;
    ta = d.lit 16 2;
    ref_ta = d.lit 16 2;
    ta_duration = d.lit 60 0;
    ta_change = d.lit 1500 1;
    channels_per_cell = channels_in_cell;
    channel_state = cleared_words;
    channels = [];
  }

  unfoldable pub on_init : ℕ → Act D (Return D)
  unfolding schedule_event
  on_init me = do
    r ← draw libc
    schedule_event me start_call (d.mul (d.lit 20 0) r) minus_one
    pure (state new_cell)

  -- A new call takes a channel, if there is one.
  abbrev pub block_call : Act D (Unit {0})
  block_call = modify_cell λ s. record s { blocked_on_setup = (s.blocked_on_setup + 1) % uint }

  unfoldable pub connect_call : (me : ℕ) (now ta_duration : D) → Act D (Unit {0})
  unfolding expent allocation schedule_event
  connect_call me now ta_duration = do
    modify_cell λ s. record s { channel_counter = s.channel_counter - 1 }
    e ← expent libc ta_duration
    ch ← allocation libc junk
    schedule_event me end_call (d.add now e) (pos ch)

  unfoldable pub accept_call : (me : ℕ) (now : D) → Act D (Unit {0})
  unfolding connect_call
  accept_call me now = do
    s ← load_cell
    if s.channel_counter == 0 then block_call else connect_call me now s.ta_duration

  unfoldable pub on_start_call : (me : ℕ) (now : D) → Act D (Return D)
  unfolding expent accept_call schedule_event recompute_ta
  on_start_call me now = do
    modify_cell λ s. record s { arriving_calls = (s.arriving_calls + 1) % uint }
    accept_call me now
    modify_cell λ s. record s { ta = recompute_ta s.ref_ta now }
    s ← load_cell
    e ← expent libc s.ta
    schedule_event me start_call (d.add now e) minus_one
    pure (number 0)

  unfoldable pub on_end_call : ℤ → Act D (Return D)
  unfolding deallocation
  on_end_call ch = do
    modify_cell λ s. record s {
      channel_counter = (s.channel_counter + 1) % uint;
      complete_calls = (s.complete_calls + 1) % uint;
    }
    deallocation libc junk ch
    s ← load_cell
    pure (number (if s.complete_calls == complete_limit then 1 else 0))

  abbrev pub start_event : D → Act D (Unit {0})
  start_event now w = ran tt (record w { cell = Option.map (started now) w.cell })

  unfoldable pub process_event : Message D → Act D (Return D)
  unfolding on_init on_start_call on_end_call
  process_event msg = do
    start_event msg.timestamp
    if msg.kind == init_event
        then on_init msg.receiver
        else if msg.kind == start_call
        then on_start_call msg.receiver msg.timestamp
        else if msg.kind == end_call
        then on_end_call msg.channel_number
        else abort

  -- What `main_loop` does with the result, and whether it goes on.
  abbrev pub finish : (kind : ℕ) → Return D → Act D Bool
  finish kind (state s) = if kind == init_event then store_cell s >> pure true else pure false
  finish kind (number n) = pure (n == 0)

  -- No event, or one for another fiber, ends the program.
  unfoldable pub serve : (id : ℕ) → Option (Message D) → Act D Bool
  unfolding process_event
  serve id none = exit
  serve id (some event) =
      if event.receiver == id then process_event event >>= finish event.kind else exit

  -- One round of the loop of `main_loop`: whether there is another.
  unfoldable pub main_step : (id : ℕ) → Act D Bool
  unfolding serve calqueue_get
  main_step id = on_queue (calqueue_get 1) >>= serve id

  -- The loop, for at most a number of rounds: whether it is still running.
  unfoldable pub main_loop : (rounds id : ℕ) → Act D Bool
  unfolding main_step
  main_loop zero id = pure true
  main_loop (suc rounds) id = do
    more ← main_step id
    if more then main_loop rounds id else pure false

  -- The queue and the first event of a fiber; `main_loop` leaves the other fields of it unset.
  abbrev pub first_event : ℕ → Message D
  first_event id = record {
    sender = id;
    receiver = id;
    kind = init_event;
    timestamp = d.lit 0 0;
    channel_number = pos 0;
  }

  unfoldable pub main_start : (id : ℕ) → Act D (Unit {0})
  unfolding calqueue_init calqueue_put
  main_start id = do
    on_queue calqueue_init
    on_queue (calqueue_put 1 (d.lit 0 0) (first_event id))
    λ w. ran tt (record w { cell = none })
