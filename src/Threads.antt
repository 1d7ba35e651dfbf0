-- ===== src/Threads.antt =====
-- The threads of 2018-fibers/src/thread.c, as steps that interleave.
pub mod Numbers
use linux_fibers.Common.{
  ℕ, ◌+◌, ◌%◌, ◌==◌, ◌<◌, ◌≡◌, Bool, true, false, Option, none, some, if◌then◌else◌, update,
}
use linux_fibers.Random.{uint}

-- Where a thread is in `__helper_create_thread`: before it reads the counter, with the number that
-- it read, with its `tid` before it reads the argument, in its start routine, or at its end.
pub data Place : Type 0 where
  begins : Place
  read : ℕ → Place
  with_tid : ℕ → Place
  numbered : ℕ → Place
  ended : ℕ → Place

-- The counter, the threads, and whether the argument that they share is allocated.
pub record Team : Type 0 where
  pub thread_counter : ℕ
  pub places : ℕ → Place
  pub arg_live : Bool

module _ (t : ℕ) where
  abbrev pub moved : Place → Team → Team
  moved p s = record s { places = update s.places t p }

  abbrev pub load_at : Place → Team → Team
  load_at begins s = moved (read s.thread_counter) s
  load_at _ s = s

  -- `old_counter = thread_counter`
  unfoldable pub load_counter : Team → Team
  load_counter s = load_at (s.places t) s

  abbrev pub swap_at : Place → Team → Team
  swap_at (read old) s =
      if s.thread_counter == old
      then record (moved (with_tid ((old + 1) % uint)) s) { thread_counter = (old + 1) % uint }
      else moved begins s
  swap_at _ s = s

  -- `tid = old_counter + 1`, the compare-and-swap, and the test of the loop.
  unfoldable pub compare_and_swap : Team → Team
  compare_and_swap s = swap_at (s.places t) s

  abbrev pub enter_at : Place → Team → Option Team
  enter_at (with_tid k) s = if s.arg_live then some (moved (numbered k) s) else none
  enter_at _ s = some s

  -- `real_arg->start_routine(real_arg->arg)`: a fault if the argument is freed already.
  unfoldable pub enter_routine : Team → Option Team
  enter_routine s = enter_at (s.places t) s

  abbrev pub end_at : Place → Team → Option Team
  end_at (numbered k) s =
      if s.arg_live then some (record (moved (ended k) s) { arg_live = false }) else none
  end_at _ s = some s

  -- The start routine has returned: `free(arg)`, a fault if it is freed already.
  unfoldable pub end_thread : Team → Option Team
  end_thread s = end_at (s.places t) s

-- `create_threads`
abbrev pub create_threads : Team
create_threads = record { thread_counter = 0; places = λ _. begins; arg_live = true }

-- The number that a thread has got, 0 for none.
abbrev pub tid_of : Place → ℕ
tid_of begins = 0
tid_of (read _) = 0
tid_of (with_tid k) = k
tid_of (numbered k) = k
tid_of (ended k) = k

-- A step of one of n threads.
pub data TeamStep (n : ℕ) : Team → Team → Type 0 where
  loads : {s : Team} (t : ℕ) → t < n → TeamStep n s (load_counter t s)
  swaps : {s : Team} (t : ℕ) → t < n → TeamStep n s (compare_and_swap t s)
  enters : {s s' : Team} (t : ℕ) → t < n → enter_routine t s ≡ some s' → TeamStep n s s'
  ends : {s s' : Team} (t : ℕ) → t < n → end_thread t s ≡ some s' → TeamStep n s s'

pub data TeamReach (n : ℕ) (s : Team) : Team → Type 0 where
  here : TeamReach n s s
  next : {s' s'' : Team} → TeamReach n s s' → TeamStep n s' s'' → TeamReach n s s''
