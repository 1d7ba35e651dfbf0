-- ===== src/Fiber.antt =====
-- The life of a fiber: do_thread_create, do_fib_create, fib_convert, fib_create and fib_switch_to
-- of SviluppoHashTable/Module/Fiber.c.
pub mod Switch
pub mod Create
use linux_fibers.Common.{
  ℕ, zero, suc, ◌+◌, ◌-◌, ◌/◌, ◌%◌, ◌^◌, ◌==◌, if◌then◌else◌, ltb, Bool, true, false, Option, none,
  some, List, [], ◌∷◌, length, ℤ, pos, minus_one, update,
}
use linux_fibers.Kernel.{Ptr, null, PtRegs, PidEntry, Fiber, FiberStuff, Process, Current}
use linux_fibers.Kernel.Store.{
  M, pure, crash, ◌>>=◌, ◌>>◌, get, modify, load_fiber, load_thread, write_fiber, write_thread,
  new_fiber, new_thread, spin_lock, spin_unlock,
}
use linux_fibers.Entries.{add_entry, log_entry}
use linux_fibers.Kernel.Loops.{for_process, each_thread, each_fiber}

abbrev pub word : ℕ
word = 2 ^ 64

-- A 32-bit `int` or `pid_t`, as its bit pattern.
abbrev pub int_word : ℕ
int_word = 2 ^ 32

-- An `int` that is widened to 64 bits.
abbrev pub sign_extend : ℕ → ℕ
sign_extend n = if ltb n (2 ^ 31) then n else n + (2 ^ 64 - 2 ^ 32)

pub do_thread_create : Process → ℕ → M (Ptr × Process)
unfolding new_thread
do_thread_create p id = do
  t ← new_thread (record { runner = null; id = id })
  pure (t, record p { listathread = t ∷ p.listathread })

-- `stack_pointer + stack_size - 8` on unsigned longs.
unfoldable pub stack_top : ℕ → ℕ → ℕ
stack_top stack_pointer stack_size = (stack_pointer + stack_size + (word - 8)) % word

-- What `flag` decides: the new fiber enters `func`, or goes on where the thread is.
unfoldable pub entry_regs : PtRegs → Bool → (func parameters stack_pointer stack_size : ℕ) → PtRegs
unfolding stack_top
entry_regs r flag func parameters stack_pointer stack_size =
    if flag
    then record r {
      ip = func;
      sp = stack_top stack_pointer stack_size;
      bp = stack_top stack_pointer stack_size;
      di = parameters;
    }
    else r

unfoldable pub fresh_fiber : PtRegs → ℕ → (func creator id : ℕ) → Fiber
fresh_fiber r fpu func creator id = record {
  regs = r;
  fpu = fpu;
  entry_point = func;
  selected_thread = null;
  lock_fiber = false;
  fls = some (λ _. pos 0);
  bitmap_fls = some (λ _. 0);
  exec_time = 0;
  last_activation_time = 0;
  correct_counter = 0;
  creator = creator;
  id = id;
  failed_counter = 0;
}

pub do_fib_create :
    Current → (func parameters stack_pointer stack_size : ℕ) → Process → Bool → M (Ptr × Process)
unfolding new_fiber entry_regs fresh_fiber add_entry log_entry
do_fib_create c func parameters stack_pointer stack_size p flag = do
  regs ← get λ k. k.task_regs c.pid
  fpu ← get λ k. k.task_fpu c.pid
  let id = (p.last_fib_id + 1) % int_word
  f ← new_fiber (
      fresh_fiber (entry_regs regs flag func parameters stack_pointer stack_size) fpu func c.pid id)
  stuff ← add_entry (log_entry id) p.listafiber_stuff
  pure (f, record p { last_fib_id = id; listafiber_stuff = stuff })

-- `hash_add_rcu(listafiber, node, id)`
abbrev pub add_fiber : Ptr → Process → Process
add_fiber f p = record p { listafiber = f ∷ p.listafiber }

-- The first loop of fib_convert: is the thread one of the process already?
pub is_thread : Current → Process → M Bool
unfolding each_thread
is_thread c p = each_thread c.pid (λ _ _. pure true) p.listathread false

pub convert_in : Current → Process → ℤ → M (ℤ × Process)
unfolding is_thread do_thread_create do_fib_create write_fiber write_thread load_fiber
convert_in c p ret = do
  already ← is_thread c p
  if already then pure (ret, p) else do
    regs ← get λ k. k.task_regs c.pid
    (t, p) ← do_thread_create p c.pid
    (f, p) ← do_fib_create c regs.ip 0 0 (word - 1) p false
    write_fiber f λ fiber. record fiber {
      last_activation_time = c.tv_nsec;
      correct_counter = 1;
      selected_thread = t;
    }
    fiber ← load_fiber f
    write_thread t λ thread. record thread { runner = f }
    pure (pos fiber.id, add_fiber f p)

unfoldable pub fib_convert : Current → M ℤ
unfolding for_process convert_in
fib_convert c = for_process c.tgid (convert_in c) minus_one

pub create_in :
    Current
    → (func parameters stack_pointer stack_size : ℕ) → Process
    → Option Ptr
    → M (Option Ptr × Process)
unfolding do_fib_create write_fiber
create_in c func parameters stack_pointer stack_size p ret = do
  (f, p) ← do_fib_create c func parameters stack_pointer stack_size p true
  write_fiber f λ fiber. record fiber { selected_thread = null }
  pure (some f, add_fiber f p)

-- `none` is the pointer that no loop has set.
unfoldable pub fib_create :
    Current → (func parameters stack_pointer stack_size : ℕ) → M (Option Ptr)
unfolding for_process create_in
fib_create c func parameters stack_pointer stack_size =
    for_process c.tgid (create_in c func parameters stack_pointer stack_size) none

-- `exec_time += new->last_activation_time - old->last_activation_time` on unsigned longs.
pub charge : (exec_time since now : ℕ) → ℕ
charge exec_time since now = (exec_time + (now + word - since)) % word

-- The branch that switches: from `old` to `new`, on the thread `t`.
pub change_fiber : Current → (t old new : Ptr) → M (Unit {0})
unfolding load_fiber write_fiber write_thread charge
change_fiber c t old new = do
  regs ← get λ k. k.task_regs c.pid
  fpu ← get λ k. k.task_fpu c.pid
  write_fiber old λ f. record f { regs = regs; fpu = fpu; selected_thread = null }
  to ← load_fiber new
  modify λ k. record k {
    task_regs = update k.task_regs c.pid to.regs;
    task_fpu = update k.task_fpu c.pid to.fpu;
  }
  write_fiber new λ f. record f { selected_thread = t }
  write_thread t λ thread. record thread { runner = new }
  write_fiber new λ f. record f {
    correct_counter = (f.correct_counter + 1) % word;
    last_activation_time = c.tv_nsec;
  }
  to ← load_fiber new
  write_fiber old λ f. record f {
    exec_time = charge f.exec_time f.last_activation_time to.last_activation_time;
  }

abbrev pub count_failure : Ptr → M (Unit {0})
count_failure p = write_fiber p λ f. record f { failed_counter = (f.failed_counter + 1) % int_word }

-- One fiber of the wanted id.
pub switch_on : Current → (t old new : Ptr) → ℤ → M ℤ
unfolding spin_lock spin_unlock load_fiber write_fiber change_fiber
switch_on c t old new ret = do
  spin_lock new
  to ← load_fiber new
  ret ←
      if to.selected_thread == null
      then (do change_fiber c t old new; pure (pos 0))
      else (do count_failure old; pure minus_one)
  spin_unlock new
  pure ret

-- One thread of the caller.
pub switch_from : Current → ℕ → Process → Ptr → ℤ → M ℤ
unfolding load_thread load_fiber spin_lock spin_unlock write_fiber each_fiber switch_on
switch_from c id p t ret = do
  thread ← load_thread t
  let old = thread.runner
  if old == null then pure ret else do
    spin_lock old
    from ← load_fiber old
    ret ←
        if from.id == id
        then (do count_failure old; pure minus_one)
        else each_fiber id (switch_on c t old) p.listafiber ret
    spin_unlock old
    pure ret

-- `synchronize_rcu` in the loop over the threads is left out: the model has no readers to wait for.
unfoldable pub fib_switch_to : Current → ℕ → M ℤ
unfolding for_process each_thread switch_from
fib_switch_to c id =
    for_process c.tgid
      (λ p ret. do ret ← each_thread c.pid (switch_from c id p) p.listathread ret; pure (ret, p))
      minus_one
