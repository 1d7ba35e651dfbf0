-- ===== src/Fiber/Create.antt =====
-- fib_convert and fib_create: what they do on each branch.
use linux_fibers.Common.{
  ℕ, suc, ◌+◌, ◌%◌, ◌^◌, ◌<◌, ◌≤◌, ◌-◌, length, ◌≡◌, ◌≢◌, refl, sym, ap, ◌∙◌, arith, true, false,
  Option, none, some, ℤ, pos, minus_one, update, List, [], ◌∷◌, ◌++◌, All,
}
use linux_fibers.Kernel.{Ptr, null, PidEntry, Fiber, FiberStuff, Thread, Process, Kernel, Current}
use linux_fibers.Kernel.Store.{ok, fault, pure}
use linux_fibers.Kernel.Caller.{
  Place, IsCaller, IsProcess, for_process-one, for_process-fault, each_thread-caller,
  IsCaller-IsProcess, set_processi_same,
}
use linux_fibers.Kernel.Rounds.{OtherThread, each_thread-others}
use linux_fibers.Entries.{n_fib, fops_proc, decimal, fiber_name, log_entry}
use linux_fibers.Fiber.{
  stack_top, entry_regs, fresh_fiber, convert_in, create_in, fib_convert, fib_create,
}

-- The entry of a fiber: a regular file that all may read, named "f" and the digits of the id.
abbrev pub fiber_entry : ℕ → PidEntry
fiber_entry id = record {
  name = b'f' ∷ decimal 10 id [];
  len = length (b'f' ∷ decimal 10 id []);
  mode = 0o100444;
  iop = null;
  fop = fops_proc;
}

-- The directory listing with one more entry.
abbrev pub listed : ℕ → FiberStuff → FiberStuff
listed id s = record {
  fiber_base_stuff = update s.fiber_base_stuff s.len_fiber_stuff (fiber_entry id);
  len_fiber_stuff = s.len_fiber_stuff + 1;
}

abbrev pub next_id : Process → ℕ
next_id p = (p.last_fib_id + 1) % 2 ^ 32

-- The process with one more fiber, at `f`.
abbrev pub with_fiber : Ptr → FiberStuff → Process → Process
with_fiber f s p = record p {
  listafiber = f ∷ p.listafiber;
  last_fib_id = next_id p;
  listafiber_stuff = listed (next_id p) s ∷ [];
}

-- The memory after a fiber is created in the process `p`.
abbrev pub created : List Process → Process → List Process → FiberStuff → Fiber → Kernel → Kernel
created before p after s f k = record k {
  processi = before ++ with_fiber k.next_address s p ∷ after;
  fibers = update k.fibers k.next_address (some f);
  next_address = suc k.next_address;
}

-- What fib_create makes, field by field: an idle fiber that has run no time, with the registers of
-- its creator but for `func` as ip, `parameters` as di, and sp and bp 8 bytes below the end of the
-- stack, round the word; its local storage is empty.
abbrev pub new_fiber_at :
    Current → Kernel → (func parameters stack_pointer stack_size : ℕ) → Process → Fiber
new_fiber_at c k func parameters stack_pointer stack_size p = record {
  regs = record {
    ip = func;
    sp = (stack_pointer + stack_size + (2 ^ 64 - 8)) % 2 ^ 64;
    bp = (stack_pointer + stack_size + (2 ^ 64 - 8)) % 2 ^ 64;
    di = parameters;
    others = (k.task_regs c.pid).others;
  };
  fpu = k.task_fpu c.pid;
  entry_point = func;
  selected_thread = null;
  lock_fiber = false;
  fls = some (λ _. pos 0);
  bitmap_fls = some (λ _. 0);
  exec_time = 0;
  last_activation_time = 0;
  correct_counter = 0;
  creator = c.pid;
  id = next_id p;
  failed_counter = 0;
}

-- What fib_convert makes of a thread, field by field: a fiber that goes on where the thread is, and
-- runs on it since now, for the first time.
abbrev pub converted_fiber : Current → Kernel → Process → Fiber
converted_fiber c k p = record {
  regs = k.task_regs c.pid;
  fpu = k.task_fpu c.pid;
  entry_point = (k.task_regs c.pid).ip;
  selected_thread = k.next_address;
  lock_fiber = false;
  fls = some (λ _. pos 0);
  bitmap_fls = some (λ _. 0);
  exec_time = 0;
  last_activation_time = c.tv_nsec;
  correct_counter = 1;
  creator = c.pid;
  id = next_id p;
  failed_counter = 0;
}

module _ (c : Current) (k : Kernel) {before : List Process} {p : Process} {after : List Process}
    {s : FiberStuff} (here : IsProcess c k before p after) (ne : k.next_address ≢ null)
    (stuff : p.listafiber_stuff ≡ s ∷ []) where
  create_in-room :
      (func parameters stack_pointer stack_size : ℕ) (ret : Option Ptr)
      → s.len_fiber_stuff < n_fib
      → create_in c func parameters stack_pointer stack_size p ret k
        ≡ ok
            (some k.next_address, with_fiber k.next_address s p)
            (record k {
              fibers =
                  update k.fibers k.next_address
                    (some (new_fiber_at c k func parameters stack_pointer stack_size p));
              next_address = suc k.next_address;
            })
  unfolding create_in entry_regs stack_top fresh_fiber log_entry fiber_name
  create_in-room func parameters stack_pointer stack_size ret room = ground (arith, here, ne, stuff)

  create_in-full :
      (func parameters stack_pointer stack_size : ℕ) (ret : Option Ptr)
      → n_fib ≤ s.len_fiber_stuff
      → create_in c func parameters stack_pointer stack_size p ret k ≡ fault
  unfolding create_in entry_regs stack_top fresh_fiber log_entry fiber_name
  create_in-full func parameters stack_pointer stack_size ret full = ground (arith, here, ne, stuff)

  -- In an open process whose listing has room, fib_create returns the address of a new idle
  -- fiber that is added to the process's fibers and, named after its id, at the end of its
  -- listing. The fiber has the next id of the process, its creator's pid and registers, but for
  -- the function as ip and entry point, the parameters as di, and sp and bp 8 bytes below the
  -- end of the stack, round the word; its storage is empty and its counters are 0. Nothing else
  -- changes.
  pub fib_create-room :
      (func parameters stack_pointer stack_size : ℕ)
      → s.len_fiber_stuff < n_fib
      → fib_create c func parameters stack_pointer stack_size k
        ≡ ok (some k.next_address) (record k {
          processi = before ++ with_fiber k.next_address s p ∷ after;
          fibers =
              update k.fibers k.next_address
                (some (new_fiber_at c k func parameters stack_pointer stack_size p));
          next_address = suc k.next_address;
        })
  unfolding fib_create
  fib_create-room func parameters stack_pointer stack_size room =
      for_process-one here _ none _ _ _
        (create_in-room func parameters stack_pointer stack_size none room)

  -- With 1000 entries or more in the listing of an open process, fib_create is a fault: it
  -- writes past the end of the array.
  pub fib_create-full :
      (func parameters stack_pointer stack_size : ℕ)
      → n_fib ≤ s.len_fiber_stuff
      → fib_create c func parameters stack_pointer stack_size k ≡ fault
  unfolding fib_create
  fib_create-full func parameters stack_pointer stack_size full =
      for_process-fault here _ none
        (create_in-full func parameters stack_pointer stack_size none full)

  module _ (new_thread : All (OtherThread c.pid k.next_address k) p.listathread) where
    convert_in-new :
        (ret : ℤ)
        → s.len_fiber_stuff < n_fib
        → convert_in c p ret k
          ≡ ok
              (
                pos (next_id p),
                record (with_fiber (suc k.next_address) s p) {
                  listathread = k.next_address ∷ p.listathread;
                },
              )
              (record k {
                threads =
                    update k.threads k.next_address
                      (some (record { runner = suc k.next_address; id = c.pid }));
                fibers = update k.fibers (suc k.next_address) (some (converted_fiber c k p));
                next_address = suc (suc k.next_address);
              })
    unfolding convert_in entry_regs fresh_fiber log_entry fiber_name
    convert_in-new ret room = ground (
      arith,
      here,
      ne,
      stuff,
      each_thread-others c.pid k.next_address (λ _ _. pure true) p.listathread false k new_thread,
    )

    convert_in-full : (ret : ℤ) → n_fib ≤ s.len_fiber_stuff → convert_in c p ret k ≡ fault
    unfolding convert_in entry_regs fresh_fiber log_entry fiber_name
    convert_in-full ret full = ground (
      arith,
      here,
      ne,
      stuff,
      each_thread-others c.pid k.next_address (λ _ _. pure true) p.listathread false k new_thread,
    )

    pub fib_convert-full : n_fib ≤ s.len_fiber_stuff → fib_convert c k ≡ fault
    unfolding fib_convert
    fib_convert-full full =
        for_process-fault here (convert_in c) minus_one (convert_in-full minus_one full)

    -- In an open process whose listing has room, fib_convert on a thread that is none of the
    -- process's returns the process's next id, and has exactly this effect: the thread
    -- becomes one of the process's, with a new fiber at the end of the listing that has the
    -- thread's own registers, goes on at its ip, runs on it since now, counts one activation,
    -- and has empty storage and no time or failures.
    pub fib_convert-new :
        s.len_fiber_stuff < n_fib
        → fib_convert c k
          ≡ ok (pos (next_id p)) (record k {
            processi =
                before
                ++ record (with_fiber (suc k.next_address) s p) {
                  listathread = k.next_address ∷ p.listathread;
                }
                  ∷ after;
            threads =
                update k.threads k.next_address
                  (some (record { runner = suc k.next_address; id = c.pid }));
            fibers = update k.fibers (suc k.next_address) (some (converted_fiber c k p));
            next_address = suc (suc k.next_address);
          })
    unfolding fib_convert
    fib_convert-new room =
        for_process-one here (convert_in c) minus_one _ _ _ (convert_in-new minus_one room)

module _ {c : Current} {k : Kernel} {w : Place} {thread : Thread}
    (caller : IsCaller c k w thread) where
  -- fib_convert on a thread that is one of its process returns -1 and changes nothing.
  pub fib_convert-again : fib_convert c k ≡ ok minus_one k
  unfolding fib_convert convert_in
  fib_convert-again =
      for_process-one (IsCaller-IsProcess caller) (convert_in c) minus_one minus_one w.p k
        (rw (each_thread-caller caller (λ _ _. pure true) false true k refl caller.right))
      ∙ ap (ok minus_one) (set_processi_same k _ (sym caller.table))
