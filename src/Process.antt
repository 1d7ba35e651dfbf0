-- ===== src/Process.antt =====
-- Opening and closing the device: fib_open and fib_release of SviluppoHashTable/Module/Fiber.c.
pub mod Laws
use linux_fibers.Common.{ℕ, ◌==◌, if◌then◌else◌, ℤ, pos, List, [], ◌∷◌}
use linux_fibers.Kernel.{Ptr, null, PidEntry, FiberStuff, Process, Kernel, Current}
use linux_fibers.Kernel.Store.{
  M, pure, ◌>>=◌, ◌>>◌, get, modify, load_thread, free_fiber, free_thread,
}
use linux_fibers.Kernel.Loops.{for_process}

-- What `kzalloc` leaves in the array.
pub zero_entry : PidEntry
zero_entry = record { name = []; len = 0; mode = 0; iop = null; fop = null }

unfoldable pub empty_stuff : FiberStuff
unfolding zero_entry
empty_stuff = record { fiber_base_stuff = λ _. zero_entry; len_fiber_stuff = 0 }

unfoldable pub new_process : ℕ → Process
unfolding empty_stuff
new_process tgid = record {
  listathread = [];
  listafiber = [];
  listafiber_stuff = empty_stuff ∷ [];
  last_fib_id = 0;
  id = tgid;
}

unfoldable pub fib_open : Current → M ℤ
unfolding new_process
fib_open c = do modify λ k. record k { processi = new_process c.tgid ∷ k.processi }; pure (pos 0)

-- The loops that free what a process owns. The arrays of a fiber go with it.
pub free_threads : List Ptr → M (Unit {0})
unfolding free_thread
free_threads [] = pure tt
free_threads (t ∷ ts) = do free_thread t; free_threads ts

pub free_fibers : List Ptr → M (Unit {0})
unfolding free_fiber
free_fibers [] = pure tt
free_fibers (f ∷ fs) = do free_fiber f; free_fibers fs

-- The loop of fib_release, over the whole table; it gives the table that is left.
pub release_all : ℕ → List Process → M (List Process)
unfolding free_threads free_fibers
release_all tgid [] = pure []
release_all tgid (p ∷ ps) = do
  if p.id == tgid then (do free_threads p.listathread; free_fibers p.listafiber) else pure tt
  rest ← release_all tgid ps
  pure (if p.id == tgid then rest else p ∷ rest)

unfoldable pub fib_release : Current → M ℤ
unfolding release_all
fib_release c = do
  ps ← get λ k. k.processi
  ps ← release_all c.tgid ps
  modify λ k. record k { processi = ps }
  pure (pos 0)
