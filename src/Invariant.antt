-- ===== src/Invariant.antt =====
-- What holds of the module's memory between two system calls.
pub mod Lists
pub mod Find
pub mod Keeps
pub mod Switch
pub mod Create
pub mod Convert
pub mod Safe
pub mod Calls
pub mod Storage
pub mod Ioctl
pub mod Reach
use linux_fibers.Common.{ℕ, ◌≡◌, ◌≢◌, ◌≤◌, false, Option, none, some, List, [], ◌∷◌, All, ℤ}
use linux_fibers.Kernel.{Ptr, null, Fiber, FiberStuff, Thread, Process, Kernel}
use linux_fibers.Entries.{n_fib}
use Lists.{Listed}

abbrev pub thread_id : Thread → ℕ
thread_id t = t.id

abbrev pub fiber_id : Fiber → ℕ
fiber_id f = f.id

-- The threads and the fibers of a process are live and have distinct ids; its fibers are numbered
-- up to the last id given out, and each has its entry in the listing.
pub record IsGood (k : Kernel) (p : Process) : Type 0 where
  pub threads : Listed k.threads thread_id p.listathread
  pub fibers : Listed k.fibers fiber_id p.listafiber
  pub numbered :
      All (λ (f : Ptr). (g : Fiber) → k.fibers f ≡ some g → g.id ≤ p.last_fib_id) p.listafiber
  pub stuff : FiberStuff
  pub one : p.listafiber_stuff ≡ stuff ∷ []
  pub counted : stuff.len_fiber_stuff ≡ p.last_fib_id
  pub room : p.last_fib_id ≤ n_fib

abbrev pub Apart : List Process → Type 0
Apart [] = Unit
Apart (p ∷ ps) = All (λ (q : Process). q.id ≢ p.id) ps × Apart ps

-- Each thread runs one live fiber, which has it selected; a fiber that has a thread selected is run
-- by it. No lock is held.
pub record IsValid (k : Kernel) : Type 0 where
  pub apart : Apart k.processi
  pub good : All (IsGood k) k.processi
  pub running :
      (t : Ptr) (s : Thread)
      → k.threads t ≡ some s
      → (s.runner ≢ null) × ((f : Fiber) × (k.fibers s.runner ≡ some f) × (f.selected_thread ≡ t))
  pub selected :
      (p : Ptr) (f : Fiber)
      → k.fibers p ≡ some f
      → f.selected_thread ≢ null
      → (s : Thread) × (k.threads f.selected_thread ≡ some s) × (s.runner ≡ p)
  pub unlocked : (p : Ptr) (f : Fiber) → k.fibers p ≡ some f → f.lock_fiber ≡ false
  pub storage :
      (p : Ptr) (f : Fiber)
      → k.fibers p ≡ some f
      → (v : ℕ → ℤ) × (b : ℕ → ℕ) × (f.fls ≡ some v) × (f.bitmap_fls ≡ some b)
  pub null_thread : k.threads null ≡ none
  pub null_fiber : k.fibers null ≡ none
  pub positive : k.next_address ≢ null
  pub fresh : (p : Ptr) → k.next_address ≤ p → (k.fibers p ≡ none) × (k.threads p ≡ none)
