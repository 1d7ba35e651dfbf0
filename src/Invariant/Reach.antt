-- ===== src/Invariant/Reach.antt =====
-- Every history of the module: processes open the device, threads call it and run user code.
use linux_fibers.Common.{ℕ, ◌≡◌, ◌≢◌, refl, arith, none, some, [], All, All-mono, update, ℤ}
use linux_fibers.Kernel.{Ptr, PtRegs, Fpu, Thread, Process, FiberArguments, Kernel, Current}
use linux_fibers.Kernel.Store.{ok}
use linux_fibers.Process.{fib_open}
use linux_fibers.Ioctl.{Uaccess, Reply, fib_ioctl}
use linux_fibers.Invariant.{IsValid}
use linux_fibers.Invariant.Safe.{Good-Safe, Safe-ok}
use linux_fibers.Invariant.Calls.{fib_open-Good}
use linux_fibers.Invariant.Ioctl.{fib_ioctl-Safe}
use linux_fibers.Invariant.Keeps.{IsGood-keeps}

-- One step of the system: a process opens the device, which is not open in it yet; a thread makes a
-- system call that returns; a thread runs user code, which changes its own context.
pub data Step (k : Kernel) : Kernel → Type 0 where
  opens :
      {k' : Kernel} {r : ℤ} (c : Current)
      → All (λ (q : Process). q.id ≢ c.tgid) k.processi
      → fib_open c k ≡ ok r k'
      → Step k k'
  calls :
      {k' : Kernel} {r : Reply} (bytes : FiberArguments) (c : Current) (u : Uaccess) (cmd : ℕ)
      (arg : FiberArguments)
      → fib_ioctl bytes c u cmd arg k ≡ ok r k'
      → Step k k'
  computes :
      (pid : ℕ) (r : PtRegs) (f : Fpu)
      → Step k
          (record k { task_regs = update k.task_regs pid r; task_fpu = update k.task_fpu pid f })

pub data Reach (k : Kernel) : Kernel → Type 0 where
  here : Reach k k
  next : {k' k'' : Kernel} → Reach k k' → Step k' k'' → Reach k k''

-- Every step keeps the memory valid.
pub Step-IsValid : {k k' : Kernel} → Step k k' → IsValid k → IsValid k'
Step-IsValid {k} (opens c closed e) v = Safe-ok (Good-Safe (fib_open-Good c k v closed)) e
Step-IsValid {k} (calls bytes c u cmd arg e) v = Safe-ok (fib_ioctl-Safe bytes c u cmd arg k v) e
Step-IsValid {k} (computes pid r f) v = record {
  apart = v.apart;
  good =
      All-mono k.processi (λ q. IsGood-keeps k _ q (λ t s e. (s, e, refl)) (λ p g e. (g, e, refl)))
        v.good;
  running = v.running;
  selected = v.selected;
  unlocked = v.unlocked;
  storage = v.storage;
  null_thread = v.null_thread;
  null_fiber = v.null_fiber;
  positive = v.positive;
  fresh = v.fresh;
}

pub Reach-IsValid : {k k' : Kernel} → Reach k k' → IsValid k → IsValid k'
Reach-IsValid here v = v
Reach-IsValid (next r s) v = Step-IsValid s (Reach-IsValid r v)

-- The module as fib_driver_init leaves it: no process, no fiber and no thread.
abbrev pub boot : (ℕ → PtRegs) → (ℕ → Fpu) → Kernel
boot regs fpu = record {
  processi = [];
  fibers = λ _. none;
  threads = λ _. none;
  next_address = 16;
  task_regs = regs;
  task_fpu = fpu;
}

pub boot-IsValid : (regs : ℕ → PtRegs) (fpu : ℕ → Fpu) → IsValid (boot regs fpu)
boot-IsValid regs fpu = record {
  apart = tt;
  good = tt;
  running = λ t s e. cc;
  selected = λ p f e. cc;
  unlocked = λ p f e. cc;
  storage = λ p f e. cc;
  null_thread = refl;
  null_fiber = refl;
  positive = omega arith;
  fresh = λ q le. (refl, refl);
}

-- In every memory that histories of the module reach from its start (processes that are not open
-- yet open the device, threads make any ioctl call that returns, threads run user code), two
-- different threads never have the same fiber as their runner.
pub exclusive :
    {regs : ℕ → PtRegs} {fpu : ℕ → Fpu} {k : Kernel}
    → Reach (boot regs fpu) k
    → (t u : Ptr) (s s' : Thread) → k.threads t ≡ some s
    → k.threads u ≡ some s'
    → t ≢ u
    → s.runner ≢ s'.runner
exclusive {regs} {fpu} r t u s s' at at' ne same =
    let v = Reach-IsValid r (boot-IsValid regs fpu) in
    let (_, a) = v.running t s at in
    let (_, b) = v.running u s' at' in
    let (f, e, sel) = a in let (g, e', sel') = b in ground (arith, e, e', sel, sel', same, ne)
