-- ===== src/Kernel.antt =====
-- The data of SviluppoHashTable/Module/Strutture.h and the kernel memory that holds it.
-- A structure that others point to (a fiber, a thread) has an address; a process is reached
-- through the table `processi` alone, and stands in it. `regs`, `fpu`, `fls` and `bitmap_fls` are
-- arrays that one fiber owns, so they stand in the fiber. A machine word is a natural number.
pub mod Store
pub mod Loops
pub mod Rounds
pub mod Caller
pub mod Target
use linux_fibers.Common.{ℕ, ◌≡◌, ◌≢◌, Bool, Option, List, ℤ}

abbrev pub Ptr : Type 0
Ptr = ℕ

abbrev pub null : Ptr
null = 0

-- The fields of `struct pt_regs` that the module names; the others are one value.
pub record PtRegs : Type 0 where
  pub ip : ℕ
  pub sp : ℕ
  pub bp : ℕ
  pub di : ℕ
  pub others : ℕ

-- The image that `fxsave` writes, as one number.
abbrev pub Fpu : Type 0
Fpu = ℕ

abbrev pub fls_size : ℕ
fls_size = 128

pub record Fiber : Type 0 where
  pub regs : PtRegs
  pub fpu : Fpu
  pub entry_point : ℕ
  pub selected_thread : Ptr
  pub lock_fiber : Bool
  pub fls : Option (ℕ → ℤ)
  pub bitmap_fls : Option (ℕ → ℕ)
  pub exec_time : ℕ
  pub last_activation_time : ℕ
  pub correct_counter : ℕ
  pub creator : ℕ
  pub id : ℕ
  pub failed_counter : ℕ

-- The inode and file operations are addresses.
pub record PidEntry : Type 0 where
  pub name : List ℕ
  pub len : ℕ
  pub mode : ℕ
  pub iop : Ptr
  pub fop : Ptr

-- The array has room for `n_fib` entries.
pub record FiberStuff : Type 0 where
  pub fiber_base_stuff : ℕ → PidEntry
  pub len_fiber_stuff : ℕ

pub record Thread : Type 0 where
  pub runner : Ptr
  pub id : ℕ

-- The head of a list is the node that was added last.
pub record Process : Type 0 where
  pub listathread : List Ptr
  pub listafiber : List Ptr
  pub listafiber_stuff : List FiberStuff
  pub last_fib_id : ℕ
  pub id : ℕ

pub record FiberArguments : Type 0 where
  pub stack_pointer : ℕ
  pub start_function_address : ℕ
  pub start_function_parameters : ℕ
  pub fls_value : ℤ
  pub fls_index : ℤ
  pub stack_size : ℕ
  pub buffer : ℕ
  pub alloc_size : ℕ
  pub fiber_id : ℕ

-- The memory: what stands at an address, the next address that `kzalloc` returns, and the user
-- context of each thread, by its pid.
pub record Kernel : Type 0 where
  pub processi : List Process
  pub fibers : Ptr → Option Fiber
  pub threads : Ptr → Option Thread
  pub next_address : Ptr
  pub task_regs : ℕ → PtRegs
  pub task_fpu : ℕ → Fpu

-- The thread that makes the call, and what `getnstimeofday` gives it.
pub record Current : Type 0 where
  pub tgid : ℕ
  pub pid : ℕ
  pub tv_nsec : ℕ
