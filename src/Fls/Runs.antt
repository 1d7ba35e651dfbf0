-- ===== src/Fls/Runs.antt =====
-- A thread that runs a fiber with its storage in place, and stays so.
use linux_fibers.Common.{ℕ, ◌≡◌, ◌≢◌, refl, arith, false, some, ℤ}
use linux_fibers.Kernel.{Ptr, null, Fiber, Thread, Kernel, Current}
use linux_fibers.Kernel.Store.{put_fiber}
use linux_fibers.Kernel.Caller.{Place, IsCaller}
use linux_fibers.Kernel.Rounds.{OtherThread-put_fiber}

-- The thread runs the fiber `f` at `p`, which is unlocked and has both arrays.
pub record RunsFiber (k : Kernel) (thread : Thread) (p : Ptr) (f : Fiber) (values : ℕ → ℤ)
    (bits : ℕ → ℕ) : Type 0 where
  pub runner : thread.runner ≡ p
  pub ne_null : p ≢ null
  pub stored : k.fibers p ≡ some f
  pub unlocked : f.lock_fiber ≡ false
  pub values_eq : f.fls ≡ some values
  pub bits_eq : f.bitmap_fls ≡ some bits

-- The memory with other storage in the fiber at `p`.
abbrev pub with_storage : Ptr → Fiber → (ℕ → ℤ) → (ℕ → ℕ) → Kernel → Kernel
with_storage p f values bits =
    put_fiber p (some (record f { fls = some values; bitmap_fls = some bits }))

module _ {c : Current} {k : Kernel} {w : Place} {thread : Thread} {p : Ptr} {f : Fiber}
    {values : ℕ → ℤ} {bits : ℕ → ℕ} (caller : IsCaller c k w thread)
    (runs : RunsFiber k thread p f values bits) where
  -- After a call the thread still stands in its place and runs its fiber.
  pub kept : (g : Fiber) → IsCaller c (put_fiber p (some g) k) w thread
  kept g = record {
    table = caller.table;
    tgid = caller.tgid;
    before = caller.before;
    after = caller.after;
    listed = caller.listed;
    ne_null = caller.ne_null;
    stored = caller.stored;
    pid = caller.pid;
    left = OtherThread-put_fiber c.pid w.t k p (some g) w.left caller.left;
    right = OtherThread-put_fiber c.pid w.t k p (some g) w.right caller.right;
  }

  pub still_runs :
      (values' : ℕ → ℤ) (bits' : ℕ → ℕ)
      → RunsFiber
          (with_storage p f values' bits' k)
          thread
          p
          (record f { fls = some values'; bitmap_fls = some bits' })
          values'
          bits'
  still_runs values' bits' = record {
    runner = runs.runner;
    ne_null = runs.ne_null;
    stored = ground arith;
    unlocked = runs.unlocked;
    values_eq = refl;
    bits_eq = refl;
  }

  pub same_storage : with_storage p f values bits k ≡ k
  same_storage = ground (arith, runs)
