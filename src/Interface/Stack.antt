-- ===== src/Interface/Stack.antt =====
-- fib_create through the library: the stack that the new fiber gets.
use native.Mathlib.Nat.{mod-eq_of_lt}
use linux_fibers.Common.{
  ℕ, ◌+◌, ◌-◌, ◌%◌, ◌≡◌, ◌≢◌, ◌<◌, ◌≤◌, refl, inl, inr, Bool-cases, ne→==, ltb, arith, false, some,
  List, [], ◌∷◌, ◌==◌,
}
use linux_fibers.Kernel.{null, Fiber, FiberStuff, Process, FiberArguments, Kernel, Current}
use linux_fibers.Kernel.Store.{ok, fault}
use linux_fibers.Kernel.Caller.{IsProcess}
use linux_fibers.Entries.{n_fib}
use linux_fibers.Fiber.{word, stack_top, entry_regs, fresh_fiber}
use linux_fibers.Fiber.Create.{created, next_id, new_fiber_at, fib_create-room}
use linux_fibers.Ioctl.{fib_ioctl, created_id}
use linux_fibers.Interface.{create_fiber, aligned, stack_size_max}

-- A fiber that is at rest: it starts with `func parameters`, eight bytes below the end of its stack.
pub record StartsAt (func parameters stack size : ℕ) (f : Fiber) : Type 0 where
  pub ip : f.regs.ip ≡ func
  pub di : f.regs.di ≡ parameters
  pub sp : f.regs.sp + 8 ≡ stack + size
  pub bp : f.regs.bp ≡ f.regs.sp
  pub idle : f.selected_thread ≡ null
  pub unlocked : f.lock_fiber ≡ false

aligned-le : (page_size size : ℕ) → size + page_size < word → size ≤ aligned page_size size
unfolding aligned
aligned-le page_size size fits = elim (Bool-cases (size % page_size == 0)) [
  | inl e ↦ rw e (omega arith)
  | inr e ↦ rw e (rw (mod-eq_of_lt small) (omega arith))
]
  where
    small : size + (page_size - size % page_size) < word
    small = omega arith

aligned_pages :
    (size : ℕ) → size ≤ stack_size_max → (ltb stack_size_max (aligned 4096 size)) ≡ false
unfolding aligned
aligned_pages size h = ground arith

module _ (bytes : FiberArguments) (c : Current) (k : Kernel) {before : List Process} {p : Process}
    {after : List Process} {s : FiberStuff} (here : IsProcess c k before p after)
    (ne : k.next_address ≢ null) (stuff : p.listafiber_stuff ≡ s ∷ [])
    (room : s.len_fiber_stuff < n_fib) where
  -- Through the library with pages of 4096 bytes, in an open process whose listing has room: a
  -- stack size of 8 to 8192 bytes, and a block that does not wrap, give a new idle fiber whose
  -- id is returned; it starts at the function with its parameters, with sp and bp 8 bytes below
  -- the end of the stack.
  pub create_fiber-StartsAt :
      (stack func parameters size : ℕ)
      → 8 ≤ size
      → size ≤ stack_size_max
      → stack + stack_size_max ≤ word
      → (f : Fiber) × (create_fiber bytes c 4096 (some stack) func parameters size k
          ≡ ok (next_id p) (created before p after s f k))
        × (f.id ≡ next_id p)
        × StartsAt func parameters stack size f
  unfolding create_fiber fib_ioctl created_id stack_top entry_regs fresh_fiber
  create_fiber-StartsAt stack func parameters size low high fits = (
    new_fiber_at c k func parameters stack size p,
    rw
        (
          ne→== size 0 (omega arith),
          aligned_pages size high,
          fib_create-room c k here ne stuff func parameters stack size room,
        )
        (ground (arith, ne)),
    refl,
    ground arith,
  )

-- A stack size of more than 8192 bytes, without wrap, makes the library's fib_create clear more
-- than the block of 8192 bytes that it allocated: a fault, whatever the page size.
pub create_fiber-overflow :
    (bytes : FiberArguments) (c : Current) (k : Kernel) (page_size stack func parameters size : ℕ)
    → stack_size_max < size
    → size + page_size < word
    → create_fiber bytes c page_size (some stack) func parameters size k ≡ fault
unfolding create_fiber
create_fiber-overflow bytes c k page_size stack func parameters size big fits =
    ground (arith, aligned-le page_size size)
