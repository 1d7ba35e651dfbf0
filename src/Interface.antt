-- ===== src/Interface.antt =====
-- The user-space library: SviluppoHashTable/Fiber_library/Fiber_interface.c. The device is the system call on
-- the kernel memory; fiber_init has opened it.
pub mod Stack
pub mod EndToEnd
use linux_fibers.Common.{
  ℕ, suc, ◌+◌, ◌-◌, ◌%◌, ◌^◌, ◌*◌, ◌==◌, if◌then◌else◌, ltb, Bool, true, false, Option, none, some,
  ℤ, pos, negsuc, minus_one,
}
use linux_fibers.Kernel.{FiberArguments, Current}
use linux_fibers.Kernel.Store.{M, pure, crash, ◌>>=◌, ◌>>◌}
use linux_fibers.Fiber.{word, int_word}
use linux_fibers.Ioctl.{
  Uaccess, fib_ioctl, fib_fls_alloc_cmd, fib_fls_get_cmd, fib_fls_set_cmd, fib_fls_dealloc_cmd,
  fib_convert_cmd, fib_create_cmd, fib_switch_to_cmd,
}

-- `STACK_SIZE`
abbrev pub stack_size_max : ℕ
stack_size_max = 4096 * 2

-- `struct fiber_arguments param = { … }`: the fields that are not named are zero.
abbrev pub zero_arguments : FiberArguments
zero_arguments = record {
  stack_pointer = 0;
  start_function_address = 0;
  start_function_parameters = 0;
  fls_value = pos 0;
  fls_index = pos 0;
  stack_size = 0;
  buffer = 0;
  alloc_size = 0;
  fiber_id = 0;
}

-- The address of `param` on the stack is one that the kernel can read and write.
abbrev pub readable : Uaccess
readable = record { access_ok = true; copy_from_user = true; copy_to_user = true }

-- What the C library makes of the kernel's value: an error is -1, with the code in `errno`.
abbrev pub syscall_result : ℤ → ℤ
syscall_result (pos n) = pos n
syscall_result (negsuc n) = minus_one

-- A C `bool` of a returned value.
abbrev pub as_bool : ℤ → Bool
as_bool (pos n) = if n == 0 then false else true
as_bool (negsuc n) = true

-- `(pid_t)` of a returned value, as a bit pattern.
abbrev pub as_pid : ℤ → ℕ
as_pid (pos n) = n % int_word
as_pid (negsuc n) = (int_word - 1 - n % int_word) % int_word

-- `-1` as a `pid_t`.
abbrev pub no_pid : ℕ
no_pid = int_word - 1

-- `stack_size += getpagesize() - reminder` if there is one.
unfoldable pub aligned : (page_size stack_size : ℕ) → ℕ
aligned page_size stack_size =
    if stack_size % page_size == 0
    then stack_size
    else (stack_size + (page_size - stack_size % page_size)) % word

module _ (bytes : FiberArguments) (c : Current) where
  -- The system call: its result, and `param` after it.
  pub ioctl : ℕ → FiberArguments → M (ℤ × FiberArguments)
  ioctl cmd param = do
    (ret, param) ← fib_ioctl bytes c readable cmd param
    pure (syscall_result ret, param)

  unfoldable pub fib_fls_alloc : M ℤ
  unfolding ioctl
  fib_fls_alloc = do
    (_, param) ← ioctl fib_fls_alloc_cmd (record zero_arguments { fls_index = minus_one })
    pure param.fls_index

  unfoldable pub fib_fls_dealloc : ℤ → M Bool
  unfolding ioctl
  fib_fls_dealloc index = do
    (ret, _) ← ioctl fib_fls_dealloc_cmd (record zero_arguments { fls_index = index })
    pure (as_bool ret)

  unfoldable pub fib_fls_set : ℤ → ℤ → M (Unit {0})
  unfolding ioctl
  fib_fls_set at val = do
    _ ← ioctl fib_fls_set_cmd (record zero_arguments { fls_index = at; fls_value = val })
    pure tt

  unfoldable pub fib_fls_get : ℤ → M ℤ
  unfolding ioctl
  fib_fls_get at = do
    (_, param) ←
        ioctl fib_fls_get_cmd (record zero_arguments { fls_index = at; fls_value = minus_one })
    pure param.fls_value

  unfoldable pub convert_thread : M ℕ
  unfolding ioctl
  convert_thread = do (ret, _) ← ioctl fib_convert_cmd zero_arguments; pure (as_pid ret)

  -- `memalign` is the block that posix_memalign returns, of `STACK_SIZE` bytes, or `none` if it
  -- fails. Clearing more than the block is a fault.
  unfoldable pub create_fiber :
      (page_size : ℕ) (memalign : Option ℕ) (func parameters stack_size : ℕ) → M ℕ
  unfolding ioctl aligned
  create_fiber page_size memalign func parameters stack_size =
      if stack_size == 0 then pure no_pid else elim memalign [
        | none ↦ pure no_pid
        | some stack ↦ if ltb stack_size_max (aligned page_size stack_size) then crash else (do
          (_, param) ← ioctl fib_create_cmd (record zero_arguments {
            fiber_id = no_pid;
            start_function_address = func;
            stack_size = stack_size;
            start_function_parameters = parameters;
            stack_pointer = stack;
          })
          pure param.fiber_id)
      ]

  unfoldable pub switch_to_fiber : ℕ → M ℤ
  unfolding ioctl
  switch_to_fiber id = do
    (ret, _) ← ioctl fib_switch_to_cmd (record zero_arguments { fiber_id = id })
    pure ret
