-- ===== src/Ioctl.antt =====
-- fib_ioctl of SviluppoHashTable/Module/Fiber.c, with the command numbers of Strutture.h.
pub mod Dispatch
use linux_fibers.Common.{
  ℕ, ◌+◌, ◌*◌, ◌^◌, ◌==◌, if◌then◌else◌, Bool, true, false, Option, none, some, ℤ, pos, negsuc,
}
use linux_fibers.Kernel.{Ptr, FiberArguments, Current}
use linux_fibers.Kernel.Store.{M, pure, crash, ◌>>=◌, ◌>>◌, load_fiber}
use linux_fibers.Fls.{fls_alloc, fls_free, fls_get_value, fls_set_value}
use linux_fibers.Fiber.{fib_convert, fib_create, fib_switch_to}

-- `_IOC(dir, 'f', nr, size)`: two bits of direction, 14 of size, 8 of type, 8 of number.
abbrev ioc : (dir nr size : ℕ) → ℕ
ioc dir nr size = dir * 2 ^ 30 + size * 2 ^ 16 + b'f' * 2 ^ 8 + nr

-- The size is that of a pointer, as the macros are given `struct fiber_arguments*`.
abbrev pub fib_fls_alloc_cmd : ℕ
fib_fls_alloc_cmd = ioc 2 10 8

abbrev pub fib_fls_get_cmd : ℕ
fib_fls_get_cmd = ioc 3 2 8

abbrev pub fib_fls_set_cmd : ℕ
fib_fls_set_cmd = ioc 1 3 8

abbrev pub fib_fls_dealloc_cmd : ℕ
fib_fls_dealloc_cmd = ioc 1 4 8

abbrev pub fib_convert_cmd : ℕ
fib_convert_cmd = ioc 0 5 0

abbrev pub fib_create_cmd : ℕ
fib_create_cmd = ioc 3 6 8

abbrev pub fib_switch_to_cmd : ℕ
fib_switch_to_cmd = ioc 1 7 8

-- Whether access_ok, copy_from_user and copy_to_user accept the caller's address in this call.
pub record Uaccess : Type 0 where
  pub access_ok : Bool
  pub copy_from_user : Bool
  pub copy_to_user : Bool

abbrev pub efault : ℤ
efault = negsuc 13

abbrev pub einval : ℤ
einval = negsuc 21

-- The value returned, and the structure at the caller's address afterwards. A copy that fails is
-- taken to write nothing.
abbrev pub Reply : Type 0
Reply = ℤ × FiberArguments

-- `if (!access_ok(…)) … if (copy_from_user(…)) …` before the branch's own work.
abbrev pub with_arguments : Uaccess → FiberArguments → (FiberArguments → M Reply) → M Reply
with_arguments u arg k =
    if u.access_ok
    then (if u.copy_from_user then k arg else pure (efault, arg))
    else pure (efault, arg)

-- `if (copy_to_user(…)) return -EFAULT; return 0;`
abbrev pub reply_with : Uaccess → FiberArguments → FiberArguments → M Reply
reply_with u arg fa = if u.copy_to_user then pure (pos 0, fa) else pure (efault, arg)

pub flag_value : Bool → ℤ
flag_value b = if b then pos 1 else pos 0

-- `fib_create(…)->id`
unfoldable pub created_id : Option Ptr → M ℕ
unfolding load_fiber
created_id none = crash
created_id (some f) = do fiber ← load_fiber f; pure fiber.id

-- The branches of fib_ioctl. `stack_bytes` is what stands in the uninitialised structure of the
-- first.
unfoldable pub ioctl_fls_alloc :
    (stack_bytes : FiberArguments) → Current → Uaccess → FiberArguments → M Reply
ioctl_fls_alloc stack_bytes c u arg = do
  index ← fls_alloc c
  reply_with u arg (record stack_bytes { fls_index = index })

unfoldable pub ioctl_fls_get : Current → Uaccess → FiberArguments → FiberArguments → M Reply
ioctl_fls_get c u arg fa = do
  value ← fls_get_value c fa.fls_index
  reply_with u arg (record fa { fls_value = value })

unfoldable pub ioctl_fls_set : Current → FiberArguments → FiberArguments → M Reply
ioctl_fls_set c arg fa = do _ ← fls_set_value c fa.fls_index fa.fls_value; pure (pos 0, arg)

unfoldable pub ioctl_fls_dealloc : Current → FiberArguments → FiberArguments → M Reply
unfolding flag_value
ioctl_fls_dealloc c arg fa = do ret ← fls_free c fa.fls_index; pure (flag_value ret, arg)

unfoldable pub ioctl_convert : Current → FiberArguments → M Reply
ioctl_convert c arg = do ret ← fib_convert c; pure (ret, arg)

unfoldable pub ioctl_create : Current → Uaccess → FiberArguments → FiberArguments → M Reply
unfolding created_id
ioctl_create c u arg fa = do
  f ←
      fib_create c fa.start_function_address fa.start_function_parameters fa.stack_pointer
        fa.stack_size
  id ← created_id f
  reply_with u arg (record fa { fiber_id = id })

unfoldable pub ioctl_switch_to : Current → FiberArguments → FiberArguments → M Reply
ioctl_switch_to c arg fa = do ret ← fib_switch_to c fa.fiber_id; pure (ret, arg)

unfoldable pub fib_ioctl :
    (stack_bytes : FiberArguments)
    → Current
    → Uaccess
    → (cmd : ℕ) → (arg : FiberArguments) → M Reply
unfolding ioctl_fls_alloc ioctl_fls_get ioctl_fls_set ioctl_fls_dealloc ioctl_convert ioctl_create
    ioctl_switch_to
fib_ioctl stack_bytes c u cmd arg =
    if cmd == fib_fls_alloc_cmd
    then ioctl_fls_alloc stack_bytes c u arg
    else if cmd == fib_fls_get_cmd
    then with_arguments u arg (ioctl_fls_get c u arg)
    else if cmd == fib_fls_set_cmd
    then with_arguments u arg (ioctl_fls_set c arg)
    else if cmd == fib_fls_dealloc_cmd
    then with_arguments u arg (ioctl_fls_dealloc c arg)
    else if cmd == fib_convert_cmd
    then ioctl_convert c arg
    else if cmd == fib_create_cmd
    then with_arguments u arg (ioctl_create c u arg)
    else if cmd == fib_switch_to_cmd
    then with_arguments u arg (ioctl_switch_to c arg)
    else pure (einval, arg)
