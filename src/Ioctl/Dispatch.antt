-- ===== src/Ioctl/Dispatch.antt =====
-- Which function a command reaches, and what a bad address costs.
use linux_fibers.Common.{ℕ, ◌≡◌, ◌≢◌, arith, false, ◌⊎◌}
use linux_fibers.Kernel.{FiberArguments, Kernel, Current}
use linux_fibers.Kernel.Store.{ok}
use linux_fibers.Ioctl.{
  fib_ioctl, Uaccess, efault, einval, fib_fls_alloc_cmd, fib_fls_get_cmd, fib_fls_set_cmd,
  fib_fls_dealloc_cmd, fib_convert_cmd, fib_create_cmd, fib_switch_to_cmd,
}

-- The commands that read their argument.
abbrev pub Reads : ℕ → Type 0
Reads cmd =
    (cmd ≡ fib_fls_get_cmd)
    ⊎ (cmd ≡ fib_fls_set_cmd)
    ⊎ (cmd ≡ fib_fls_dealloc_cmd)
    ⊎ (cmd ≡ fib_create_cmd)
    ⊎ (cmd ≡ fib_switch_to_cmd)

module _ (bytes : FiberArguments) (c : Current) (u : Uaccess) (arg : FiberArguments)
    (k : Kernel) where
  -- A command that reads its argument returns -EFAULT and changes nothing when access_ok or
  -- copy_from_user refuses the address.
  pub fib_ioctl-unreadable :
      (cmd : ℕ)
      → Reads cmd
      → ((u.access_ok ≡ false) ⊎ (u.copy_from_user ≡ false))
      → fib_ioctl bytes c u cmd arg k ≡ ok (efault, arg) k
  unfolding fib_ioctl
  fib_ioctl-unreadable cmd r bad = ground arith

  -- A command number that is none of the seven returns -EINVAL and changes nothing.
  pub fib_ioctl-unknown :
      (cmd : ℕ)
      → cmd ≢ fib_fls_alloc_cmd
      → cmd ≢ fib_fls_get_cmd
      → cmd ≢ fib_fls_set_cmd
      → cmd ≢ fib_fls_dealloc_cmd
      → cmd ≢ fib_convert_cmd
      → cmd ≢ fib_create_cmd
      → cmd ≢ fib_switch_to_cmd
      → fib_ioctl bytes c u cmd arg k ≡ ok (einval, arg) k
  unfolding fib_ioctl
  fib_ioctl-unknown cmd a b d e f g h = ground arith
