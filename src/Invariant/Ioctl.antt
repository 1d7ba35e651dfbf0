-- ===== src/Invariant/Ioctl.antt =====
-- fib_ioctl in a valid memory.
use linux_fibers.Common.{
  ℕ, inl, inr, Bool, true, false, Option, none, some, Bool-cases, Option-cases, if◌then◌else◌, ◌==◌,
}
use linux_fibers.Kernel.{Ptr, null, FiberArguments, Kernel, Current}
use linux_fibers.Kernel.Store.{M, load_fiber}
use linux_fibers.Kernel.Caller.{for_process-none}
use linux_fibers.Fiber.{fib_create, fib_convert, fib_switch_to, create_in}
use linux_fibers.Ioctl.{
  fib_fls_alloc_cmd, fib_fls_get_cmd, fib_fls_set_cmd, fib_fls_dealloc_cmd, fib_convert_cmd,
  fib_create_cmd, fib_switch_to_cmd, Uaccess, Reply, fib_ioctl, ioctl_fls_alloc, ioctl_fls_get,
  ioctl_fls_set, ioctl_fls_dealloc, ioctl_convert, ioctl_create, ioctl_switch_to, created_id,
  with_arguments, reply_with,
}
use linux_fibers.Invariant.{IsValid}
use linux_fibers.Invariant.Find.{find_process}
use linux_fibers.Invariant.Safe.{Safe, good, faulty, Safe-bind, Good-Safe}
use linux_fibers.Invariant.Calls.{fib_create-Good, fib_convert-Good}
use linux_fibers.Invariant.Switch.{fib_switch_to-IsValid}
use linux_fibers.Invariant.Storage.{
  fls_alloc-Safe, fls_get_value-Safe, fls_set_value-Safe, fls_free-Safe,
}

module _ (c : Current) (k : Kernel) (v : IsValid k) where
  convert-Safe : Safe (fib_convert c k)
  convert-Safe = elim (fib_convert-Good c k v) [ inl g ↦ Good-Safe g | inr (full, e) ↦ rw e faulty ]

  create-Safe :
      (func parameters stack_pointer stack_size : ℕ)
      → Safe (fib_create c func parameters stack_pointer stack_size k)
  unfolding fib_create
  create-Safe func parameters stack_pointer stack_size = elim (find_process c k v) [
    | inr closed ↦
        rw (for_process-none c k (create_in c func parameters stack_pointer stack_size) none closed)
          (good v)
    | inl h ↦ elim (fib_create-Good c k v func parameters stack_pointer stack_size h) [
      | inl g ↦ Good-Safe g
      | inr (full, e) ↦ rw e faulty
    ]
  ]

  switch-Safe : (id : ℕ) → Safe (fib_switch_to c id k)
  switch-Safe id = let (r, k', e, ret, v') = fib_switch_to-IsValid c k id v in rw e (good v')

load_fiber-Safe : (p : Ptr) (k : Kernel) → IsValid k → Safe (load_fiber p k)
unfolding load_fiber
load_fiber-Safe p k v = elim (Bool-cases (p == null)) [
  | inl e ↦ rw e faulty
  | inr e ↦
      rw e
        (elim (Option-cases (k.fibers p)) [ inl e' ↦ rw e' faulty | inr (f, e') ↦ rw e' (good v) ])
]

created_id-Safe : (f : Option Ptr) (k : Kernel) → IsValid k → Safe (created_id f k)
unfolding created_id
created_id-Safe none k v = faulty
created_id-Safe (some p) k v = Safe-bind _ (load_fiber-Safe p k v) (λ f k' v'. good v')

reply_with-Safe :
    (u : Uaccess) (arg fa : FiberArguments) (k : Kernel) → IsValid k → Safe (reply_with u arg fa k)
reply_with-Safe u arg fa k v = elim (Bool-cases u.copy_to_user) [
  | inl e ↦ rw e (good v)
  | inr e ↦ rw e (good v)
]

with_arguments-Safe :
    (u : Uaccess) (arg : FiberArguments) (f : FiberArguments → M Reply) (k : Kernel)
    → IsValid k
    → Safe (f arg k)
    → Safe (with_arguments u arg f k)
with_arguments-Safe u arg f k v s = elim (Bool-cases u.access_ok) [
  | inr e ↦ rw e (good v)
  | inl e ↦ rw e (elim (Bool-cases u.copy_from_user) [ inl e' ↦ rw e' s | inr e' ↦ rw e' (good v) ])
]

module _ (c : Current) (u : Uaccess) (arg fa : FiberArguments) (k : Kernel) (v : IsValid k) where
  get-Safe : Safe (ioctl_fls_get c u arg fa k)
  unfolding ioctl_fls_get
  get-Safe =
      Safe-bind _ (fls_get_value-Safe c k v fa.fls_index) (λ i k' v'. reply_with-Safe u arg _ k' v')

  set-Safe : Safe (ioctl_fls_set c arg fa k)
  unfolding ioctl_fls_set
  set-Safe = Safe-bind _ (fls_set_value-Safe c k v fa.fls_index fa.fls_value) (λ i k' v'. good v')

  dealloc-Safe : Safe (ioctl_fls_dealloc c arg fa k)
  unfolding ioctl_fls_dealloc
  dealloc-Safe = Safe-bind _ (fls_free-Safe c k v fa.fls_index) (λ i k' v'. good v')

  ioctl_create-Safe : Safe (ioctl_create c u arg fa k)
  unfolding ioctl_create
  ioctl_create-Safe =
      Safe-bind _
        (create-Safe c k v fa.start_function_address fa.start_function_parameters fa.stack_pointer
          fa.stack_size)
        (λ f k' v'.
          Safe-bind _ (created_id-Safe f k' v') (λ id k'' v''. reply_with-Safe u arg _ k'' v''))

  switch_to-Safe : Safe (ioctl_switch_to c arg fa k)
  unfolding ioctl_switch_to
  switch_to-Safe = Safe-bind _ (switch-Safe c k v fa.fiber_id) (λ i k' v'. good v')

if-Safe :
    {A : Type 0} (b : Bool) (x y : M A) (k : Kernel)
    → Safe (x k)
    → Safe (y k)
    → Safe ((if b then x else y) k)
if-Safe true x y k s t = s
if-Safe false x y k s t = t

alloc-Safe :
    (bytes : FiberArguments) (c : Current) (u : Uaccess) (arg : FiberArguments) (k : Kernel)
    → IsValid k
    → Safe (ioctl_fls_alloc bytes c u arg k)
unfolding ioctl_fls_alloc
alloc-Safe bytes c u arg k v =
    Safe-bind _ (fls_alloc-Safe c k v) (λ i k' v'. reply_with-Safe u arg _ k' v')

ioctl_convert-Safe :
    (c : Current) (arg : FiberArguments) (k : Kernel) → IsValid k → Safe (ioctl_convert c arg k)
unfolding ioctl_convert
ioctl_convert-Safe c arg k v = Safe-bind _ (convert-Safe c k v) (λ i k' v'. good v')

-- Whatever the command, its argument and the outcome of the copies, fib_ioctl from a valid memory
-- leaves a valid memory or stops in a fault; it never waits for a lock.
pub fib_ioctl-Safe :
    (bytes : FiberArguments) (c : Current) (u : Uaccess) (cmd : ℕ) (arg : FiberArguments)
    (k : Kernel)
    → IsValid k
    → Safe (fib_ioctl bytes c u cmd arg k)
unfolding fib_ioctl
fib_ioctl-Safe bytes c u cmd arg k v =
    if-Safe (cmd == fib_fls_alloc_cmd) _ _ k (alloc-Safe bytes c u arg k v) (
      if-Safe (cmd == fib_fls_get_cmd) _ _ k
        (with_arguments-Safe u arg (ioctl_fls_get c u arg) k v (get-Safe c u arg arg k v))
        (if-Safe (cmd == fib_fls_set_cmd) _ _ k
          (with_arguments-Safe u arg (ioctl_fls_set c arg) k v (set-Safe c u arg arg k v))
          (if-Safe (cmd == fib_fls_dealloc_cmd) _ _ k
            (with_arguments-Safe u arg (ioctl_fls_dealloc c arg) k v (dealloc-Safe c u arg arg k v))
            (if-Safe (cmd == fib_convert_cmd) _ _ k (ioctl_convert-Safe c arg k v) (
              if-Safe (cmd == fib_create_cmd) _ _ k
                (with_arguments-Safe u arg (ioctl_create c u arg) k v
                  (ioctl_create-Safe c u arg arg k v))
                (if-Safe (cmd == fib_switch_to_cmd) _ _ k
                  (with_arguments-Safe u arg (ioctl_switch_to c arg) k v
                    (switch_to-Safe c u arg arg k v))
                  (good v)))))))
