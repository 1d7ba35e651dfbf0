-- ===== src/Tests/Library.antt =====
-- The theorems about the user-space library, and those about the calls in a valid memory, at the
-- sample.
use linux_fibers.Common.{◌≡◌, refl, arith, some, [], pos, update}
use linux_fibers.Kernel.{Fiber}
use linux_fibers.Kernel.Store.{ok, fault, ◌>>=◌, ◌>>◌}
use linux_fibers.Fls.Slots.{IsFirstFree}
use linux_fibers.Fls.Runs.{with_storage}
use linux_fibers.Interface.{fib_fls_alloc, fib_fls_set, fib_fls_get, create_fiber}
use linux_fibers.Interface.EndToEnd.{get-set, get-alloc}
use linux_fibers.Fiber.Create.{created}
use linux_fibers.Interface.Stack.{StartsAt, create_fiber-StartsAt, create_fiber-overflow}
use linux_fibers.Invariant.Find.{Here}
use linux_fibers.Tests.Sample.{
  user, values, bits, first, stuff, process, sample, sample-IsProcess, sample-IsCaller,
  sample-RunsFiber, sample-IsGood,
}
use linux_fibers.Tests.Module.{bytes}

get-set_example :
    (fib_fls_set bytes user (pos 0) (pos 9) >> fib_fls_get bytes user (pos 0)) sample
    ≡ ok (pos 9) (with_storage 17 first (update values 0 (pos 9)) bits sample)
get-set_example =
    get-set bytes sample-IsCaller sample-RunsFiber 0 0 (pos 9) (omega arith) (omega arith)
      (omega arith)

second_slot : IsFirstFree bits 0 1
second_slot = record { from_le = omega arith; free = refl; least = λ j a b. ground (arith, a, b) }

get-alloc_example :
    (fib_fls_alloc bytes user >>= fib_fls_get bytes user) sample
    ≡ ok (values 1) (with_storage 17 first values (update bits 1 1) sample)
get-alloc_example = get-alloc bytes sample-IsCaller sample-RunsFiber 1 second_slot (omega arith)

create_fiber-StartsAt_example :
    (f : Fiber) × (create_fiber bytes user 4096 (some 40960) 400 5 5000 sample
      ≡ ok 3 (created [] process [] stuff f sample))
    × (f.id ≡ 3)
    × StartsAt 400 5 40960 5000 f
create_fiber-StartsAt_example =
    create_fiber-StartsAt bytes user sample sample-IsProcess (omega arith) refl (omega arith) 40960
      400 5 5000 (omega arith) (omega arith) (omega arith)

create_fiber-overflow_example : create_fiber bytes user 4096 (some 40960) 400 5 9000 sample ≡ fault
create_fiber-overflow_example =
    create_fiber-overflow bytes user sample 4096 40960 400 5 9000 (omega arith) (omega arith)

sample_process : Here user sample
sample_process = record {
  before = [];
  p = process;
  after = [];
  here = sample-IsProcess;
  good = sample-IsGood;
}
