-- ===== src/Tests/Module.antt =====
-- The theorems about the kernel module at the sample.
use linux_fibers.Common.{
  ◌≡◌, ◌≢◌, refl, arith, true, none, some, [], ◌∷◌, All, pos, negsuc, minus_one, update,
}
use linux_fibers.Kernel.{Ptr, Process, FiberArguments, Kernel, Current}
use linux_fibers.Kernel.Store.{ok, fault, put_fiber}
use linux_fibers.Kernel.Target.{OtherFiber, IsTarget}
use linux_fibers.Kernel.Caller.{IsCaller}
use linux_fibers.Fls.{fls_get_value, fls_set_value, fls_free}
use linux_fibers.Fls.Steps.{out_of_range}
use linux_fibers.Fls.Refine.{slots, run, Follows, run-Follows, alloc, load, store, release}
use linux_fibers.Entries.{n_fib}
use linux_fibers.Fiber.{fib_convert, fib_create, fib_switch_to}
use linux_fibers.Fiber.Create.{with_fiber, fib_create-room, fib_create-full, fib_convert-new}
use linux_fibers.Fiber.Switch.{
  switched, failed_fiber, switch_self, switch-missing, switch-running, switch-idle,
}
use linux_fibers.Process.{fib_release}
use linux_fibers.Process.Laws.{fib_release-Freed}
use linux_fibers.Ioctl.{fib_ioctl, Uaccess, fib_switch_to_cmd}
use linux_fibers.Invariant.Safe.{Safe}
use linux_fibers.Invariant.Switch.{Switches, fib_switch_to-IsValid}
use linux_fibers.Invariant.Ioctl.{fib_ioctl-Safe}
use linux_fibers.Tests.Sample.{
  user, regs_at, values, bits, first, second, stuff, process, thread, sample, place,
  sample-IsProcess, sample-IsCaller, sample-RunsOld, sample-RunsFiber, second_place,
  second-IsTarget, sample-IsValid,
}

abbrev pub bytes : FiberArguments
bytes = record {
  stack_pointer = 1;
  start_function_address = 2;
  start_function_parameters = 3;
  fls_value = pos 4;
  fls_index = pos 5;
  stack_size = 6;
  buffer = 7;
  alloc_size = 8;
  fiber_id = 2;
}

abbrev pub accepts : Uaccess
accepts = record { access_ok = true; copy_from_user = true; copy_to_user = true }

fib_switch_to-IsValid_example : Switches user 2 sample
fib_switch_to-IsValid_example = fib_switch_to-IsValid user sample 2 sample-IsValid

switch-idle_example :
    fib_switch_to user 2 sample ≡ ok (pos 0) (switched user 16 thread 17 first 18 second sample)
switch-idle_example =
    switch-idle user sample sample-IsCaller sample-RunsOld 2 (omega arith) second-IsTarget refl refl

-- The same, with the second fiber run by a thread of another process.
abbrev crowded : Kernel
crowded = record sample {
  fibers =
      update (update (λ _. none) 17 (some first)) 18
        (some (record second { selected_thread = 30 }));
  threads = update sample.threads 30 (some (record { runner = 18; id = 31 }));
}

crowded-IsCaller : IsCaller user crowded place thread
crowded-IsCaller = record {
  table = refl;
  tgid = refl;
  before = tt;
  after = tt;
  listed = refl;
  ne_null = omega arith;
  stored = refl;
  pid = refl;
  left = tt;
  right = tt;
}

busy-IsTarget : IsTarget 2 crowded process second_place (record second { selected_thread = 30 })
busy-IsTarget = record {
  listed = refl;
  ne_null = omega arith;
  stored = refl;
  named = refl;
  left = tt;
  right = (record { ne_null = omega arith; fiber = first; stored = refl; ne_id = omega arith }, tt);
}

switch-running_example :
    fib_switch_to user 2 crowded ≡ ok minus_one (put_fiber 17 (some (failed_fiber first)) crowded)
switch-running_example =
    switch-running user crowded crowded-IsCaller
      (record { runner = refl; ne_null = omega arith; stored = refl; unlocked = refl }) 2
      (omega arith) busy-IsTarget refl (omega arith)

switch_self_example :
    fib_switch_to user 1 sample ≡ ok minus_one (put_fiber 17 (some (failed_fiber first)) sample)
switch_self_example = switch_self user sample sample-IsCaller sample-RunsOld 1 refl

pub no_ninth : All (OtherFiber 9 sample) process.listafiber
no_ninth = (
  record { ne_null = omega arith; fiber = second; stored = refl; ne_id = omega arith },
  (record { ne_null = omega arith; fiber = first; stored = refl; ne_id = omega arith }, tt),
)

switch-missing_example : fib_switch_to user 9 sample ≡ ok minus_one sample
switch-missing_example =
    switch-missing user sample sample-IsCaller sample-RunsOld 9 (omega arith) no_ninth

run-Follows_example :
    Follows
      (slots values bits)
      (load 0 ∷ alloc ∷ store 1 (pos 9) ∷ load 1 ∷ release 0 ∷ load 0 ∷ [])
      (run user (load 0 ∷ alloc ∷ store 1 (pos 9) ∷ load 1 ∷ release 0 ∷ load 0 ∷ []) sample)
run-Follows_example =
    run-Follows (load 0 ∷ alloc ∷ store 1 (pos 9) ∷ load 1 ∷ release 0 ∷ load 0 ∷ [])
      sample-IsCaller sample-RunsFiber (omega arith)

out_of_range_example :
    (fls_get_value user (negsuc 4) sample ≡ fault)
    × (fls_set_value user (negsuc 4) (pos 1) sample ≡ fault)
    × (fls_free user (negsuc 4) sample ≡ fault)
out_of_range_example = out_of_range sample-IsCaller sample-RunsFiber (negsuc 4) (pos 1) tt

fib_ioctl-Safe_example : Safe (fib_ioctl bytes user accepts fib_switch_to_cmd bytes sample)
fib_ioctl-Safe_example =
    fib_ioctl-Safe bytes user accepts fib_switch_to_cmd bytes sample sample-IsValid

fib_create-room_example :
    fib_create user 400 5 8000 4096 sample
    ≡ ok (some 19) (record sample {
      processi = with_fiber 19 stuff process ∷ [];
      fibers = update sample.fibers 19 (
          some (record second {
            regs = record { ip = 400; sp = 12088; bp = 12088; di = 5; others = 0 };
            fpu = 5;
            entry_point = 400;
            fls = some (λ _. pos 0);
            bitmap_fls = some (λ _. 0);
            id = 3;
          }));
      next_address = 20;
    })
fib_create-room_example =
    fib_create-room user sample sample-IsProcess (omega arith) refl 400 5 8000 4096 (omega arith)

-- The listing of the process is full.
abbrev full_process : Process
full_process = record process { listafiber_stuff = record stuff { len_fiber_stuff = n_fib } ∷ [] }

abbrev full : Kernel
full = record sample { processi = full_process ∷ [] }

fib_create-full_example : fib_create user 400 5 8000 4096 full ≡ fault
fib_create-full_example =
    fib_create-full user full {before = []} {after = []}
      (record { table = refl; tgid = refl; none_before = tt; none_after = tt }) (omega arith) refl
      400 5 8000 4096 (omega arith)

-- A second thread of the process.
abbrev pub other : Current
other = record user { pid = 8 }

fib_convert-new_example :
    fib_convert other sample
    ≡ ok (pos 3) (record sample {
      processi = record (with_fiber 20 stuff process) { listathread = 19 ∷ 16 ∷ [] } ∷ [];
      threads = update sample.threads 19 (some (record { runner = 20; id = 8 }));
      fibers = update sample.fibers 20 (
          some (record second {
            regs = regs_at 140;
            fpu = 5;
            entry_point = 140;
            selected_thread = 19;
            fls = some (λ _. pos 0);
            bitmap_fls = some (λ _. 0);
            last_activation_time = 900;
            correct_counter = 1;
            creator = 8;
            id = 3;
          }));
      next_address = 21;
    })
fib_convert-new_example =
    fib_convert-new other sample {before = []} {after = []}
      (record { table = refl; tgid = refl; none_before = tt; none_after = tt }) (omega arith) refl
      (
        record {
          ne_null = omega arith;
          ne_self = omega arith;
          thread = thread;
          stored = refl;
          ne_pid = omega arith;
        },
        tt,
      )
      (omega arith)

fib_release-Freed_example :
    (k' : Kernel) × (fib_release user sample ≡ ok (pos 0) k')
    × (k'.processi ≡ [])
    × All (λ (t : Ptr). k'.threads t ≡ none) (16 ∷ [])
    × All (λ (f : Ptr). k'.fibers f ≡ none) (18 ∷ 17 ∷ [])
    × ((t : Ptr) → All (λ (s : Ptr). s ≢ t) (16 ∷ []) → k'.threads t ≡ sample.threads t)
    × ((f : Ptr) → All (λ (s : Ptr). s ≢ f) (18 ∷ 17 ∷ []) → k'.fibers f ≡ sample.fibers f)
fib_release-Freed_example =
    fib_release-Freed sample-IsProcess (omega arith, (thread, refl), tt, tt)
      (omega arith, (second, refl), (omega arith, tt), (omega arith, (first, refl), tt, tt))
