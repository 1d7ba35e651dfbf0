-- ===== src/Tests/Histories.antt =====
-- A history of the module.
use linux_fibers.Common.{ℕ, ◌≡◌, ◌≢◌, refl, arith, none, some, [], ◌∷◌, pos, update}
use linux_fibers.Kernel.{Process, Kernel}
use linux_fibers.Kernel.Store.{ok}
use linux_fibers.Fiber.Create.{with_fiber, listed, converted_fiber, fib_convert-new}
use linux_fibers.Process.{fib_open, new_process, empty_stuff}
use linux_fibers.Ioctl.{fib_ioctl, fib_convert_cmd}
use linux_fibers.Invariant.Reach.{Reach, here, next, opens, calls, boot, exclusive}
use linux_fibers.Tests.Sample.{user, regs_at}
use linux_fibers.Tests.Module.{bytes, accepts, other}

-- A process opens the device and two of its threads become fibers.
abbrev started : Kernel
started = boot (λ _. regs_at 10) (λ _. 0)

abbrev opened : Kernel
unfolding new_process
opened = record started { processi = new_process 7 ∷ [] }

abbrev one : Kernel
unfolding new_process
one = record opened {
  processi = record (with_fiber 17 empty_stuff (new_process 7)) { listathread = 16 ∷ [] } ∷ [];
  threads = update (λ _. none) 16 (some (record { runner = 17; id = 7 }));
  fibers = update (λ _. none) 17 (some (converted_fiber user opened (new_process 7)));
  next_address = 18;
}

first_process : Process
unfolding new_process
first_process = record (with_fiber 17 empty_stuff (new_process 7)) { listathread = 16 ∷ [] }

abbrev two : Kernel
unfolding first_process
two = record one {
  processi =
      record (with_fiber 19 (listed 1 empty_stuff) first_process) { listathread = 18 ∷ 16 ∷ [] }
      ∷ [];
  threads = update one.threads 18 (some (record { runner = 19; id = 8 }));
  fibers = update one.fibers 19 (some (converted_fiber other one first_process));
  next_address = 20;
}

first_converts : fib_ioctl bytes user accepts fib_convert_cmd bytes opened ≡ ok (pos 1, bytes) one
unfolding fib_ioctl new_process
first_converts =
    rw
      (fib_convert-new user opened {before = []} {after = []}
        (record { table = refl; tgid = refl; none_before = tt; none_after = tt }) (omega arith) refl
        tt (omega arith))
      refl

second_converts : fib_ioctl bytes other accepts fib_convert_cmd bytes one ≡ ok (pos 2, bytes) two
unfolding fib_ioctl new_process first_process
second_converts =
    rw
      (fib_convert-new other one {before = []} {after = []}
        (record { table = refl; tgid = refl; none_before = tt; none_after = tt }) (omega arith) refl
        (
          record {
            ne_null = omega arith;
            ne_self = omega arith;
            thread = (record { runner = 17; id = 7 });
            stored = refl;
            ne_pid = omega arith;
          },
          tt,
        )
        (omega arith))
      refl

boots : fib_open user started ≡ ok (pos 0) opened
unfolding fib_open new_process
boots = ground arith

history : Reach started two
history =
    next
      (next (next here (opens user tt boots))
        (calls bytes user accepts fib_convert_cmd bytes first_converts))
      (calls bytes other accepts fib_convert_cmd bytes second_converts)

exclusive_example : ◌≢◌ {A = ℕ} 17 19
unfolding first_process
exclusive_example =
    exclusive history 16 18 (record { runner = 17; id = 7 }) (record { runner = 19; id = 8 }) refl
      refl (omega arith)
