-- ===== src/Tests/Ult.antt =====
-- The theorems about user-level threads: a thread that converted itself and created a fiber.
use linux_fibers.Common.{ℕ, ◌≡◌, ◌≢◌, ◌≤◌, refl, arith, true, false, some, none, update, pos}
use linux_fibers.Interface.{aligned, stack_size_max}
use linux_fibers.Ult.Machine.{Context, Ult, Ults, ran, ◌>>◌}
use linux_fibers.Ult.{ult_switch_to}
use linux_fibers.Ult.Laws.{switch-switch, converted, ult_convert_lem}
use linux_fibers.Ult.Reach.{Reach, here, next, converts, start, ult_exclusive}

-- Thread 0 runs the fiber at 16.
abbrev main_ult : Ult
main_ult = record { running = true; context = Context.program 1; id = 0 }

abbrev alone : Ults
alone = record {
  ults = update (λ _. none) 16 (some main_ult);
  next_address = 17;
  ult_id = 1;
  current = update (λ _. 0) 0 16;
  cpu = λ _. Context.program 3;
  fls = λ _. pos 0;
  fls_idx = 0;
}

aligned_page : aligned 4096 8192 ≤ stack_size_max
unfolding aligned
aligned_page = ground arith

-- A second fiber, at 17, which waits at its function.
abbrev idle_ult : Ult
idle_ult = record { running = false; context = Context.starts 500 6; id = 1 }

abbrev pair : Ults
pair = record alone { ults = update alone.ults 17 (some idle_ult); next_address = 18; ult_id = 2 }

switch-switch_example :
    (ult_switch_to 0 17 >> ult_switch_to 0 16) pair
    ≡ ran tt (record pair {
      ults = update pair.ults 16 (some (record main_ult { context = Context.program 3 }));
    })
switch-switch_example =
    switch-switch 0 pair refl (omega arith) refl refl 17 idle_ult (omega arith) refl refl

-- Two threads convert themselves.
abbrev first_converted : Ults
first_converted = converted 0 (start (λ _. Context.program 3))

two_threads : Reach (start (λ _. Context.program 3)) (converted 1 first_converted)
two_threads =
    next (next here (converts 0 (ult_convert_lem 0 (start (λ _. Context.program 3)) (omega arith))))
      (converts 1 (ult_convert_lem 1 first_converted (omega arith)))

ult_exclusive_example : ◌≢◌ {A = ℕ} 16 17
ult_exclusive_example = ult_exclusive two_threads 0 1 (omega arith) (omega arith)
