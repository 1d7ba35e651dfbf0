-- ===== src/Tests/Sample.antt =====
-- A process with one thread and two fibers: the thread runs the first, and the second is idle.
use linux_fibers.Common.{
  ℕ, ◌≡◌, refl, arith, false, none, some, [], ◌∷◌, ℤ, pos, update, inl, inr, ◌⊎◌, ap, update-some,
  if◌then◌else◌, ◌==◌,
}
use linux_fibers.Kernel.{
  Ptr, null, PtRegs, PidEntry, Fiber, FiberStuff, Thread, Process, Kernel, Current,
}
use linux_fibers.Kernel.Caller.{Place, IsCaller, IsProcess}
use linux_fibers.Kernel.Target.{FiberPlace, IsTarget}
use linux_fibers.Fls.Runs.{RunsFiber}
use linux_fibers.Fiber.Switch.{RunsOld}
use linux_fibers.Invariant.{IsValid, IsGood}

-- The thread 7 of the process 7, at time 900.
abbrev pub user : Current
user = record { tgid = 7; pid = 7; tv_nsec = 900 }

abbrev pub regs_at : ℕ → PtRegs
regs_at ip = record { ip = ip; sp = 5000; bp = 5000; di = 0; others = 0 }

-- Slot 0 is in use and holds 40.
abbrev pub values : ℕ → ℤ
values i = if i == 0 then pos 40 else pos 0

abbrev pub bits : ℕ → ℕ
bits i = if i == 0 then 1 else 0

abbrev pub first : Fiber
first = record {
  regs = regs_at 100;
  fpu = 1;
  entry_point = 100;
  selected_thread = 16;
  lock_fiber = false;
  fls = some values;
  bitmap_fls = some bits;
  exec_time = 50;
  last_activation_time = 200;
  correct_counter = 1;
  creator = 7;
  id = 1;
  failed_counter = 0;
}

abbrev pub second : Fiber
second = record first {
  regs = regs_at 300;
  fpu = 2;
  entry_point = 300;
  selected_thread = null;
  exec_time = 0;
  last_activation_time = 0;
  correct_counter = 0;
  id = 2;
}

abbrev pub blank : PidEntry
blank = record { name = []; len = 0; mode = 0; iop = null; fop = null }

abbrev pub stuff : FiberStuff
stuff = record { fiber_base_stuff = λ _. blank; len_fiber_stuff = 2 }

abbrev pub process : Process
process = record {
  listathread = 16 ∷ [];
  listafiber = 18 ∷ 17 ∷ [];
  listafiber_stuff = stuff ∷ [];
  last_fib_id = 2;
  id = 7;
}

abbrev pub thread : Thread
thread = record { runner = 17; id = 7 }

abbrev pub sample : Kernel
sample = record {
  processi = process ∷ [];
  fibers = update (update (λ _. none) 17 (some first)) 18 (some second);
  threads = update (λ _. none) 16 (some thread);
  next_address = 19;
  task_regs = λ _. regs_at 140;
  task_fpu = λ _. 5;
}

abbrev pub place : Place
place = record { before = []; p = process; after = []; left = []; t = 16; right = [] }

pub sample-IsProcess : IsProcess user sample [] process []
sample-IsProcess = record { table = refl; tgid = refl; none_before = tt; none_after = tt }

pub sample-IsCaller : IsCaller user sample place thread
sample-IsCaller = record {
  table = refl;
  tgid = refl;
  before = tt;
  after = tt;
  listed = refl;
  ne_null = omega arith;
  stored = refl;
  pid = refl;
  left = tt;
  right = tt;
}

pub sample-RunsOld : RunsOld sample thread 17 first
sample-RunsOld = record { runner = refl; ne_null = omega arith; stored = refl; unlocked = refl }

pub sample-RunsFiber : RunsFiber sample thread 17 first values bits
sample-RunsFiber = record {
  runner = refl;
  ne_null = omega arith;
  stored = refl;
  unlocked = refl;
  values_eq = refl;
  bits_eq = refl;
}

-- The second fiber, in front of the first.
abbrev pub second_place : FiberPlace
second_place = record { left = []; f = 18; right = 17 ∷ [] }

pub second-IsTarget : IsTarget 2 sample process second_place second
second-IsTarget = record {
  listed = refl;
  ne_null = omega arith;
  stored = refl;
  named = refl;
  left = tt;
  right = (record { ne_null = omega arith; fiber = first; stored = refl; ne_id = omega arith }, tt);
}

-- The two fibers are all there are.
which :
    (p : Ptr) (f : Fiber)
    → sample.fibers p ≡ some f
    → ((p ≡ 18) × (f ≡ second)) ⊎ ((p ≡ 17) × (f ≡ first))
which p f e = elim (update-some (update (λ _. none) 17 (some first)) 18 second p f e) [
  | inl here ↦ inl here
  | inr (other, e') ↦ elim (update-some (λ _. none) 17 first p f e') [
    | inl here ↦ inr here
    | inr (other', e'') ↦ cc
  ]
]

pub sample-IsGood : IsGood sample process
sample-IsGood = record {
  threads = (omega arith, (thread, refl, tt), tt);
  fibers = (
    omega arith,
    (
      second,
      refl,
      (record { ne_null = omega arith; item = first; stored = refl; ne_id = omega arith }, tt),
    ),
    (omega arith, (first, refl, tt), tt),
  );
  numbered = ((λ g e. ground (arith, e)), ((λ g e. ground (arith, e)), tt));
  stuff = stuff;
  one = refl;
  counted = refl;
  room = omega arith;
}

pub sample-IsValid : IsValid sample
sample-IsValid = record {
  apart = (tt, tt);
  good = (sample-IsGood, tt);
  running = λ t s e. elim (update-some (λ _. none) 16 thread t s e) [
    | inl (here, is) ↦ (ground (arith, is), (first, ground (arith, is), ground (arith, here)))
    | inr (other, old) ↦ cc
  ];
  selected = λ p f e ne. elim (which p f e) [
    | inl (here, is) ↦ absurd (ne (ap (λ (x : Fiber). x.selected_thread) is))
    | inr (here, is) ↦ (thread, ground (arith, is), ground (arith, here))
  ];
  unlocked = λ p f e. ground (arith, e);
  storage = λ p f e. elim (which p f e) [
    | inl (here, is) ↦ (values, bits, ground (arith, is), ground (arith, is))
    | inr (here, is) ↦ (values, bits, ground (arith, is), ground (arith, is))
  ];
  null_thread = refl;
  null_fiber = refl;
  positive = omega arith;
  fresh = λ q le. (ground arith, ground arith);
}
