-- ===== src/Fiber/Switch.antt =====
-- fib_switch_to: what it does on each branch.
use linux_fibers.Common.{
  ℕ, ◌+◌, ◌-◌, ◌^◌, ◌%◌, ◌≡◌, ◌≢◌, refl, ◌∙◌, arith, ◌==◌, if◌then◌else◌, true, false, some, ℤ, pos,
  minus_one, update, List, All, All-mono,
}
use linux_fibers.Kernel.{Ptr, null, Fiber, Thread, Kernel, Current}
use linux_fibers.Kernel.Store.{ok, put_fiber}
use linux_fibers.Kernel.Loops.{each_fiber}
use linux_fibers.Kernel.Caller.{Place, IsCaller, for_thread-one}
use linux_fibers.Kernel.Rounds.{OtherThread-change, OtherThread-put_fiber}
use linux_fibers.Kernel.Target.{
  OtherFiber, FiberPlace, IsTarget, OtherFiber-put, each_fiber-one, each_fiber-others,
}
use linux_fibers.Fiber.{charge, change_fiber, switch_on, switch_from, fib_switch_to}

-- The fiber that leaves the thread, with the thread's context in it. Its time is an unsigned long:
-- it grows by the nanoseconds from its activation to now, round the word.
abbrev pub left_fiber : Current → Kernel → Fiber → Fiber
left_fiber c k f = record f {
  regs = k.task_regs c.pid;
  fpu = k.task_fpu c.pid;
  selected_thread = null;
  exec_time = (f.exec_time + (c.tv_nsec + 2 ^ 64 - f.last_activation_time)) % 2 ^ 64;
}

-- The fiber that the thread enters.
abbrev pub entered_fiber : Current → Ptr → Fiber → Fiber
entered_fiber c t g = record g {
  selected_thread = t;
  correct_counter = (g.correct_counter + 1) % 2 ^ 64;
  last_activation_time = c.tv_nsec;
}

abbrev pub failed_fiber : Fiber → Fiber
failed_fiber f = record f { failed_counter = (f.failed_counter + 1) % 2 ^ 32 }

abbrev pub switched :
    Current → (t : Ptr) → Thread → (old : Ptr) → Fiber → (new : Ptr) → Fiber → Kernel → Kernel
switched c t thread old f new g k = record k {
  fibers = update (update k.fibers old (some (left_fiber c k f))) new (some (entered_fiber c t g));
  threads = update k.threads t (some (record thread { runner = new }));
  task_regs = update k.task_regs c.pid g.regs;
  task_fpu = update k.task_fpu c.pid g.fpu;
}

module _ (c : Current) (k : Kernel) {t old new : Ptr} {thread : Thread} {f g : Fiber}
    (t_ne : t ≢ null) (old_ne : old ≢ null) (new_ne : new ≢ null) (apart : old ≢ new)
    (at_t : k.threads t ≡ some thread) (at_old : k.fibers old ≡ some f)
    (at_new : k.fibers new ≡ some g) where
  change_fiber_lem : change_fiber c t old new k ≡ ok tt (switched c t thread old f new g k)
  unfolding change_fiber charge
  change_fiber_lem = ground arith

  switch_on-idle :
      (ret : ℤ)
      → g.lock_fiber ≡ false
      → g.selected_thread ≡ null
      → switch_on c t old new ret k ≡ ok (pos 0) (switched c t thread old f new g k)
  unfolding switch_on charge
  switch_on-idle ret unlocked idle = ground arith

  switch_on-running :
      (ret : ℤ)
      → g.lock_fiber ≡ false
      → g.selected_thread ≢ null
      → switch_on c t old new ret k ≡ ok minus_one (put_fiber old (some (failed_fiber f)) k)
  unfolding switch_on charge
  switch_on-running ret unlocked busy = ground arith

abbrev pub locked : Fiber → Fiber
locked f = record f { lock_fiber = true }

abbrev pub lock_at : Ptr → Fiber → Kernel → Kernel
lock_at p f = put_fiber p (some (locked f))

-- The thread runs the fiber `f` at `old`, and `old` is not the target.
pub record RunsOld (k : Kernel) (thread : Thread) (old : Ptr) (f : Fiber) : Type 0 where
  pub runner : thread.runner ≡ old
  pub ne_null : old ≢ null
  pub stored : k.fibers old ≡ some f
  pub unlocked : f.lock_fiber ≡ false

module _ (c : Current) (k : Kernel) {w : Place} {thread : Thread} {old : Ptr} {f : Fiber}
    (caller : IsCaller c k w thread) (runs : RunsOld k thread old f) (id : ℕ) where
  switch_from_self :
      (ret : ℤ)
      → f.id ≡ id
      → switch_from c id w.p w.t ret k ≡ ok minus_one (put_fiber old (some (failed_fiber f)) k)
  unfolding switch_from
  switch_from_self ret same = ground (arith, caller, runs)

  switch_from-other :
      (ret ret' : ℤ) (k' : Kernel) (h : Fiber)
      → f.id ≢ id
      → each_fiber id (switch_on c w.t old) w.p.listafiber ret (lock_at old f k) ≡ ok ret' k'
      → k'.fibers old ≡ some h
      → switch_from c id w.p w.t ret k
        ≡ ok ret' (put_fiber old (some (record h { lock_fiber = false })) k')
  unfolding switch_from
  switch_from-other ret ret' k' h differ e e' = ground (arith, caller, runs, e)

module _ (c : Current) (k : Kernel) {w : Place} {thread : Thread} {old : Ptr} {f : Fiber}
    (caller : IsCaller c k w thread) (runs : RunsOld k thread old f) (id : ℕ) where
  -- Switching to the id of the fiber that the thread runs returns -1, and changes nothing but
  -- that fiber's failure count.
  pub switch_self :
      f.id ≡ id → fib_switch_to c id k ≡ ok minus_one (put_fiber old (some (failed_fiber f)) k)
  unfolding fib_switch_to
  switch_self same =
      for_thread-one caller (switch_from c id) minus_one minus_one _
        (switch_from_self c k caller runs id minus_one same) refl
        (OtherThread-put_fiber c.pid w.t k old _ w.right caller.right)

  -- Switching to an id that no fiber of the process has returns -1 and changes nothing.
  pub switch-missing :
      f.id ≢ id → All (OtherFiber id k) w.p.listafiber → fib_switch_to c id k ≡ ok minus_one k
  unfolding fib_switch_to
  switch-missing differ missing =
      for_thread-one caller (switch_from c id) minus_one minus_one k
        (switch_from-other c k caller runs id minus_one minus_one (lock_at old f k) (locked f)
            differ (each_fiber-others id _ w.p.listafiber minus_one _ (All-mono _ others missing))
            (ground arith)
          ∙ ground (arith, runs))
        refl caller.right
    where
      others : (s : Ptr) → OtherFiber id k s → OtherFiber id (lock_at old f k) s
      others = OtherFiber-put id k old f (locked f) runs.stored refl

  module _ {v : FiberPlace} {g : Fiber} (differ : f.id ≢ id) (target : IsTarget id k w.p v g)
      (unlocked : g.lock_fiber ≡ false) where
    apart : old ≢ v.f
    apart e = ground (arith, differ, e, target, runs)

    locked_others :
        (fs : List Ptr) → All (OtherFiber id k) fs → All (OtherFiber id (lock_at old f k)) fs
    locked_others fs = All-mono fs (OtherFiber-put id k old f (locked f) runs.stored refl)

    IsTarget-locked : IsTarget id (lock_at old f k) w.p v g
    IsTarget-locked = record {
      listed = target.listed;
      ne_null = target.ne_null;
      stored = ground (arith, apart, target.stored);
      named = target.named;
      left = locked_others v.left target.left;
      right = locked_others v.right target.right;
    }

    -- Switching to another fiber of the process that is unlocked and that a thread runs
    -- returns -1, and changes nothing but the failure count of the caller's fiber.
    pub switch-running :
        g.selected_thread ≢ null
        → fib_switch_to c id k ≡ ok minus_one (put_fiber old (some (failed_fiber f)) k)
    unfolding fib_switch_to
    switch-running busy =
        for_thread-one caller (switch_from c id) minus_one minus_one _
          (switch_from-other c k caller runs id minus_one minus_one after (failed_fiber (locked f))
              differ
              (each_fiber-one id _ IsTarget-locked minus_one minus_one after
                (switch_on-running c (lock_at old f k) {f = locked f} caller.ne_null runs.ne_null
                  target.ne_null apart caller.stored (ground arith) IsTarget-locked.stored minus_one
                  unlocked busy)
                (All-mono v.right
                  (OtherFiber-put id (lock_at old f k) old (locked f) _ (ground arith) refl)
                  IsTarget-locked.right))
              (ground arith)
            ∙ ground (arith, runs))
          refl (OtherThread-put_fiber c.pid w.t k old _ w.right caller.right)
      where
        after : Kernel
        after = put_fiber old (some (failed_fiber (locked f))) (lock_at old f k)

    -- Switching to another fiber of the process that is unlocked and idle returns 0 and has
    -- exactly this effect: the thread's context is saved in the old fiber and the target's is
    -- loaded, thread and target select one another, the old fiber selects none, the
    -- activation is counted and its time noted, and the new activation time less that of the
    -- old fiber, round the word, is added to the time of the old fiber.
    pub switch-idle :
        g.selected_thread ≡ null
        → fib_switch_to c id k ≡ ok (pos 0) (switched c w.t thread old f v.f g k)
    unfolding fib_switch_to
    switch-idle idle =
        for_thread-one caller (switch_from c id) minus_one (pos 0) _
          (switch_from-other c k caller runs id minus_one (pos 0) after (left_fiber c k (locked f))
              differ
              (each_fiber-one id _ IsTarget-locked minus_one (pos 0) after
                (switch_on-idle c (lock_at old f k) {f = locked f} caller.ne_null runs.ne_null
                  target.ne_null apart caller.stored (ground arith) IsTarget-locked.stored minus_one
                  unlocked idle)
                (All-mono v.right others IsTarget-locked.right))
              (ground (arith, apart))
            ∙ ground (arith, runs, apart))
          refl (OtherThread-change c.pid w.t k _ w.right (λ s n. ground (arith, n)) caller.right)
      where
        after : Kernel
        after = switched c w.t thread old (locked f) v.f g (lock_at old f k)

        others : (s : Ptr) → OtherFiber id (lock_at old f k) s → OtherFiber id after s
        others s o = record {
          ne_null = o.ne_null;
          fiber = if s == old then left_fiber c k (locked f) else o.fiber;
          stored = ground (arith, o.stored, o.ne_id, target.named, IsTarget-locked.stored);
          ne_id = ground (arith, o.stored, o.ne_id);
        }
